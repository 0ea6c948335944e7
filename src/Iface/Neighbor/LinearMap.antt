-- ===== src/Iface/Neighbor/LinearMap.antt =====
-- The operations of `heapless::LinearMap` that the neighbor cache calls, and what its documentation
-- says of them.
use smoltcp.Prelude.{ℕ, suc, ◌<◌, ◌≡◌, ◌≢◌, Option, none, some, List, ◌∷◌, Result, ok, err, length}

pub record LinearMapOps (K V : Type 0) : Type 1 where
  pub Map : Type 0
  pub capacity : ℕ
  pub empty : Map
  -- The pair is handed back by a full map, the old value by one that has the key.
  pub insert : K → V → Map → Result (K × V) (Option V) × Map
  pub get : K → Map → Option V
  pub remove : K → Map → Option V × Map
  pub iter : Map → List (K × V)
  pub clear : Map → Map

-- An entry of a list.
pub data Has {K V : Type 0} (k : K) (v : V) : List (K × V) → Type 0 where
  here : {rest : List (K × V)} → Has k v ((k, v) ∷ rest)
  there : {entry : K × V} {rest : List (K × V)} → Has k v rest → Has k v (entry ∷ rest)

pub record IsLinearMap {K V : Type 0} (map : LinearMapOps K V) : Type 0 where
  -- "Inserts a key-value pair into the map": there was room, or the key.
  pub insert_ok :
      (k : K) (v : V) (m m' : map.Map) (o : Option V)
      → map.insert k v m ≡ (ok o, m')
      → (o ≡ map.get k m)
        × (map.get k m' ≡ some v)
        × ((k' : K) → k' ≢ k → map.get k' m' ≡ map.get k' m)
  -- A full map does not change; it does not have the key.
  pub insert_err :
      (k : K) (v : V) (m m' : map.Map) (e : K × V)
      → map.insert k v m ≡ (err e, m')
      → (e ≡ (k, v)) × (m' ≡ m) × (map.get k m ≡ none) × (length (map.iter m) ≡ map.capacity)
  pub insert_room :
      (k : K) (v : V) (m : map.Map)
      → length (map.iter m) < map.capacity
      → (o : Option V) × (m' : map.Map) × (map.insert k v m ≡ (ok o, m'))
  -- "Removes a key from the map, returning the value at the key if the key was previously in it."
  pub remove_lem :
      (k : K) (m : map.Map)
      → ((map.remove k m).0 ≡ map.get k m)
        × (map.get k (map.remove k m).1 ≡ none)
        × ((k' : K) → k' ≢ k → map.get k' (map.remove k m).1 ≡ map.get k' m)
  pub remove_length :
      (k : K) (v : V) (m : map.Map)
      → map.get k m ≡ some v
      → suc (length (map.iter (map.remove k m).1)) ≡ length (map.iter m)
  -- The entries are those that `get` finds.
  pub iter_get : (k : K) (v : V) (m : map.Map) → Has k v (map.iter m) → map.get k m ≡ some v
  pub clear_get : (k : K) (m : map.Map) → map.get k (map.clear m) ≡ none
