-- ===== src/Iface/Route/BoundedVec.antt =====
-- The operations of `heapless::Vec` that the routing table calls, and what its documentation says of
-- them.
use smoltcp.Prelude.{
  ℕ, zero, suc, ◌<◌, ◌≡◌, List, [], ◌∷◌, ◌++◌, Result, ok, err, length, ◌⊎◌, Option, get_elem?,
}

abbrev pub without {ℓ} : {A : Type ℓ} → ℕ → List A → List A
without i [] = []
without zero (x ∷ xs) = xs
without (suc i) (x ∷ xs) = x ∷ without i xs

pub record BoundedVec (A : Type 0) : Type 1 where
  pub Vec : Type 0
  pub capacity : ℕ
  pub empty : Vec
  pub iter : Vec → List A
  -- `push` hands an element back that it has no room for.
  pub push : A → Vec → Result A (Unit {0}) × Vec
  -- The element is there, where a call does not panic.
  pub remove : ℕ → Vec → Option A × Vec

pub record IsBoundedVec {A : Type 0} (vec : BoundedVec A) : Type 0 where
  -- "Appends an item to the back of the collection."
  pub push_room :
      (a : A) (v : vec.Vec)
      → length (vec.iter v) < vec.capacity
      → ((vec.push a v).0 ≡ ok tt) × (vec.iter (vec.push a v).1 ≡ vec.iter v ++ (a ∷ []))
  pub push_full :
      (a : A) (v : vec.Vec) → length (vec.iter v) ≡ vec.capacity → vec.push a v ≡ (err a, v)
  pub bounded :
      (v : vec.Vec) → (length (vec.iter v) < vec.capacity) ⊎ (length (vec.iter v) ≡ vec.capacity)
  -- "Removes and returns the element at position index, shifting all elements after it to the left."
  pub remove_lem :
      (i : ℕ) (v : vec.Vec)
      → i < length (vec.iter v)
      → ((vec.remove i v).0 ≡ get_elem? (vec.iter v) i)
        × (vec.iter (vec.remove i v).1 ≡ without i (vec.iter v))
