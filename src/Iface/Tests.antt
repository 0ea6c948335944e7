-- ===== src/Iface/Tests.antt =====
-- iface/ on concrete inputs.
use smoltcp.Prelude.{
  ℕ, zero, ◌==◌, ◌⊎◌, ◌++◌, ◌+◌, ◌≡◌, ◌≢◌, ◌<◌, refl, sym, ap, ◌∙◌, true, false, Option, none, some,
  List, [], ◌∷◌, ltb, if◌then◌else◌, Result, ok, err, length, get_elem?, arith, suc, subst,
  Bool-cases, inl, inr,
}
use smoltcp.Wire.Ip.{IpAddress, addr_eq}
use smoltcp.Iface.Neighbor.LinearMap.{LinearMapOps, IsLinearMap, Has}
use smoltcp.Iface.Neighbor.{
  Neighbor, Answer, Cache, entry_lifetime, fill, fill_with_expiration, insert_neighbor,
  after_insert, lookup, evict_and_insert,
}
use smoltcp.Iface.Route.BoundedVec.{BoundedVec, IsBoundedVec, without}
use smoltcp.Iface.Route
use smoltcp.Iface.Route.{
  Route, IpCidr, Routes, RouteTableFull, via, find_cidr, ipv4_default, new_ipv4_gateway,
  add_default_ipv4_route,
}
use smoltcp.Iface.Route.Lookup
use smoltcp.Iface.Route.Lookup.{Best, Drops, lookup-Best, add_default_ipv4_route_lem}
use smoltcp.Iface.Rpl.Lollipop.{Ordering, increment, counter_eq, partial_cmp}
use smoltcp.Iface.Rpl.Lollipop.Laws.{
  reversed, is_equal, counter_eq-partial_cmp, partial_cmp-increment, partial_cmp-reversed,
}
use smoltcp.Iface.Neighbor.Fill.{Inserted, fill_lem, lookup-fill}

addr_eq-true : (a b : IpAddress) → addr_eq a b ≡ true → a ≡ b
addr_eq-true (IpAddress.ipv4 a) (IpAddress.ipv4 b) h = ap IpAddress.ipv4 (ground arith)
addr_eq-true (IpAddress.ipv6 a) (IpAddress.ipv6 b) h = ap IpAddress.ipv6 (ground arith)
addr_eq-true (IpAddress.ipv4 a) (IpAddress.ipv6 b) h = cc
addr_eq-true (IpAddress.ipv6 a) (IpAddress.ipv4 b) h = cc

addr_eq_refl : (a : IpAddress) → addr_eq a a ≡ true
addr_eq_refl (IpAddress.ipv4 a) = ground arith
addr_eq_refl (IpAddress.ipv6 a) = ground arith

addr_eq-false : (a b : IpAddress) → a ≢ b → addr_eq a b ≡ false
addr_eq-false a b d = elim (Bool-cases (addr_eq a b)) [
  | inl t ↦ absurd (d (addr_eq-true a b t))
  | inr f ↦ f
]

-- A map with room for one entry.
abbrev Value : Type 0
Value = Neighbor ℕ

abbrev Slot : Type 0
Slot = Option (IpAddress × Value)

abbrev slot_get : IpAddress → Slot → Option Value
slot_get k none = none
slot_get k (some (k', v)) = if addr_eq k k' then some v else none

abbrev slot_insert : IpAddress → Value → Slot → Result (IpAddress × Value) (Option Value) × Slot
slot_insert k v none = (ok none, some (k, v))
slot_insert k v (some (k', v')) =
    if addr_eq k k' then (ok (some v'), some (k, v)) else (err (k, v), some (k', v'))

abbrev slot_remove : IpAddress → Slot → Option Value × Slot
slot_remove k none = (none, none)
slot_remove k (some (k', v)) = if addr_eq k k' then (some v, none) else (none, some (k', v))

abbrev slot_iter : Slot → List (IpAddress × Value)
slot_iter none = []
slot_iter (some entry) = entry ∷ []

abbrev slot : LinearMapOps IpAddress Value
slot = record {
  Map = Slot;
  capacity = 1;
  empty = none;
  insert = slot_insert;
  get = slot_get;
  remove = slot_remove;
  iter = slot_iter;
  clear = λ m. none;
}

abbrev InsertedOk : IpAddress → Value → Slot → Option Value → Slot → Type 0
InsertedOk k v m o m' =
    (o ≡ slot_get k m)
    × (slot_get k m' ≡ some v)
    × ((k' : IpAddress) → k' ≢ k → slot_get k' m' ≡ slot_get k' m)

slot-insert_ok :
    (k : IpAddress) (v : Value) (m m' : Slot) (o : Option Value)
    → slot_insert k v m ≡ (ok o, m')
    → InsertedOk k v m o m'
slot-insert_ok k v none m' o e =
    let e0 : none ≡ o = cc in
    let e1 : some (k, v) ≡ m' = ap (λ p. p.1) e in
    subst (λ x. InsertedOk k v none x m') e0
      (subst (InsertedOk k v none none) e1
        (refl, rw (addr_eq_refl k) refl, λ k' d. rw (addr_eq-false k' k d) refl))
slot-insert_ok k v (some (k0, v0)) m' o e = elim (Bool-cases (addr_eq k k0)) [
  | inl t ↦
      let found : (ok (some v0), some (k, v)) ≡ (ok o, m') = rw t at e in
      let e0 : some v0 ≡ o = cc in
      let e1 : some (k, v) ≡ m' = ap (λ p. p.1) found in
      subst (λ x. InsertedOk k v (some (k0, v0)) x m') e0
        (subst (InsertedOk k v (some (k0, v0)) (some v0)) e1 (
          rw t refl,
          rw (addr_eq_refl k) refl,
          λ k' d.
              let d0 : k' ≢ k0 = λ q. d (q ∙ sym (addr_eq-true k k0 t)) in
              rw (addr_eq-false k' k d, addr_eq-false k' k0 d0) refl,
        ))
  | inr f ↦
      let refused : (err (k, v), some (k0, v0)) ≡ (ok o, m') = rw f at e in
      let h : err (k, v) ≡ ok o = ap (λ p. p.0) refused in cc
]

slot-insert_err :
    (k : IpAddress) (v : Value) (m m' : Slot) (e : IpAddress × Value)
    → slot_insert k v m ≡ (err e, m')
    → (e ≡ (k, v)) × (m' ≡ m) × (slot_get k m ≡ none) × (length (slot_iter m) ≡ 1)
slot-insert_err k v none m' e h = let q : ok none ≡ err e = ap (λ p. p.0) h in cc
slot-insert_err k v (some (k0, v0)) m' e h = elim (Bool-cases (addr_eq k k0)) [
  | inl t ↦
      let taken : (ok (some v0), some (k, v)) ≡ (err e, m') = rw t at h in
      let q : ok (some v0) ≡ err e = ap (λ p. p.0) taken in cc
  | inr f ↦
      let refused : (err (k, v), some (k0, v0)) ≡ (err e, m') = rw f at h in
      let q : err (k, v) ≡ err e = ap (λ p. p.0) refused in
      let back : e ≡ (k, v) = cc in (back, sym (ap (λ p. p.1) refused), rw f refl, refl)
]

slot-remove_lem :
    (k : IpAddress) (m : Slot)
    → ((slot_remove k m).0 ≡ slot_get k m)
      × (slot_get k (slot_remove k m).1 ≡ none)
      × ((k' : IpAddress) → k' ≢ k → slot_get k' (slot_remove k m).1 ≡ slot_get k' m)
slot-remove_lem k none = (refl, refl, λ k' d. refl)
slot-remove_lem k (some (k0, v0)) = elim (Bool-cases (addr_eq k k0)) [
  | inl t ↦ rw t (
    refl,
    refl,
    λ k' d.
        let d0 : k' ≢ k0 = λ q. d (q ∙ sym (addr_eq-true k k0 t)) in
        rw (addr_eq-false k' k0 d0) refl,
  )
  | inr f ↦ rw f (refl, rw f refl, λ k' d. refl)
]

slot-remove_length :
    (k : IpAddress) (v : Value) (m : Slot)
    → slot_get k m ≡ some v
    → suc (length (slot_iter (slot_remove k m).1)) ≡ length (slot_iter m)
slot-remove_length k v none h = cc
slot-remove_length k v (some (k0, v0)) h = elim (Bool-cases (addr_eq k k0)) [
  | inl t ↦ rw t refl
  | inr f ↦ let q : none ≡ some v = rw f at h in cc
]

slot-insert_room :
    (k : IpAddress) (v : Value) (m : Slot)
    → length (slot_iter m) < 1
    → (o : Option Value) × (m' : Slot) × (slot_insert k v m ≡ (ok o, m'))
slot-insert_room k v none h = (none, some (k, v), refl)
slot-insert_room k v (some entry) h = absurd (omega arith)

slot-iter_get :
    (k : IpAddress) (v : Value) (m : Slot) → Has k v (slot_iter m) → slot_get k m ≡ some v
slot-iter_get k v none h = elim h [ ]
slot-iter_get k v (some (k0, v0)) Has.here = rw (addr_eq_refl k) refl
slot-iter_get k v (some (k0, v0)) (Has.there h) = elim h [ ]

slot-IsLinearMap : IsLinearMap slot
slot-IsLinearMap = record {
  insert_ok = slot-insert_ok;
  insert_err = slot-insert_err;
  insert_room = slot-insert_room;
  remove_lem = slot-remove_lem;
  remove_length = slot-remove_length;
  iter_get = slot-iter_get;
  clear_get = λ k m. refl;
}

-- A full cache with an entry of another address.
abbrev crowded : Cache (λ h. true) slot
crowded = record {
  storage = some (IpAddress.ipv4 3232235521, record { hardware_addr = 7; expires_at = 90 });
  silent_until = 50;
}

abbrev neighbor : Value
neighbor = record { hardware_addr = 8; expires_at = 60000010 }

abbrev refilled : Cache (λ h. true) slot
refilled = record { storage = some (IpAddress.ipv4 3232235522, neighbor); silent_until = 50 }

fill_example :
    (cache' : Cache (λ h. true) slot) × (fill
        (λ h. true)
        slot
        (IpAddress.ipv4 3232235522)
        8
        10
        crowded
      ≡ some cache')
    × Inserted (λ h. true) slot slot-IsLinearMap crowded (IpAddress.ipv4 3232235522) neighbor cache'
fill_example =
    fill_lem (λ h. true) slot slot-IsLinearMap crowded (IpAddress.ipv4 3232235522) 8 10
      (omega arith) refl refl

crowded-fill : fill (λ h. true) slot (IpAddress.ipv4 3232235522) 8 10 crowded ≡ some refilled
unfolding fill fill_with_expiration insert_neighbor after_insert evict_and_insert
crowded-fill = refl

lookup-fill_example :
    lookup (λ h. true) slot (IpAddress.ipv4 3232235522) 70 refilled
    ≡ some (
        if ltb 70 (10 + entry_lifetime)
        then Answer.found 8
        else if ltb 70 50
        then Answer.rate_limited
        else Answer.not_found)
lookup-fill_example =
    lookup-fill (λ h. true) slot slot-IsLinearMap crowded refilled (IpAddress.ipv4 3232235522) 8 10
      70 (omega arith) crowded-fill

-- A table with room for one route.
abbrev seat_push : Route → Option Route → Result Route (Unit {0}) × Option Route
seat_push r none = (ok tt, some r)
seat_push r (some old) = (err r, some old)

abbrev seat_iter : Option Route → List Route
seat_iter none = []
seat_iter (some r) = r ∷ []

abbrev seat : BoundedVec Route
seat = record {
  Vec = Option Route;
  capacity = 1;
  empty = none;
  iter = seat_iter;
  push = seat_push;
  remove = λ i v. (v, none);
}

seat-push_room :
    (r : Route) (v : Option Route)
    → length (seat_iter v) < 1
    → ((seat_push r v).0 ≡ ok tt) × (seat_iter (seat_push r v).1 ≡ seat_iter v ++ (r ∷ []))
seat-push_room r none h = (refl, refl)
seat-push_room r (some old) h = absurd (omega arith)

seat-push_full :
    (r : Route) (v : Option Route) → length (seat_iter v) ≡ 1 → seat_push r v ≡ (err r, v)
seat-push_full r none h = absurd (omega arith)
seat-push_full r (some old) h = refl

seat-bounded : (v : Option Route) → (length (seat_iter v) < 1) ⊎ (length (seat_iter v) ≡ 1)
seat-bounded none = inl (omega arith)
seat-bounded (some r) = inr refl

seat-remove_lem :
    (i : ℕ) (v : Option Route)
    → i < length (seat_iter v)
    → (v ≡ get_elem? (seat_iter v) i) × ([] ≡ without i (seat_iter v))
seat-remove_lem i none h = absurd (omega arith)
seat-remove_lem zero (some r) h = (refl, refl)
seat-remove_lem (suc i) (some r) h = absurd (omega arith)

seat-IsBoundedVec : IsBoundedVec seat
seat-IsBoundedVec = record {
  push_room = seat-push_room;
  push_full = seat-push_full;
  bounded = seat-bounded;
  remove_lem = seat-remove_lem;
}

-- A route to 192.168.0.0/16, until 100.
abbrev local_route : Route
local_route = record {
  cidr = IpCidr.cidr_v4 3232235520 16;
  via_router = IpAddress.ipv4 3232235777;
  preferred_until = none;
  expires_at = some 100;
}

abbrev table : Routes seat
table = record { storage = some local_route }

lookup-Best_example :
    (o : Option Route) × (Route.lookup seat (IpAddress.ipv4 3232236000) 100 table ≡ some (via o))
    × Best (IpAddress.ipv4 3232236000) 100 (λ r. Lookup.Has r (seat_iter table.storage)) o
lookup-Best_example = lookup-Best seat (IpAddress.ipv4 3232236000) 100 table refl

add_default_ipv4_route_example :
    ((old : Option Route) × (left : List Route) × (routes' : Routes seat) × Drops ipv4_default
        (seat_iter table.storage)
        old
        left
      × (add_default_ipv4_route seat 3232235777 table ≡ (ok old, routes'))
      × (seat_iter routes'.storage ≡ left ++ (new_ipv4_gateway 3232235777 ∷ [])))
    ⊎ (Drops ipv4_default (seat_iter table.storage) none (seat_iter table.storage)
        × (length (seat_iter table.storage) ≡ 1)
        × (add_default_ipv4_route seat 3232235777 table ≡ (err RouteTableFull.table_full, table)))
add_default_ipv4_route_example = add_default_ipv4_route_lem seat seat-IsBoundedVec 3232235777 table

partial_cmp-increment_example :
    (increment 255 < 256)
    × (((◌≢◌ {A = ℕ} 255 127) × (partial_cmp 255 (increment 255) ≡ some Ordering.less))
        ⊎ ((◌≡◌ {A = ℕ} 255 127) × (increment 255 ≡ 0) × (partial_cmp 255 (increment 255) ≡ none)))
partial_cmp-increment_example = partial_cmp-increment 255 (omega arith)

partial_cmp-reversed_example : partial_cmp 5 250 ≡ reversed (partial_cmp 250 5)
partial_cmp-reversed_example = partial_cmp-reversed 250 5 (omega arith) (omega arith)

counter_eq-partial_cmp_example :
    (counter_eq 130 130 ≡ (130 == 130)) × (is_equal (partial_cmp 130 130) ≡ (130 == 130))
counter_eq-partial_cmp_example = counter_eq-partial_cmp 130 130 (omega arith) (omega arith)
