-- ===== src/Storage/RingBuffer/Order.antt =====
-- The elements of a ring buffer in their order.
use smoltcp.Prelude.{
  ℕ, ◌+◌, ◌-◌, ◌%◌, ◌≤◌, ◌<◌, ◌≡◌, refl, sym, ◌∙◌, ◌⊎◌, inl, inr, true, false, List, ◌++◌, ltb,
  length, take, drop, arith, length-take, length-drop,
}
use smoltcp.Prelude.Slices.{
  overwrite, slice, overwrite-append_left, overwrite-append_right, drop-overwrite,
  drop-overwrite_after, take-overwrite, take-overwrite_before,
}
use smoltcp.Prelude.Rotate.{
  rotate, length-rotate, slice-rotate_before, slice-rotate_after, rotate-rotate_before,
  rotate-rotate_after,
}
use smoltcp.Storage.RingBuffer.{RingBuffer, capacity, get_idx, new}
use mathlib.Core.Path.{ap₂}
use native.Mathlib.Decide.{dec_lt}
use native.Mathlib.Nat.{mod-eq_of_lt, mod-eq-sub-mod}

wrap_idx :
    (a k c : ℕ)
    → 0 < c
    → a < c
    → k ≤ c
    → ((a + k < c) × ((a + k) % c ≡ a + k)) ⊎ ((c ≤ a + k) × ((a + k) % c + c ≡ a + k))
wrap_idx a k c p h l = elim (dec_lt (a + k) c) [
  | yes q ↦ inl (q, mod-eq_of_lt q)
  | no q ↦ inr (
    omega arith,
    omega (
      arith,
      mod-eq-sub-mod {n = a + k} {m = c} (omega arith),
      mod-eq_of_lt {n = a + k - c} {m = c} (omega arith),
    ),
  )
]

module _ {ℓ} {A : Type ℓ} where
  pub record IsValid (r : RingBuffer A) : Type 0 where
    pub length_in : r.length ≤ capacity r
    pub read_in : r.read_at ≤ capacity r - 1

  -- The whole storage, from the oldest element on.
  abbrev pub order : RingBuffer A → List A
  order r = rotate r.read_at r.storage

  -- The queue that the ring buffer holds, oldest element first.
  abbrev pub contents : RingBuffer A → List A
  contents r = take r.length (order r)

  pub new-IsValid : (storage : List A) → IsValid (new storage)
  unfolding new
  new-IsValid storage = record { length_in = omega arith; read_in = omega arith }

  pub length-order : (r : RingBuffer A) → length (order r) ≡ capacity r
  length-order r = length-rotate r.read_at r.storage

  pub length-contents : (r : RingBuffer A) → IsValid r → length (contents r) ≡ r.length
  length-contents r v = omega (arith, v.length_in, length-take r.length (order r), length-order r)

  -- Where the `k`-th element lies.
  pub get_idx_cases :
      (r : RingBuffer A) (k : ℕ)
      → IsValid r
      → k ≤ capacity r
      → ((r.read_at + k < capacity r) × (get_idx r k ≡ r.read_at + k))
        ⊎ ((capacity r ≤ r.read_at + k) × (get_idx r k + capacity r ≡ r.read_at + k))
  get_idx_cases r k v h = elim (dec_lt 0 (capacity r)) [
    | yes p ↦
        let some_room : ltb 0 (capacity r) ≡ true = ground arith in
        rw some_room (wrap_idx r.read_at k (capacity r) p (omega arith) h)
    | no p ↦
        let no_room : ltb 0 (capacity r) ≡ false = ground arith in
        rw no_room (inr (omega arith, omega arith))
  ]

  -- A write to a contiguous part of the storage is a write to the ordered elements.
  pub order-overwrite :
      (r : RingBuffer A) (k : ℕ) (ys : List A)
      → IsValid r
      → k + length ys ≤ capacity r
      → get_idx r k + length ys ≤ capacity r
      → order (record r { storage = overwrite r.storage (get_idx r k) ys })
        ≡ overwrite (order r) k ys
  order-overwrite r k ys v h room = elim (get_idx_cases r k v (omega arith)) [
    | inl (before, e) ↦ rw e (
        ap₂ ◌++◌ (drop-overwrite r.read_at k (r.read_at + k) r.storage ys refl)
          (take-overwrite_before r.read_at (r.read_at + k) r.storage ys (omega arith))
        ∙ sym (
            overwrite-append_left (drop r.read_at r.storage) (take r.read_at r.storage) k ys
              (omega (arith, length-drop r.read_at r.storage))))
    | inr (after, e) ↦
        ap₂ ◌++◌ (drop-overwrite_after r.read_at (get_idx r k) r.storage ys (omega arith))
          (take-overwrite r.read_at (get_idx r k) r.storage ys (omega arith))
        ∙ sym (
            overwrite-append_right (drop r.read_at r.storage) (take r.read_at r.storage)
              (get_idx r k) k ys (omega (arith, length-drop r.read_at r.storage)))
  ]

  -- A contiguous part of the storage is a part of the ordered elements.
  pub slice-order :
      (r : RingBuffer A) (k n : ℕ)
      → IsValid r
      → k + n ≤ capacity r
      → get_idx r k + n ≤ capacity r
      → slice r.storage (get_idx r k) n ≡ slice (order r) k n
  slice-order r k n v h room = elim (get_idx_cases r k v (omega arith)) [
    | inl (before, e) ↦ rw e (slice-rotate_before r.read_at k n r.storage (omega arith))
    | inr (after, e) ↦
        slice-rotate_after r.read_at k (get_idx r k) n r.storage (omega arith) e (omega arith)
  ]

  -- Moving the read position by `count` rotates the ordered elements.
  pub order-advance :
      (r : RingBuffer A) (count : ℕ)
      → IsValid r
      → count ≤ capacity r
      → order (record r { read_at = get_idx r count }) ≡ rotate count (order r)
  order-advance r count v h = elim (get_idx_cases r count v h) [
    | inl (before, e) ↦ rw e (rotate-rotate_before r.read_at count r.storage (omega arith))
    | inr (after, e) ↦
        rotate-rotate_after r.read_at count (get_idx r count) r.storage (omega arith) h e
  ]
