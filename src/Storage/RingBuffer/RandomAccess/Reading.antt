-- ===== src/Storage/RingBuffer/RandomAccess/Reading.antt =====
-- Random access: what `read_allocated` reads, on both sides of the contents' end.
use smoltcp.Prelude.{
  ℕ, ◌+◌, ◌-◌, ◌≤◌, ◌<◌, ◌≡◌, refl, ap, sym, ◌∙◌, min, true, false, List, [], ◌++◌, ltb,
  if◌then◌else◌, length, take, drop, arith, length-take, length-drop,
}
use smoltcp.Prelude.Slices.{slice, take-add, take-take, take-drop, drop-drop}
use mathlib.Core.Path.{ap₂}
use smoltcp.Storage.RingBuffer.{RingBuffer, capacity, get_idx, get_allocated, read_allocated}
use smoltcp.Storage.RingBuffer.Order.{
  IsValid, order, contents, get_idx_cases, slice-order, length-contents,
}

clamp_lem :
    (size a c : ℕ)
    → (let clamped = (if ltb a size then a else size) in if ltb c clamped then c else clamped)
      ≡ min (min size a) c
clamp_lem size a c = ground arith

le→not_ltb : (a b : ℕ) → b ≤ a → ltb a b ≡ false
le→not_ltb a b h = ground arith

module _ {ℓ} {A : Type ℓ} where
  -- Where `get_allocated` stops: at the end of the contents, or of the storage.
  pub readable : RingBuffer A → ℕ → ℕ → ℕ
  readable r offset size = min (min size (r.length - offset)) (capacity r - get_idx r offset)

  slice-take : (k n m : ℕ) (xs : List A) → k + n ≤ m → slice (take m xs) k n ≡ slice xs k n
  slice-take k n m xs h =
      take-drop k n (k + n) (take m xs) refl
      ∙ ap (drop k) (take-take (k + n) m xs ∙ ap (λ t. take t xs) {y = k + n} (omega arith))
      ∙ sym (take-drop k n (k + n) xs refl)

  pub readable_bounds :
      (r : RingBuffer A) (offset size : ℕ)
      → offset ≤ r.length
      → (readable r offset size ≤ size) × (offset + readable r offset size ≤ r.length)
  unfolding readable
  readable_bounds r offset size h = (omega arith, omega arith)

  -- One read returns a part of the contents that lies in one piece.
  pub get_allocated_lem :
      (r : RingBuffer A) (offset size : ℕ)
      → IsValid r
      → offset ≤ r.length
      → get_allocated r offset size ≡ slice (contents r) offset (readable r offset size)
  unfolding get_allocated readable
  get_allocated_lem r offset size v h =
      cut
      ∙ slice-order r offset n v (omega (arith, v.length_in)) (
          omega
            (arith, v.length_in, v.read_in, get_idx_cases r offset v (omega (arith, v.length_in))))
      ∙ sym (slice-take offset n r.length (order r) (omega arith))
    where
      n : ℕ
      n = readable r offset size

      cut : get_allocated r offset size ≡ slice r.storage (get_idx r offset) n
      cut = rw inside (
          ap (slice r.storage (get_idx r offset))
            (clamp_lem size (r.length - offset) (capacity r - get_idx r offset)))
        where
          inside : ltb r.length offset ≡ false
          inside = le→not_ltb _ _ h

  module _ (r : RingBuffer A) (offset size : ℕ) (v : IsValid r) (h : offset ≤ r.length) where
    abbrev first_part : ℕ
    first_part = readable r offset size

    abbrev second_part : ℕ
    second_part = readable r (offset + first_part) (size - first_part)

    parts_in : offset + first_part ≤ r.length
    unfolding readable
    parts_in = omega arith

    parts_total : first_part + second_part ≡ min size (r.length - offset)
    unfolding readable
    parts_total = omega (
      arith,
      v.length_in,
      v.read_in,
      get_idx_cases r offset v (omega (arith, v.length_in)),
      get_idx_cases r (offset + first_part) v (omega (arith, v.length_in, parts_in)),
    )

    pub length_of_read : (k n : ℕ) → k + n ≤ r.length → length (slice (contents r) k n) ≡ n
    length_of_read k n l = omega (
      arith,
      length-contents r v,
      length-take n (drop k (contents r)),
      length-drop k (contents r),
    )

    second_in : offset + first_part + second_part ≤ r.length
    second_in = omega (arith, parts_total)

    parts_joined :
        (k m : ℕ)
        → k + m ≤ length (contents r)
        → slice (contents r) offset k ++ slice (contents r) (offset + k) m
          ≡ slice (contents r) offset (k + m)
    parts_joined k m l =
        ap (λ t. slice (contents r) offset k ++ take m t)
          (sym (drop-drop k offset (offset + k) (contents r) refl))
        ∙ take-add k m (k + m) (drop offset (contents r)) refl

    pub read_allocated_inside :
        read_allocated r offset size
        ≡ (min size (r.length - offset), slice (contents r) offset (min size (r.length - offset)))
    unfolding read_allocated
    read_allocated_inside =
        ap read_rest first_lem
        ∙ ap
            (λ k.
              let second = get_allocated r (offset + k) (size - k) in
              (k + length second, first ++ second))
            first_length
        ∙ ap (λ second. (first_part + length second, first ++ second)) second_lem
        ∙ ap₂ (λ n t. (n, t))
            (ap (λ t. first_part + t) (length_of_read (offset + first_part) second_part second_in)
              ∙ parts_total)
            (parts_joined first_part second_part (omega (arith, length-contents r v, second_in))
              ∙ ap (slice (contents r) offset) parts_total)
      where
        read_rest : List A → ℕ × List A
        read_rest t =
            let second = get_allocated r (offset + length t) (size - length t) in
            (length t + length second, t ++ second)

        first : List A
        first = slice (contents r) offset first_part

        first_lem : get_allocated r offset size ≡ first
        first_lem = get_allocated_lem r offset size v h

        first_length : length first ≡ first_part
        first_length = length_of_read offset first_part parts_in

        second_lem :
            get_allocated r (offset + first_part) (size - first_part)
            ≡ slice (contents r) (offset + first_part) second_part
        second_lem = get_allocated_lem r (offset + first_part) (size - first_part) v parts_in

  pub read_allocated_beyond :
      (r : RingBuffer A) (offset size : ℕ)
      → r.length < offset
      → read_allocated r offset size ≡ (0, [])
  unfolding read_allocated get_allocated
  read_allocated_beyond r offset size h =
      let beyond : ltb r.length offset ≡ true = ground arith in
      let further : ltb r.length (offset + 0) ≡ true = ground arith in rw (beyond, further) refl
