-- ===== src/Storage/RingBuffer/Enqueue.antt =====
-- Enqueueing, as appending to the queue.
use smoltcp.Prelude.{
  le→leb, ℕ, ◌+◌, ◌≤◌, ◌≡◌, refl, ap, sym, ◌∙◌, ◌⊎◌, inl, inr, min, true, some, List, [], ◌++◌, leb,
  ◌==◌, length, take, drop, arith, length-take, length-drop, append_assoc, Bool-cases,
}
use smoltcp.Prelude.Slices.{
  overwrite, slice, length-overwrite, take-overwrite_exact, overwrite-slice, take-add, take-take,
  take_all,
}
use smoltcp.Storage.RingBuffer.{
  RingBuffer, capacity, window, get_idx, rewind_empty, contiguous_window, enqueue_many_with,
  write_chunk, copy_in, enqueue_slice,
}
use smoltcp.Storage.RingBuffer.Order.{
  IsValid, order, contents, get_idx_cases, order-overwrite, length-order,
}

module _ {ℓ} {A : Type ℓ} where
  -- The ring buffer after `ys` were put at its end, in one piece.
  abbrev pub append_chunk : RingBuffer A → List A → RingBuffer A
  append_chunk r ys = record r {
    storage = overwrite r.storage (get_idx r r.length) ys;
    length = r.length + length ys;
  }

  pub append_chunk-IsValid :
      (r : RingBuffer A) (ys : List A)
      → IsValid r
      → length ys ≤ contiguous_window r
      → IsValid (append_chunk r ys)
  append_chunk-IsValid r ys v h = record {
    length_in = omega (arith, v.length_in, length-overwrite r.storage (get_idx r r.length) ys);
    read_in = omega (arith, v.read_in, length-overwrite r.storage (get_idx r r.length) ys);
  }

  pub contents-append_chunk :
      (r : RingBuffer A) (ys : List A)
      → IsValid r
      → length ys ≤ contiguous_window r
      → contents (append_chunk r ys) ≡ contents r ++ ys
  contents-append_chunk r ys v h =
      ap (take (r.length + length ys)) (
        order-overwrite r r.length ys v (omega (arith, v.length_in))
          (omega (arith, v.length_in, get_idx_cases r r.length v v.length_in)))
      ∙ take-overwrite_exact r.length (r.length + length ys) (order r) ys refl
          (omega (arith, length-order r, v.length_in))

  pub rewind_empty-IsValid : (r : RingBuffer A) → IsValid r → IsValid (rewind_empty r)
  rewind_empty-IsValid r v = ground arith

  contents_of_zero : (r : RingBuffer A) → r.length ≡ 0 → contents r ≡ []
  contents_of_zero r e = ap (λ t. take t (order r)) e

  capacity-rewind_empty : (r : RingBuffer A) → capacity (rewind_empty r) ≡ capacity r
  capacity-rewind_empty r = ground arith

  length-rewind_empty : (r : RingBuffer A) → (rewind_empty r).length ≡ r.length
  length-rewind_empty r = ground arith

  -- Rewinding an empty ring buffer makes all of it writable in one piece.
  contiguous-rewind_empty :
      (r : RingBuffer A)
      → IsValid r
      → window r ≤ contiguous_window r
      → window r ≤ contiguous_window (rewind_empty r)
  contiguous-rewind_empty r v h = elim (Bool-cases (r.length == 0)) [
    | inr e ↦ rw e h
    | inl e ↦
        let z : r.length ≡ 0 = ground arith in
        rw e (
          omega (
            arith,
            z,
            get_idx_cases (record r { read_at = 0 }) r.length
                (record { length_in = v.length_in; read_in = omega arith }) v.length_in,
          ))
  ]

  pub contents-rewind_empty : (r : RingBuffer A) → contents (rewind_empty r) ≡ contents r
  contents-rewind_empty r = elim (Bool-cases (r.length == 0)) [
    | inl e ↦
        let z : r.length ≡ 0 = ground arith in
        rw e (contents_of_zero (record r { read_at = 0 }) z ∙ sym (contents_of_zero r z))
    | inr e ↦ rw e
  ]

  -- What one `enqueue_many_with` of `enqueue_slice` does: it appends as much of the input as fits
  -- in one piece, and if that is not all of it, what is free now can be written in one piece.
  pub record Copied (r : RingBuffer A) (input : List A) (n : ℕ) (rest : List A) (r' : RingBuffer A)
      : Type ℓ where
    pub valid : IsValid r'
    pub room : capacity r' ≡ capacity r
    pub count : n ≤ length input
    pub left : rest ≡ drop n input
    pub longer : r'.length ≡ r.length + n
    pub appended : contents r' ≡ contents r ++ take n input
    pub all_or_rest : (n ≡ length input) ⊎ (window r' ≤ contiguous_window r')

  module _ (r : RingBuffer A) (v : IsValid r) (input : List A) where
    copied : ℕ
    copied = min (contiguous_window r) (length input)

    length_copied : length (take copied input) ≡ copied
    unfolding copied
    length_copied = omega (arith, length-take copied input)

    copied_fits : length (take copied input) ≤ contiguous_window r
    unfolding copied
    copied_fits = omega (arith, length_copied)

    after_copy : RingBuffer A
    after_copy = append_chunk r (take copied input)

    room_after : capacity after_copy ≡ capacity r
    unfolding after_copy
    room_after = length-overwrite r.storage (get_idx r r.length) (take copied input)

    longer_after : after_copy.length ≡ r.length + copied
    unfolding after_copy
    longer_after = ap (λ t. r.length + t) length_copied

    copied-IsValid : IsValid after_copy
    unfolding after_copy
    copied-IsValid = append_chunk-IsValid r (take copied input) v copied_fits

    read_after : after_copy.read_at ≡ r.read_at
    unfolding after_copy
    read_after = refl

    copied_lem : copied ≡ min (contiguous_window r) (length input)
    unfolding copied
    copied_lem = refl

    all_or_rest_after : (copied ≡ length input) ⊎ (window after_copy ≤ contiguous_window after_copy)
    all_or_rest_after = omega (
      arith,
      copied_lem,
      room_after,
      longer_after,
      read_after,
      v.length_in,
      v.read_in,
      copied-IsValid.length_in,
      get_idx_cases r r.length v v.length_in,
      get_idx_cases after_copy after_copy.length copied-IsValid copied-IsValid.length_in,
    )

    after-Copied : Copied r input copied (drop copied input) after_copy
    after-Copied = record {
      valid = copied-IsValid;
      room = room_after;
      count = omega (arith, copied_lem);
      left = refl;
      longer = longer_after;
      appended = unfold after_copy in contents-append_chunk r (take copied input) v copied_fits;
      all_or_rest = all_or_rest_after;
    }

    write_copy_in : write_chunk (copy_in input) r ≡ some (copied, drop copied input, after_copy)
    unfolding write_chunk copied after_copy
    write_copy_in =
        rw (slice_length, fits)
          (ap (λ t. some (copied, drop copied input, t))
            (λ i. record r {
              storage =
                  overwrite-slice r.storage (get_idx r r.length) (contiguous_window r)
                    (take copied input) copied_fits i;
              length = r.length + sym length_copied i;
            }))
      where
        slice_length :
            length (slice r.storage (get_idx r r.length) (contiguous_window r))
            ≡ contiguous_window r
        slice_length = omega (
          arith,
          length-take (contiguous_window r) (drop (get_idx r r.length) r.storage),
          length-drop (get_idx r r.length) r.storage,
        )

        fits : leb (min (contiguous_window r) (length input)) (contiguous_window r) ≡ true
        fits = le→leb (min (contiguous_window r) (length input)) _ (omega arith)

  Copied-rewind :
      (r : RingBuffer A) (v : IsValid r) (input : List A) (n : ℕ) (r' : RingBuffer A)
      → Copied (rewind_empty r) input n (drop n input) r'
      → Copied r input n (drop n input) r'
  Copied-rewind r v input n r' c = record {
    valid = c.valid;
    room = c.room ∙ capacity-rewind_empty r;
    count = c.count;
    left = c.left;
    longer = c.longer ∙ ap (λ t. t + n) (length-rewind_empty r);
    appended = c.appended ∙ ap (λ t. t ++ take n input) (contents-rewind_empty r);
    all_or_rest = c.all_or_rest;
  }

  enqueue_copy_in :
      (r : RingBuffer A) (input : List A)
      → IsValid r
      → (n : ℕ) × (r' : RingBuffer A) × (n
          ≡ min (contiguous_window (rewind_empty r)) (length input))
        × (enqueue_many_with (copy_in input) r ≡ some (n, drop n input, r'))
        × Copied r input n (drop n input) r'
  unfolding enqueue_many_with
  enqueue_copy_in r input v = (
    copied r' v' input,
    after_copy r' v' input,
    copied_lem r' v' input,
    write_copy_in r' v' input,
    Copied-rewind r v input _ _ (after-Copied r' v' input),
  )
    where
      r' : RingBuffer A
      r' = rewind_empty r

      v' : IsValid r'
      v' = rewind_empty-IsValid r v

  take-min_length : (xs : List A) (w n : ℕ) → n ≡ min (length xs) w → take n xs ≡ take w xs
  take-min_length xs w n e =
      ap (λ t. take t xs) {y = min w (length xs)} (omega arith)
      ∙ sym (take-take w (length xs) xs)
      ∙ ap (take w) (take_all (length xs) xs (omega arith))

  module _ (input : List A) (r r1 r2 : RingBuffer A) (n1 n2 : ℕ) (v : IsValid r)
      (c1 : Copied r input n1 (drop n1 input) r1)
      (e2 : n2 ≡ min (contiguous_window (rewind_empty r1)) (length (drop n1 input)))
      (c2 : Copied r1 (drop n1 input) n2 (drop n2 (drop n1 input)) r2) where
    copied_total : n1 + n2 ≡ min (length input) (window r)
    copied_total = elim c1.all_or_rest [
      | inl all ↦ omega (
        arith,
        e2,
        length-drop n1 input,
        c1.count,
        c1.longer,
        c1.room,
        c1.valid.length_in,
        c2.longer,
        c2.room,
        c2.valid.length_in,
        v.length_in,
      )
      | inr rest ↦
          let wide = contiguous-rewind_empty r1 c1.valid rest in
          omega (
            arith,
            e2,
            length-drop n1 input,
            c1.count,
            c1.longer,
            c1.room,
            c1.valid.length_in,
            c2.longer,
            c2.room,
            c2.valid.length_in,
            v.length_in,
          )
    ]

    copied_contents : contents r2 ≡ contents r ++ take (window r) input
    copied_contents =
        c2.appended
        ∙ ap (λ t. t ++ take n2 (drop n1 input)) c1.appended
        ∙ append_assoc (contents r) (take n1 input) (take n2 (drop n1 input))
        ∙ ap (λ t. contents r ++ t)
            (take-add n1 n2 (n1 + n2) input refl
              ∙ take-min_length input (window r) (n1 + n2) copied_total)

  -- `enqueue_slice` does not panic: it appends as much of the input as there is room for, returns
  -- how much that was, and keeps the ring buffer valid and its capacity.
  pub enqueue_slice_lem :
      (input : List A) (r : RingBuffer A)
      → IsValid r
      → (r' : RingBuffer A) × (enqueue_slice input r ≡ some (min (length input) (window r), r'))
        × (contents r' ≡ contents r ++ take (window r) input)
        × IsValid r'
        × (capacity r' ≡ capacity r)
  unfolding enqueue_slice
  enqueue_slice_lem input r v =
      let (n1, r1, e1, q1, c1) = enqueue_copy_in r input v in
      let (n2, r2, e2, q2, c2) = enqueue_copy_in r1 (drop n1 input) (c1.valid) in
      (
        r2,
        rw (q1, enqueue_slice, q2)
            (ap (λ t. some (t, r2)) (copied_total input r r1 r2 n1 n2 v c1 e2 c2)),
        copied_contents input r r1 r2 n1 n2 v c1 e2 c2,
        c2.valid,
        c2.room ∙ c1.room,
      )
