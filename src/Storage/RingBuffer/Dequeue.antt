-- ===== src/Storage/RingBuffer/Dequeue.antt =====
-- Dequeueing, as taking from the front of the queue.
use smoltcp.Prelude.{
  le→leb, ℕ, ◌+◌, ◌-◌, ◌≤◌, ◌<◌, ◌≡◌, refl, ap, sym, ◌∙◌, ◌⊎◌, inl, inr, min, none, some, List,
  ◌++◌, leb, length, take, drop, arith, length-take, length-drop, Bool-cases,
}
use smoltcp.Prelude.Slices.{
  slice, overwrite-slice_self, take-add, take-take, take_all, drop_all, take-drop, drop-drop,
  take-append_within,
}
use native.Mathlib.Decide.{dec_lt}
use smoltcp.Storage.RingBuffer.{
  RingBuffer, capacity, len, get_idx, dequeue_many_with, copy_out, dequeue_slice, dequeue_allocated,
}
use smoltcp.Storage.RingBuffer.Order.{
  IsValid, order, contents, get_idx_cases, order-advance, length-order, length-contents,
}

module _ {ℓ} {A : Type ℓ} where
  -- The ring buffer without its first `count` elements.
  abbrev pub advance : RingBuffer A → ℕ → RingBuffer A
  advance r count = record r { length = r.length - count; read_at = get_idx r count }

  pub advance-IsValid :
      (r : RingBuffer A) (count : ℕ) → IsValid r → count ≤ r.length → IsValid (advance r count)
  advance-IsValid r count v h = record {
    length_in = omega (arith, v.length_in);
    read_in =
        omega (arith, v.length_in, v.read_in, get_idx_cases r count v (omega (arith, v.length_in)));
  }

  pub contents-advance :
      (r : RingBuffer A) (count : ℕ)
      → IsValid r
      → count ≤ r.length
      → contents (advance r count) ≡ drop count (contents r)
  contents-advance r count v h =
      ap (take (r.length - count)) (order-advance r count v (omega (arith, v.length_in)))
      ∙ take-append_within (r.length - count) (drop count (order r)) (take count (order r))
          (omega (arith, length-drop count (order r), length-order r, v.length_in))
      ∙ take-drop count (r.length - count) r.length (order r) (omega arith)

  -- `dequeue_allocated` panics exactly if more elements are asked for than there are; otherwise it
  -- removes them from the front.
  pub dequeue_allocated_lem :
      (r : RingBuffer A) (count : ℕ)
      → IsValid r
      → ((r.length < count) × (dequeue_allocated r count ≡ none))
        ⊎ ((r' : RingBuffer A) × (dequeue_allocated r count ≡ some r')
            × IsValid r'
            × (contents r' ≡ drop count (contents r))
            × (r'.storage ≡ r.storage))
  unfolding dequeue_allocated
  dequeue_allocated_lem r count v = elim (Bool-cases (leb count r.length)) [
    | inl enough ↦ inr (
      advance r count,
      rw enough,
      advance-IsValid r count v (ground arith),
      contents-advance r count v (ground arith),
      refl,
    )
    | inr short ↦ inl (ground arith, rw short)
  ]

  -- One `dequeue_many_with` of `dequeue_slice`.
  taken : ℕ → RingBuffer A → ℕ
  taken size r = min (min (len r) (capacity r - r.read_at)) size

  read_copy_out :
      (size : ℕ) (r : RingBuffer A)
      → IsValid r
      → dequeue_many_with (copy_out size) r
        ≡ some (taken size r, take (taken size r) (contents r), advance r (taken size r))
  unfolding dequeue_many_with taken
  read_copy_out size r v =
      rw (slice_length, le→leb _ _ (min_le (min (len r) (capacity r - r.read_at)) size))
        (λ i. some (
          taken size r,
          out i,
          record (advance r (taken size r)) {
            storage =
                overwrite-slice_self r.storage r.read_at (min (len r) (capacity r - r.read_at)) i;
          },
        ))
    where
      most : ℕ
      most = min (len r) (capacity r - r.read_at)

      n : ℕ
      n = min most size

      min_le : (a b : ℕ) → min a b ≤ a
      min_le a b = omega arith

      slice_length :
          length (slice r.storage r.read_at (min (len r) (capacity r - r.read_at)))
          ≡ min (len r) (capacity r - r.read_at)
      slice_length =
          omega
            (arith, length-take most (drop r.read_at r.storage), length-drop r.read_at r.storage)

      out : take n (slice r.storage r.read_at most) ≡ take n (contents r)
      out =
          take-take n most (drop r.read_at r.storage)
          ∙ ap (λ t. take t (drop r.read_at r.storage)) {y = n} (omega arith)
          ∙ sym (
              take-take n r.length (order r)
              ∙ ap (λ t. take t (order r)) {y = n} (omega arith)
              ∙ take-append_within n (drop r.read_at r.storage) (take r.read_at r.storage)
                  (omega (arith, length-drop r.read_at r.storage)))

  drop-min : (k n : ℕ) (xs : List A) → length xs ≡ n → drop (min k n) xs ≡ drop k xs
  drop-min k n xs e = elim (dec_lt k n) [
    | yes h ↦ ap (λ t. drop t xs) (omega arith)
    | no h ↦ drop_all (min k n) xs (omega arith) ∙ sym (drop_all k xs (omega arith))
  ]

  module _ (size : ℕ) (r : RingBuffer A) (v : IsValid r) where
    first : ℕ
    first = taken size r

    r1 : RingBuffer A
    r1 = advance r first

    v1 : IsValid r1
    unfolding r1 first taken
    v1 = advance-IsValid r (taken size r) v (omega arith)

    second : ℕ
    second = taken (size - first) r1

    r2 : RingBuffer A
    r2 = advance r1 second

    taken_total : first + second ≡ min size (len r)
    unfolding first r1 second taken
    taken_total = omega (
      arith,
      v.length_in,
      v.read_in,
      get_idx_cases r (taken size r) v (omega (arith, v.length_in)),
    )

    first_in : first ≤ r.length
    unfolding first taken
    first_in = omega arith

    second_in : second ≤ r1.length
    unfolding second taken
    second_in = omega arith

    after_first : contents r1 ≡ drop first (contents r)
    unfolding r1
    after_first = contents-advance r first v first_in

    full_length : length (contents r) ≡ r.length
    full_length = length-contents r v

    outs : take first (contents r) ++ take second (contents r1) ≡ take size (contents r)
    outs =
        ap (λ t. take first (contents r) ++ take second t) after_first
        ∙ take-add first second (min size (length (contents r))) (contents r)
            (omega (arith, taken_total, full_length))
        ∙ sym (take-take size (length (contents r)) (contents r))
        ∙ ap (take size) (take_all (length (contents r)) (contents r) (omega arith))

    rest : contents r2 ≡ drop size (contents r)
    unfolding r2
    rest =
        contents-advance r1 second v1 second_in
        ∙ ap (drop second) after_first
        ∙ drop-drop second first (first + second) (contents r) refl
        ∙ ap (λ t. drop t (contents r)) taken_total
        ∙ drop-min size (r.length) (contents r) (full_length)

    -- `dequeue_slice` does not panic: it takes as many elements as there are from the front, returns
    -- how many those were, and leaves the rest.
    pub dequeue_slice_lem :
        (r' : RingBuffer A) × (dequeue_slice size r
          ≡ some (min size (len r), take size (contents r), r'))
        × (contents r' ≡ drop size (contents r))
        × IsValid r'
    unfolding dequeue_slice first r1 second r2
    dequeue_slice_lem = (
      r2,
      rw (read_copy_out size r v, dequeue_slice, read_copy_out (size - first) r1 v1)
          (λ i. some (taken_total i, outs i, r2)),
      rest,
      advance-IsValid r1 second v1 second_in,
    )
