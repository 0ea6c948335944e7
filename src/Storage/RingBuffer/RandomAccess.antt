-- ===== src/Storage/RingBuffer/RandomAccess.antt =====
-- Random access: the part of a receive buffer behind its contents, and reads without dequeueing.
pub mod Writing
pub mod Reading
use smoltcp.Prelude.{
  le→leb, ℕ, ◌+◌, ◌-◌, ◌≤◌, ◌<◌, ◌≡◌, refl, ap, sym, ◌∙◌, subst, min, true, false, some, List, [],
  ◌++◌, ltb, Bool-cases, inl, inr, leb, if◌then◌else◌, length, take, drop, arith, length-take,
  length-drop,
}
use smoltcp.Prelude.Slices.{
  overwrite, slice, overwrite-nil, length-overwrite, take-overwrite_exact, overwrite-overwrite,
  take-add, take-take, take_all, take-drop, drop-drop, take-append_past,
}
use mathlib.Core.Path.{ap₂}
use smoltcp.Storage.RingBuffer.{
  RingBuffer, capacity, window, get_idx, get_unallocated, write_once, write_unallocated,
  enqueue_unallocated, get_allocated, read_allocated,
}
use smoltcp.Storage.RingBuffer.Order.{
  IsValid, order, contents, get_idx_cases, order-overwrite, slice-order, length-order,
  length-contents,
}
use smoltcp.Storage.RingBuffer.RandomAccess.Reading.{read_allocated_inside, read_allocated_beyond}
use smoltcp.Storage.RingBuffer.RandomAccess.Writing.{
  WroteAt, WroteAt-IsValid, WroteAt-nothing, write_unallocated_inside, write_unallocated_beyond,
}

module _ {ℓ} {A : Type ℓ} where
  -- In a well-formed buffer, `write_unallocated` writes as much of the input as there is room for
  -- behind the offset, nothing if the offset lies behind the window, returns how much that was, and
  -- changes nothing else of the ordered elements.
  pub write_unallocated-WroteAt :
      (r : RingBuffer A) (offset : ℕ) (input : List A)
      → IsValid r
      → (r' : RingBuffer A) × (write_unallocated r offset input
          ≡ (min (length input) (window r - offset), r'))
        × WroteAt r offset input (min (length input) (window r - offset)) r'
  write_unallocated-WroteAt r offset input v = elim (Bool-cases (ltb (window r) offset)) [
    | inr f ↦ write_unallocated_inside r offset input v (ground arith)
    | inl t ↦
        let beyond : window r < offset = ground arith in
        let none_fits : 0 ≡ min (length input) (window r - offset) = omega arith in
        subst
          (λ n.
            (r' : RingBuffer A) × (write_unallocated r offset input ≡ (n, r'))
            × WroteAt r offset input n r')
          none_fits
          (r, write_unallocated_beyond r offset input beyond, WroteAt-nothing r offset input)
  ]

  take-overwrite_prefix :
      (k c m : ℕ) (xs ys : List A)
      → m ≡ k + c
      → c ≤ length ys
      → k + length ys ≤ length xs
      → take m (overwrite xs k ys) ≡ take k xs ++ take c ys
  take-overwrite_prefix k c m xs ys e h l =
      ap (λ t. take t (overwrite xs k ys)) {y = min m (k + length ys)} (omega arith)
      ∙ sym (take-take m (k + length ys) (overwrite xs k ys))
      ∙ ap (take m) (take-overwrite_exact k (k + length ys) xs ys refl l)
      ∙ take-append_past m c (take k xs) ys (omega (arith, length-take k xs))

  contents-enqueue :
      (r r1 : RingBuffer A) (input : List A) (n count : ℕ)
      → IsValid r
      → WroteAt r 0 input n r1
      → n ≡ length input
      → count ≤ length input
      → length input ≤ window r
      → contents (record r1 { length = r1.length + count }) ≡ contents r ++ take count input
  contents-enqueue r r1 input n count v w e h k =
      ap (take (r1.length + count)) (w.written ∙ ap₂ (overwrite (order r)) (omega arith) whole)
      ∙ take-overwrite_prefix r.length count (r1.length + count) (order r) input
          (omega (arith, w.same_length)) h (omega (arith, v.length_in, length-order r))
    where
      whole : take n input ≡ input
      whole = take_all n input (omega arith)

  enqueue_written :
      (r r1 : RingBuffer A) (input : List A) (n count : ℕ)
      → IsValid r
      → WroteAt r 0 input n r1
      → n ≡ length input
      → count ≤ length input
      → length input ≤ window r
      → write_unallocated r 0 input ≡ (n, r1)
      → (r' : RingBuffer A) × (enqueue_unallocated (write_unallocated r 0 input).1 count ≡ some r')
        × (contents r' ≡ contents r ++ take count input)
        × IsValid r'
  unfolding enqueue_unallocated
  enqueue_written r r1 input n count v w e h k q = (
    record r1 { length = r1.length + count },
    ap (λ (p : ℕ × RingBuffer A). enqueue_unallocated p.1 count) q ∙ rw room_left refl,
    contents-enqueue r r1 input n count v w e h k,
    record {
      length_in = omega (arith, w.room, w.same_length);
      read_in = omega (arith, v.read_in, w.room, w.same_read);
    },
  )
    where
      room_left : leb count (window r1) ≡ true
      room_left = le→leb _ _ (omega (arith, w.room, w.same_length))

  -- In a well-formed buffer, writing data right behind the contents that is not longer than the
  -- window, and enqueueing a prefix of it, does not panic, appends that prefix to the contents, and
  -- leaves the buffer well-formed.
  pub contents-write_then_enqueue :
      (r : RingBuffer A) (input : List A) (count : ℕ)
      → IsValid r
      → count ≤ length input
      → length input ≤ window r
      → (r' : RingBuffer A) × (enqueue_unallocated (write_unallocated r 0 input).1 count ≡ some r')
        × (contents r' ≡ contents r ++ take count input)
        × IsValid r'
  contents-write_then_enqueue r input count v h k =
      let (r1, e, w) = write_unallocated-WroteAt r 0 input v in
      enqueue_written r r1 input _ count v w (omega arith) h k e

  -- In a well-formed buffer, `read_allocated` reads as much of the contents as there is behind the
  -- offset, up to the size asked for, and nothing if the offset lies behind the contents.
  pub read_allocated_lem :
      (r : RingBuffer A) (offset size : ℕ)
      → IsValid r
      → read_allocated r offset size
        ≡ (min size (r.length - offset), slice (contents r) offset (min size (r.length - offset)))
  read_allocated_lem r offset size v = elim (Bool-cases (ltb r.length offset)) [
    | inr f ↦ read_allocated_inside r offset size v (ground arith)
    | inl t ↦
        let beyond : r.length < offset = ground arith in
        let none_left : 0 ≡ min size (r.length - offset) = omega arith in
        read_allocated_beyond r offset size beyond
        ∙ ap (λ n. (n, slice (contents r) offset n)) none_left
  ]
