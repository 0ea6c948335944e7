-- ===== src/Storage/RingBuffer/RandomAccess/Writing.antt =====
-- Random access: what `write_unallocated` writes, on both sides of the window's end.
use smoltcp.Prelude.{
  ℕ, ◌+◌, ◌-◌, ◌≤◌, ◌<◌, ◌≡◌, refl, ap, sym, ◌∙◌, subst, min, true, List, ltb, length, take, drop,
  arith, length-take, length-drop,
}
use smoltcp.Prelude.Slices.{
  overwrite, overwrite-nil, length-overwrite, overwrite-overwrite, take-add,
}
use smoltcp.Storage.RingBuffer.{
  RingBuffer, capacity, window, get_idx, get_unallocated, write_once, write_unallocated,
}
use smoltcp.Storage.RingBuffer.Order.{IsValid, order, get_idx_cases, order-overwrite}

module _ {ℓ} {A : Type ℓ} where
  -- What one of the copies of `write_unallocated` did at an offset.
  pub record WroteAt (r : RingBuffer A) (offset : ℕ) (input : List A) (n : ℕ) (r' : RingBuffer A)
      : Type ℓ where
    pub same_length : r'.length ≡ r.length
    pub same_read : r'.read_at ≡ r.read_at
    pub room : capacity r' ≡ capacity r
    pub written : order r' ≡ overwrite (order r) (r.length + offset) (take n input)

  -- How much fits at an offset.
  fits : RingBuffer A → ℕ → ℕ → ℕ
  fits r offset size =
      min (min size (window r - offset)) (capacity r - get_idx r (r.length + offset))

  get_unallocated_lem :
      (r : RingBuffer A) (offset size : ℕ)
      → offset ≤ window r
      → get_unallocated r offset size ≡ (get_idx r (r.length + offset), fits r offset size)
  unfolding fits
  get_unallocated_lem r offset size h = ground arith

  write_once-WroteAt :
      (r : RingBuffer A) (offset : ℕ) (input : List A)
      → IsValid r
      → offset ≤ window r
      → (r' : RingBuffer A) × (write_once r offset input ≡ (fits r offset (length input), r'))
        × WroteAt r offset input (fits r offset (length input)) r'
  unfolding fits
  write_once-WroteAt r offset input v h = (
    r',
    ap (λ (p : ℕ × ℕ). (p.1, record r { storage = overwrite r.storage p.0 (take p.1 input) }))
        (get_unallocated_lem r offset (length input) h),
    record {
      same_length = refl;
      same_read = refl;
      room = length-overwrite r.storage (get_idx r at) (take n input);
      written = order-overwrite r at (take n input) v in_window in_storage;
    },
  )
    where
      at : ℕ
      at = r.length + offset

      n : ℕ
      n = fits r offset (length input)

      r' : RingBuffer A
      r' = record r { storage = overwrite r.storage (get_idx r at) (take n input) }

      in_window : at + length (take n input) ≤ capacity r
      in_window = omega (arith, v.length_in, length-take (fits r offset (length input)) input)

      in_storage : get_idx r at + length (take n input) ≤ capacity r
      in_storage = omega (
        arith,
        v.length_in,
        v.read_in,
        get_idx_cases r (r.length + offset) v (omega (arith, v.length_in)),
        length-take (fits r offset (length input)) input,
      )

  pub WroteAt-IsValid :
      {r : RingBuffer A} {offset : ℕ} {input : List A} {n : ℕ} {r' : RingBuffer A}
      → WroteAt r offset input n r'
      → IsValid r
      → IsValid r'
  WroteAt-IsValid w v = record {
    length_in = omega (arith, v.length_in, w.room, w.same_length);
    read_in = omega (arith, v.read_in, w.room, w.same_read);
  }

  module _ (r : RingBuffer A) (offset : ℕ) (input : List A) (v : IsValid r) (h : offset ≤ window r)
      (n1 : ℕ) (e1 : n1 ≡ fits r offset (length input)) (r1 : RingBuffer A)
      (w1 : WroteAt r offset input n1 r1) where
    second_offset : offset + n1 ≤ window r1
    unfolding fits
    second_offset = omega (arith, v.length_in, w1.room, w1.same_length, e1)

    written_total :
        n1 + fits r1 (offset + n1) (length (drop n1 input)) ≡ min (length input) (window r - offset)
    unfolding fits
    written_total = omega (
      arith,
      v.length_in,
      v.read_in,
      w1.room,
      w1.same_length,
      w1.same_read,
      e1,
      length-drop n1 input,
      get_idx_cases r (r.length + offset) v (omega (arith, v.length_in)),
      get_idx_cases r1 (r1.length + (offset + n1)) (WroteAt-IsValid w1 v)
          (omega (arith, v.length_in, w1.room, w1.same_length, e1)),
    )

    WroteAt-twice :
        (n2 : ℕ) (r2 : RingBuffer A)
        → WroteAt r1 (offset + n1) (drop n1 input) n2 r2
        → WroteAt r offset input (n1 + n2) r2
    unfolding fits
    WroteAt-twice n2 r2 w2 = record {
      same_length = w2.same_length ∙ w1.same_length;
      same_read = w2.same_read ∙ w1.same_read;
      room = w2.room ∙ w1.room;
      written =
          w2.written
          ∙ ap (λ t. overwrite t (r1.length + (offset + n1)) (take n2 (drop n1 input))) w1.written
          ∙ overwrite-overwrite (order r) (r.length + offset) (r1.length + (offset + n1))
              (take n1 input) (take n2 (drop n1 input))
              (omega (arith, w1.same_length, e1, length-take n1 input))
          ∙ ap (overwrite (order r) (r.length + offset)) (take-add n1 n2 (n1 + n2) input refl);
    }

  both :
      (r : RingBuffer A) (offset : ℕ) (input : List A) (n1 : ℕ) (r1 r2 : RingBuffer A) (n2 : ℕ)
      → write_once r offset input ≡ (n1, r1)
      → write_once r1 (offset + n1) (drop n1 input) ≡ (n2, r2)
      → write_unallocated r offset input ≡ (n1 + n2, r2)
  unfolding write_unallocated
  both r offset input n1 r1 r2 n2 e1 e2 =
      ap
        (λ (p : ℕ × RingBuffer A).
          let (size_2, r2) = write_once p.1 (offset + p.0) (drop p.0 input) in (p.0 + size_2, r2))
        e1
      ∙ ap (λ (p : ℕ × RingBuffer A). (n1 + p.0, p.1)) e2

  pub write_unallocated_inside :
      (r : RingBuffer A) (offset : ℕ) (input : List A)
      → IsValid r
      → offset ≤ window r
      → (r' : RingBuffer A) × (write_unallocated r offset input
          ≡ (min (length input) (window r - offset), r'))
        × WroteAt r offset input (min (length input) (window r - offset)) r'
  unfolding write_unallocated
  write_unallocated_inside r offset input v h =
      let n1 = fits r offset (length input) in
      let (r1, e1, w1) = write_once-WroteAt r offset input v h in
      let v1 = WroteAt-IsValid w1 v in
      let (r2, e2, w2) =
        write_once-WroteAt r1 (offset + n1) (drop n1 input) v1
          (second_offset r offset input v h n1 refl r1 w1) in
      let total = written_total r offset input v h n1 refl r1 w1 in
      (
        r2,
        both r offset input n1 r1 r2 _ e1 e2 ∙ ap (λ t. (t, r2)) total,
        subst (λ n. WroteAt r offset input n r2) total
            (WroteAt-twice r offset input v h n1 refl r1 w1 _ r2 w2),
      )

  -- Behind the window nothing is written.
  write_once_beyond :
      (r : RingBuffer A) (offset : ℕ) (input : List A)
      → window r < offset
      → write_once r offset input ≡ (0, r)
  write_once_beyond r offset input h =
      let beyond : ltb (window r) offset ≡ true = ground arith in
      rw beyond (ap (λ t. (0, record r { storage = t })) (overwrite-nil r.storage 0))

  pub write_unallocated_beyond :
      (r : RingBuffer A) (offset : ℕ) (input : List A)
      → window r < offset
      → write_unallocated r offset input ≡ (0, r)
  write_unallocated_beyond r offset input h =
      both r offset input 0 r r 0 (write_once_beyond r offset input h)
        (write_once_beyond r (offset + 0) (drop 0 input) (omega arith))

  pub WroteAt-nothing :
      (r : RingBuffer A) (offset : ℕ) (input : List A) → WroteAt r offset input 0 r
  WroteAt-nothing r offset input = record {
    same_length = refl;
    same_read = refl;
    room = refl;
    written = sym (overwrite-nil (order r) (r.length + offset));
  }
