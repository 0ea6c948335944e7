-- ===== src/Storage/PacketBuffer/Enqueue.antt =====
-- storage/packet_buffer.rs: `enqueue`, as appending to the two queues.
use smoltcp.Prelude.{
  ℕ, zero, suc, ◌+◌, ◌≤◌, ◌<◌, ◌≡◌, refl, ap, sym, ◌∙◌, min, true, false, none, some, List, [], ◌∷◌,
  ◌++◌, ltb, leb, ◌==◌, ok, get_elem?, set, length, take, drop, arith, length-take, length-drop,
  le→leb,
}
use smoltcp.Prelude.Slices.{
  overwrite, slice, length-overwrite, take-overwrite_exact, take-overwrite_before,
  overwrite-overwrite, take-take,
}
use smoltcp.Storage.RingBuffer.{
  RingBuffer, capacity, window, get_idx, get_idx_unchecked, rewind_empty, contiguous_window,
  enqueue_one_with, enqueue_one, enqueue_many_with, write_chunk, enqueue_many,
}
use smoltcp.Storage.RingBuffer.Order.{
  IsValid, order, contents, get_idx_cases, order-overwrite, length-order,
}
use smoltcp.Storage.RingBuffer.Enqueue.{append_chunk, append_chunk-IsValid, contents-append_chunk}

module _ {A : Type 0} where
  set-overwrite : (xs : List A) (i : ℕ) (x : A) → set xs i x ≡ overwrite xs i (x ∷ [])
  set-overwrite [] i x = refl
  set-overwrite (y ∷ []) zero x = refl
  set-overwrite (y ∷ z ∷ xs) zero x = refl
  set-overwrite (y ∷ xs) (suc i) x = ap (λ t. y ∷ t) (set-overwrite xs i x)

  get_elem?-within : (xs : List A) (i : ℕ) → i < length xs → (x : A) × (get_elem? xs i ≡ some x)
  get_elem?-within [] i h = absurd (omega arith)
  get_elem?-within (x ∷ xs) zero h = (x, refl)
  get_elem?-within (x ∷ xs) (suc i) h = get_elem?-within xs i (omega arith)

  -- An element is appended, where there is room.
  pub enqueue_one_lem :
      (x : A) (r : RingBuffer A)
      → IsValid r
      → 0 < window r
      → (r' : RingBuffer A) × (enqueue_one x r ≡ some (ok (ok tt), r'))
        × (contents r' ≡ contents r ++ (x ∷ []))
        × IsValid r'
        × (capacity r' ≡ capacity r)
  unfolding enqueue_one enqueue_one_with
  enqueue_one_lem x r v room =
      let some_room : (window r == 0) ≡ false = ground arith in
      let positive : ltb 0 (capacity r) ≡ true = ground arith in
      let same : get_idx r r.length ≡ get_idx_unchecked r r.length = rw positive refl in
      let at = get_idx_cases r r.length v v.length_in in
      let (old, found) =
        get_elem?-within r.storage (get_idx_unchecked r r.length)
          (omega (arith, v.length_in, v.read_in)) in
      (
        append_chunk r (x ∷ []),
        rw (some_room, found)
            (ap
              (λ storage. some (ok (ok tt), record r { storage = storage; length = r.length + 1 }))
              (set-overwrite r.storage (get_idx_unchecked r r.length) x
                ∙ ap (λ i. overwrite r.storage i (x ∷ [])) (sym same))),
        contents-append_chunk r (x ∷ []) v (omega (arith, v.length_in, v.read_in)),
        append_chunk-IsValid r (x ∷ []) v (omega (arith, v.length_in, v.read_in)),
        length-overwrite r.storage (get_idx r r.length) (x ∷ []),
      )

  pub length-append : (xs ys : List A) → length (xs ++ ys) ≡ length xs + length ys
  length-append [] ys = omega arith
  length-append (x ∷ xs) ys = let ih = length-append xs ys in omega arith

  -- The two parts of a chunk, of which the first is counted.
  contents-counted :
      (r : RingBuffer A) (ys zs : List A)
      → IsValid r
      → length (ys ++ zs) ≤ contiguous_window r
      → contents (record r {
        storage = overwrite r.storage (get_idx r r.length) (ys ++ zs);
        length = r.length + length ys;
      })
        ≡ contents r ++ ys
  contents-counted r ys zs v h =
      let both = length-append ys zs in
      let at = get_idx_cases r r.length v v.length_in in
      let k = r.length + length ys in
      ap (take k) (
        order-overwrite r r.length (ys ++ zs) v (omega (arith, v.length_in))
          (omega (arith, v.length_in))
        ∙ sym (overwrite-overwrite (order r) r.length k ys zs refl))
      ∙ take-overwrite_before k k (overwrite (order r) r.length ys) zs (omega arith)
      ∙ take-overwrite_exact r.length k (order r) ys refl
          (omega (arith, length-order r, v.length_in))

  -- What fits in one piece is appended; a ring that is empty has been cleared before.
  pub enqueue_many_lem :
      (fill : List A → List A) (size : ℕ) (r : RingBuffer A)
      → ((buf : List A) → length (fill buf) ≡ length buf)
      → IsValid r
      → rewind_empty r ≡ r
      → size ≤ contiguous_window r
      → (r' : RingBuffer A) × (octets : List A) × (enqueue_many fill size r ≡ some (size, r'))
        × (octets ≡ fill (slice r.storage (get_idx r r.length) size))
        × (contents r' ≡ contents r ++ octets)
        × (length octets ≡ size)
        × IsValid r'
        × (capacity r' ≡ capacity r)
        × (r'.length ≡ r.length + size)
        × (r'.read_at ≡ r.read_at)
  unfolding enqueue_many enqueue_many_with write_chunk
  enqueue_many_lem fill size r same_length v rewound fits =
      let at = get_idx_cases r r.length v v.length_in in
      let buf = slice r.storage (get_idx r r.length) (contiguous_window r) in
      let l1 = length-take (contiguous_window r) (drop (get_idx r r.length) r.storage) in
      let l2 = length-drop (get_idx r r.length) r.storage in
      let long : length buf ≡ contiguous_window r = omega (arith, l1, l2, v.length_in, v.read_in) in
      let n = min size (length buf) in
      let e : n ≡ size = omega arith in
      let ys = fill (take n buf) in
      let zs = drop n buf in
      let l3 = length-take n buf in
      let l4 = length-drop n buf in
      let l5 = same_length (take n buf) in
      let counted : length ys ≡ n = omega arith in
      let whole = length-append ys zs in
      let room : leb n (contiguous_window r) ≡ true =
        le→leb n (contiguous_window r) (omega arith) in
      let storage = overwrite r.storage (get_idx r r.length) (ys ++ zs) in
      let r' : RingBuffer A = record r { storage = storage; length = r.length + n } in
      (
        r',
        ys,
        ap
              (λ q.
                elim (write_chunk
                  (λ b. let k = min size (length b) in (fill (take k b) ++ drop k b, k, k)) q) [
                    | none ↦ none
                    | some (_, k, q') ↦ some (k, q')
                  ])
              rewound
            ∙ rw room refl
            ∙ ap (λ k. some (k, r')) e,
        ap fill (
            take-take n (contiguous_window r) (drop (get_idx r r.length) r.storage)
            ∙ ap (λ k. take k (drop (get_idx r r.length) r.storage)) (omega arith)),
        ap (λ l. contents (record r { storage = storage; length = l })) {x = r.length + n}
              (omega arith)
            ∙ contents-counted r ys zs v (omega arith),
        omega arith,
        record {
          length_in =
              omega
                (arith, v.length_in, length-overwrite r.storage (get_idx r r.length) (ys ++ zs));
          read_in =
              omega (arith, v.read_in, length-overwrite r.storage (get_idx r r.length) (ys ++ zs));
        },
        length-overwrite r.storage (get_idx r r.length) (ys ++ zs),
        ap (λ k. r.length + k) e,
        refl,
      )
