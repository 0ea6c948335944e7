-- ===== src/Storage/PacketBuffer/Fifo.antt =====
-- storage/packet_buffer.rs: the queue of packets that the two rings hold.
use smoltcp.Prelude.{
  ℕ, zero, suc, ◌+◌, ◌-◌, ◌≤◌, ◌<◌, ◌≡◌, refl, ap, sym, ◌∙◌, inl, inr, true, ◌||◌, Option, none,
  some, List, [], ◌∷◌, ◌++◌, ltb, ◌==◌, Result, ok, err, Checked, length, take, drop, arith,
  append-nil, Bool-cases,
}
use smoltcp.Prelude.Slices.{slice, take_all, take-append_within, drop-append_within}
use smoltcp.Storage.RingBuffer.{
  RingBuffer, Full, full, capacity, window, get_idx, rewind_empty, contiguous_window, enqueue_one,
  enqueue_one_with, clear,
}
use smoltcp.Storage.RingBuffer.Order.{IsValid, order, contents, get_idx_cases}
use smoltcp.Storage.PacketBuffer.{
  PacketMetadata, PacketBuffer, padding, packet, clear_if_empty, describe, put, pad_and_put, place,
  enqueue,
}
use smoltcp.Storage.PacketBuffer.Enqueue.{enqueue_one_lem, enqueue_many_lem, length-append}

length-drop_lem : (k : ℕ) (xs : List ℕ) → length (drop k xs) ≡ length xs - k
length-drop_lem zero xs = omega arith
length-drop_lem (suc k) [] = omega arith
length-drop_lem (suc k) (x ∷ xs) = let ih = length-drop_lem k xs in omega arith

-- An empty ring has been rewound.
abbrev Rewound : RingBuffer ℕ → Type 0
Rewound r = r.length ≡ 0 → r.read_at ≡ 0

rewind_empty_lem : (r : RingBuffer ℕ) → Rewound r → rewind_empty r ≡ r
rewind_empty_lem r h = elim (Bool-cases (r.length == 0)) [
  | inl t ↦ rw t (ap (λ k. record r { read_at = k }) (sym (h (ground arith))))
  | inr f ↦ rw f refl
]

module _ {H : Type 0} where
  -- The packets that some descriptions and octets spell; padding is skipped.
  abbrev with_header : Option H → List ℕ → List (H × List ℕ) → List (H × List ℕ)
  with_header none octets rest = rest
  with_header (some header) octets rest = (header, octets) ∷ rest

  abbrev pub packets : List (PacketMetadata H) → List ℕ → List (H × List ℕ)
  packets [] octets = []
  packets (m ∷ ms) octets =
      with_header m.header (take m.size octets) (packets ms (drop m.size octets))

  abbrev pub total_size : List (PacketMetadata H) → ℕ
  total_size [] = 0
  total_size (m ∷ ms) = m.size + total_size ms

  abbrev pub queue : PacketBuffer H → List (H × List ℕ)
  queue b = packets (contents b.metadata_ring) (contents b.payload_ring)

  -- The descriptions account for all octets.
  pub record IsBuffer (b : PacketBuffer H) : Type 0 where
    pub metadata_lem : IsValid b.metadata_ring
    pub payload_lem : IsValid b.payload_ring
    pub accounted : total_size (contents b.metadata_ring) ≡ length (contents b.payload_ring)

  with_header-append :
      (o : Option H) (octets : List ℕ) (xs ys : List (H × List ℕ))
      → with_header o octets (xs ++ ys) ≡ with_header o octets xs ++ ys
  with_header-append none octets xs ys = refl
  with_header-append (some h) octets xs ys = refl

  packets-append :
      (ms ns : List (PacketMetadata H)) (octets more : List ℕ)
      → total_size ms ≡ length octets
      → packets (ms ++ ns) (octets ++ more) ≡ packets ms octets ++ packets ns more
  packets-append [] ns [] more h = refl
  packets-append [] ns (x ∷ octets) more h = absurd (omega arith)
  packets-append (m ∷ ms) ns octets more h =
      let l = length-drop_lem m.size octets in
      let ih = packets-append ms ns (drop m.size octets) more (omega arith) in
      ap (λ t. with_header m.header t (packets (ms ++ ns) (drop m.size (octets ++ more))))
        (take-append_within m.size octets more (omega arith))
      ∙ ap (λ t. with_header m.header (take m.size octets) (packets (ms ++ ns) t))
          (drop-append_within m.size octets more (omega arith))
      ∙ ap (with_header m.header (take m.size octets)) ih
      ∙ with_header-append m.header (take m.size octets) (packets ms (drop m.size octets))
          (packets ns more)

  total_size-append :
      (ms ns : List (PacketMetadata H)) → total_size (ms ++ ns) ≡ total_size ms + total_size ns
  total_size-append [] ns = omega arith
  total_size-append (m ∷ ms) ns = let ih = total_size-append ms ns in omega arith

  -- What a call of `enqueue` comes to: the packet is the last, or the buffer is full and has the
  -- packets that it had.
  pub data Enqueued (fill : List ℕ → List ℕ) (size : ℕ) (header : H) (b : PacketBuffer H)
      : Result Full (Unit {0}) → PacketBuffer H → Type 0 where
    queued :
        {b' : PacketBuffer H} (buf : List ℕ)
        → length (fill buf) ≡ size
        → queue b' ≡ queue b ++ ((header, fill buf) ∷ [])
        → Enqueued fill size header b (ok tt) b'
    refused : {b' : PacketBuffer H} → queue b' ≡ queue b → Enqueued fill size header b (err full) b'

  onto :
      {fill : List ℕ → List ℕ} {size : ℕ} {header : H} (b b1 : PacketBuffer H)
      {r : Result Full (Unit {0})} {b' : PacketBuffer H}
      → queue b1 ≡ queue b
      → Enqueued fill size header b1 r b'
      → Enqueued fill size header b r b'
  onto {fill} {size} {header} b b1 q (Enqueued.queued buf n e) =
      Enqueued.queued buf n (e ∙ ap (λ t. t ++ ((header, fill buf) ∷ [])) q)
  onto b b1 q (Enqueued.refused e) = Enqueued.refused (e ∙ q)

  enqueue_one-full :
      (m : PacketMetadata H) (r : RingBuffer (PacketMetadata H))
      → (window r == 0) ≡ true
      → enqueue_one m r ≡ some (err full, r)
  unfolding enqueue_one enqueue_one_with
  enqueue_one-full m r t = rw t refl

  -- A description and its octets are added.
  added :
      (b b' : PacketBuffer H) (m : PacketMetadata H) (more : List ℕ)
      → IsBuffer b
      → IsValid b'.metadata_ring
      → IsValid b'.payload_ring
      → contents b'.metadata_ring ≡ contents b.metadata_ring ++ (m ∷ [])
      → contents b'.payload_ring ≡ contents b.payload_ring ++ more
      → length more ≡ m.size
      → IsBuffer b' × (queue b' ≡ queue b ++ packets (m ∷ []) more)
  added b b' m more v vm vp em ep n =
      let t = total_size-append (contents b.metadata_ring) (m ∷ []) in
      let l = length-append (contents b.payload_ring) more in
      let a = v.accounted in
      let t' : total_size (contents b'.metadata_ring)
          ≡ total_size (contents b.metadata_ring ++ (m ∷ [])) =
        ap total_size em in
      let l' : length (contents b'.payload_ring) ≡ length (contents b.payload_ring ++ more) =
        ap length ep in
      (
        record { metadata_lem = vm; payload_lem = vp; accounted = omega arith },
        ap (λ ms. packets ms (contents b'.payload_ring)) em
            ∙ ap (packets (contents b.metadata_ring ++ (m ∷ []))) ep
            ∙ packets-append (contents b.metadata_ring) (m ∷ []) (contents b.payload_ring) more a,
      )

  module _ (fill : List ℕ → List ℕ) (size : ℕ) (header : H)
      (same_length : (buf : List ℕ) → length (fill buf) ≡ length buf) where
    -- A call returns, and keeps the rings in step.
    Out : PacketBuffer H → Checked (Result Full (Unit {0}) × PacketBuffer H) → Type 0
    Out b result =
        (r : Result Full (Unit {0})) × (b' : PacketBuffer H) × (result ≡ some (r, b'))
        × IsBuffer b'
        × Enqueued fill size header b r b'

    put-Out :
        (b : PacketBuffer H)
        → IsBuffer b
        → Rewound b.payload_ring
        → size ≤ contiguous_window b.payload_ring
        → Out b (put fill size header b)
    unfolding put describe Out
    put-Out b v rewound fits = elim (Bool-cases (window b.metadata_ring == 0)) [
      | inl t ↦
          let no_room : enqueue_one (packet size header) b.metadata_ring
              ≡ some (err full, b.metadata_ring) =
            enqueue_one-full (packet size header) b.metadata_ring t in
          (err full, b, rw no_room refl, v, Enqueued.refused refl)
      | inr f ↦
          let (metas, em, cm, vm, km) =
            enqueue_one_lem (packet size header) b.metadata_ring v.metadata_lem (ground arith) in
          let (ring, octets, ep, eo, cp, n, vp, kp, _, _) =
            enqueue_many_lem fill size b.payload_ring same_length v.payload_lem
              (rewind_empty_lem b.payload_ring rewound) fits in
          let b' : PacketBuffer H = record { metadata_ring = metas; payload_ring = ring } in
          let (valid, q) = added b b' (packet size header) octets v vm vp cm cp n in
          let exact : (size == size) ≡ true = ground arith in
          let buf =
            slice b.payload_ring.storage (get_idx b.payload_ring b.payload_ring.length) size in
          (
            ok tt,
            b',
            rw (em, ep, exact) refl,
            valid,
            Enqueued.queued buf (sym (ap length eo) ∙ n) (
                q
                ∙ ap (λ o. queue b ++ ((header, o) ∷ []))
                    (take_all size octets (omega arith) ∙ eo)),
          )
    ]

    pad_and_put-Out :
        (b : PacketBuffer H)
        → IsBuffer b
        → Rewound b.payload_ring
        → contiguous_window b.payload_ring < size
        → size ≤ window b.payload_ring - contiguous_window b.payload_ring
        → Out b (pad_and_put fill size header (contiguous_window b.payload_ring) b)
    unfolding pad_and_put describe Out
    pad_and_put-Out b v rewound short fits = elim (Bool-cases (window b.metadata_ring == 0)) [
      | inl t ↦
          let no_room =
            enqueue_one-full (padding (contiguous_window b.payload_ring)) b.metadata_ring t in
          (err full, b, rw no_room refl, v, Enqueued.refused refl)
      | inr f ↦
          let r = b.payload_ring in
          let c = contiguous_window r in
          let (metas, em, cm, vm, km) =
            enqueue_one_lem (padding c) b.metadata_ring v.metadata_lem (ground arith) in
          let (ring, octets, ep, eo, cp, n, vp, kp, longer, read) =
            enqueue_many_lem (λ o. o) c r (λ buf. refl) v.payload_lem (rewind_empty_lem r rewound)
              (omega arith) in
          let b' : PacketBuffer H = record { metadata_ring = metas; payload_ring = ring } in
          let (valid, q) = added b b' (padding c) octets v vm vp cm cp n in
          let still : Rewound ring = λ z. read ∙ rewound (omega arith) in
          let pv = v.payload_lem in
          let before = get_idx_cases r r.length v.payload_lem pv.length_in in
          let after = get_idx_cases ring ring.length vp vp.length_in in
          let l1 = pv.length_in in
          let l2 = pv.read_in in
          let (result, b2, e, valid', done) = put-Out b' valid still (omega arith) in
          (result, b2, rw (em, ep) e, valid', onto b b' (q ∙ append-nil (queue b)) done)
    ]

    place-Out :
        (b : PacketBuffer H)
        → IsBuffer b
        → Rewound b.payload_ring
        → Out b (place fill size header b)
    unfolding place Out
    place-Out b v rewound = elim (Bool-cases (ltb (window b.payload_ring) size)) [
      | inl t ↦ (err full, b, rw t refl, v, Enqueued.refused refl)
      | inr f ↦ elim (Bool-cases (ltb (contiguous_window b.payload_ring) size)) [
        | inr g ↦
            let (r, b', e, kept, done) = put-Out b v rewound (ground arith) in
            (r, b', rw (f, g) e, kept, done)
        | inl g ↦
            elim (Bool-cases
              (ltb (window b.payload_ring - contiguous_window b.payload_ring) size)) [
                | inl t ↦ (err full, b, rw (f, g, t) refl, v, Enqueued.refused refl)
                | inr h ↦
                    let (r, b', e, kept, done) =
                      pad_and_put-Out b v rewound (ground arith) (ground arith) in
                    (r, b', rw (f, g, h) e, kept, done)
              ]
      ]
    ]

    -- A buffer whose payload ring was cleared if it was empty.
    cleared-IsBuffer :
        (b : PacketBuffer H)
        → IsBuffer b
        → IsBuffer (record b { payload_ring = clear_if_empty b.payload_ring })
          × (contents (clear_if_empty b.payload_ring) ≡ contents b.payload_ring)
          × Rewound (clear_if_empty b.payload_ring)
    unfolding clear
    cleared-IsBuffer b v = elim (Bool-cases (b.payload_ring.length == 0)) [
      | inl t ↦
          let z : b.payload_ring.length ≡ 0 = ground arith in
          let nothing : [] ≡ contents b.payload_ring =
            ap (λ k. take k (order b.payload_ring)) (sym z) in
          rw t (
            record {
              metadata_lem = v.metadata_lem;
              payload_lem = record { length_in = omega arith; read_in = omega arith };
              accounted = v.accounted ∙ ap length (sym nothing);
            },
            nothing,
            λ e. refl,
          )
      | inr f ↦ rw f (v, refl, λ e. absurd (ground (arith, e)))
    ]

    -- With a filler that keeps the length of its slice, a call of `enqueue` does not panic and keeps the descriptions in step with the octets, on every
    -- branch. Either it succeeds, and the packets in the buffer are those that it had and then the
    -- new one, or it reports that the buffer is full, and the packets are those that it had, also
    -- where it has added padding before it found that out.
    pub enqueue_lem :
        (b : PacketBuffer H)
        → IsBuffer b
        → (r : Result Full (Unit {0})) × (b' : PacketBuffer H) × (enqueue fill size header b
            ≡ some (r, b'))
          × IsBuffer b'
          × Enqueued fill size header b r b'
    unfolding enqueue Out
    enqueue_lem b v =
        elim (Bool-cases (ltb (capacity b.payload_ring) size || (window b.metadata_ring == 0))) [
          | inl t ↦ (err full, b, rw t refl, v, Enqueued.refused refl)
          | inr f ↦
              let (valid, same, rewound) = cleared-IsBuffer b v in
              let b1 : PacketBuffer H = record b { payload_ring = clear_if_empty b.payload_ring } in
              let (r, b', e, kept, done) = place-Out b1 valid rewound in
              (r, b', rw f e, kept, onto b b1 (ap (packets (contents b.metadata_ring)) same) done)
        ]
