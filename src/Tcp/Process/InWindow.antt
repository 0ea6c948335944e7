-- ===== src/Tcp/Process/InWindow.antt =====
-- `Socket::process`: the part of a payload that is accepted lies in the receive window.
use smoltcp.Prelude.{
  ℕ, ◌+◌, ◌-◌, ◌%◌, ◌^◌, ◌≤◌, ◌<◌, ◌≡◌, refl, inl, inr, ◌⊎◌, true, false, ◌&&◌, leb, ◌==◌, arith,
  Bool-cases, some, List, length, drop, length-take, length-drop, ap, sym,
}
use smoltcp.Prelude.Slices.{slice}
use smoltcp.Wire.SeqNumber.{
  SeqNumber, wrapping_sub, seq_lt, seq_le, seq_gt, seq_max, seq_min, distance, sub,
}
use smoltcp.Tcp.Process.AckRange.{not_gt}
use smoltcp.Tcp.Process.Window.{Segment, segment_in_window, payload_slice, overlap}

-- What `segment_in_window` finds: a segment that starts in the window, one that ends in it, or an empty one at a window of
-- no octets.
InWindow : SeqNumber → SeqNumber → SeqNumber → SeqNumber → Type 0
InWindow ws we ss se =
    ((ws == we) ≡ false) × (seq_le ws ss ≡ true) × (seq_lt ss we ≡ true)
    ⊎ ((ws == we) ≡ false) × (seq_lt ws se ≡ true) × (seq_le se we ≡ true)
    ⊎ (ws ≡ we) × (ss ≡ se) × (ws ≡ ss)

segment_in_window-InWindow :
    (ws we ss se : SeqNumber) → segment_in_window ws we ss se ≡ some true → InWindow ws we ss se
unfolding segment_in_window sub InWindow
segment_in_window-InWindow ws we ss se h = elim (Bool-cases (ws == we)) [
  | inl e ↦ inr (inr (ground arith, ground arith, ground arith))
  | inr e ↦ elim (Bool-cases (seq_le ws ss && seq_lt ss we)) [
    | inl a ↦ inl (e, ground arith, ground arith)
    | inr a ↦ inr (inl (e, ground arith, ground arith))
  ]
]

-- The distances that `overlap` computes, for the start and the end of the overlap: the same sequence
-- number seen from the segment and from the window, and what is cut lies outside the window.
abbrev Fits : ℕ → ℕ → SeqNumber → SeqNumber → SeqNumber → SeqNumber → Type 0
Fits w n ws ss os oe =
    (wrapping_sub os ss < 2 ^ 31)
    × (wrapping_sub oe ss < 2 ^ 31)
    × (wrapping_sub os ws < 2 ^ 31)
    × (wrapping_sub os ss ≤ wrapping_sub oe ss)
    × (wrapping_sub oe ss ≤ n)
    × (wrapping_sub os ws + (wrapping_sub oe ss - wrapping_sub os ss) ≤ w)
    × ((ss + wrapping_sub os ss) % 2 ^ 32 ≡ (ws + wrapping_sub os ws) % 2 ^ 32)
    × ((wrapping_sub os ss ≡ 0) ⊎ (wrapping_sub os ws ≡ 0))
    × ((wrapping_sub oe ss ≡ n)
        ⊎ (wrapping_sub os ws + (wrapping_sub oe ss - wrapping_sub os ss) ≡ w))

module _ (w n : ℕ) (ws ss : SeqNumber) (hws : ws < 2 ^ 32) (hss : ss < 2 ^ 32) (hw : w < 2 ^ 30)
    (hn : n < 2 ^ 30) where
  starts_inside :
      (wrapping_sub ss ws < w)
      → Fits w n ws ss (seq_max ws ss) (seq_min ((ws + w) % 2 ^ 32) ((ss + n) % 2 ^ 32))
  starts_inside h = elim (Bool-cases (seq_gt ws ss)) [
    | inl g ↦ absurd (ground arith)
    | inr g ↦ elim (Bool-cases (seq_lt ((ws + w) % 2 ^ 32) ((ss + n) % 2 ^ 32))) [
      | inl l ↦
          rw (g, l)
            (let l' : 2 ^ 31 ≤ wrapping_sub ((ws + w) % 2 ^ 32) ((ss + n) % 2 ^ 32) =
                ground arith in
              (
                omega arith,
                omega arith,
                omega arith,
                omega arith,
                omega arith,
                omega arith,
                omega arith,
                inl (omega arith),
                inr (omega arith),
              ))
      | inr l ↦
          rw (g, l)
            (let l' : wrapping_sub ((ws + w) % 2 ^ 32) ((ss + n) % 2 ^ 32) < 2 ^ 31 =
                ground arith in
              (
                omega arith,
                omega arith,
                omega arith,
                omega arith,
                omega arith,
                omega arith,
                omega arith,
                inl (omega arith),
                inl (omega arith),
              ))
    ]
  ]

  ends_inside :
      (0 < wrapping_sub ((ss + n) % 2 ^ 32) ws)
      → (wrapping_sub ((ss + n) % 2 ^ 32) ws ≤ w)
      → Fits w n ws ss (seq_max ws ss) (seq_min ((ws + w) % 2 ^ 32) ((ss + n) % 2 ^ 32))
  ends_inside p h = elim (Bool-cases (seq_lt ((ws + w) % 2 ^ 32) ((ss + n) % 2 ^ 32))) [
    | inl l ↦ absurd (ground arith)
    | inr l ↦ elim (Bool-cases (seq_gt ws ss)) [
      | inl g ↦
          rw (g, l)
            (let g' : wrapping_sub ws ss < 2 ^ 31 = ground arith in
              (
                omega arith,
                omega arith,
                omega arith,
                omega arith,
                omega arith,
                omega arith,
                omega arith,
                inr (omega arith),
                inl (omega arith),
              ))
      | inr g ↦
          rw (g, l)
            (let g' : (wrapping_sub ws ss ≡ 0) ⊎ (2 ^ 31 ≤ wrapping_sub ws ss) = not_gt ws ss g in
              (elim g' [
                | inl z ↦ (
                  omega arith,
                  omega arith,
                  omega arith,
                  omega arith,
                  omega arith,
                  omega arith,
                  omega arith,
                  inl (omega arith),
                  inl (omega arith),
                )
                | inr z ↦ (
                  omega arith,
                  omega arith,
                  omega arith,
                  omega arith,
                  omega arith,
                  omega arith,
                  omega arith,
                  inl (omega arith),
                  inl (omega arith),
                )
              ]))
    ]
  ]

  some_room : (ws == (ws + w) % 2 ^ 32) ≡ false → 0 < w
  some_room e = elim (Bool-cases (w == 0)) [ inl z ↦ absurd (ground arith) | inr z ↦ ground arith ]

  before_end :
      (seq : SeqNumber)
      → (ws == (ws + w) % 2 ^ 32) ≡ false
      → seq_le ws seq ≡ true
      → seq_lt seq ((ws + w) % 2 ^ 32) ≡ true
      → seq < 2 ^ 32
      → wrapping_sub seq ws < w
  before_end seq e a b c =
      let room = some_room e in
      let b' : 2 ^ 31 ≤ wrapping_sub seq ((ws + w) % 2 ^ 32) = ground arith in
      elim (Bool-cases (wrapping_sub ws seq == 0)) [
        | inl z ↦ let z' : wrapping_sub ws seq ≡ 0 = ground arith in omega arith
        | inr z ↦ let z' : 2 ^ 31 ≤ wrapping_sub ws seq = ground arith in omega arith
      ]

  up_to_end :
      (seq : SeqNumber)
      → (ws == (ws + w) % 2 ^ 32) ≡ false
      → seq_lt ws seq ≡ true
      → seq_le seq ((ws + w) % 2 ^ 32) ≡ true
      → seq < 2 ^ 32
      → (0 < wrapping_sub seq ws) × (wrapping_sub seq ws ≤ w)
  up_to_end seq e a b c =
      let room = some_room e in
      let a' : 2 ^ 31 ≤ wrapping_sub ws seq = ground arith in
      elim (Bool-cases (wrapping_sub seq ((ws + w) % 2 ^ 32) == 0)) [
        | inl z ↦
            let z' : wrapping_sub seq ((ws + w) % 2 ^ 32) ≡ 0 = ground arith in
            (omega arith, omega arith)
        | inr z ↦
            let z' : 2 ^ 31 ≤ wrapping_sub seq ((ws + w) % 2 ^ 32) = ground arith in
            (omega arith, omega arith)
      ]

  Fits-InWindow :
      InWindow ws ((ws + w) % 2 ^ 32) ss ((ss + n) % 2 ^ 32)
      → Fits w n ws ss (seq_max ws ss) (seq_min ((ws + w) % 2 ^ 32) ((ss + n) % 2 ^ 32))
  unfolding InWindow
  Fits-InWindow (inl (e, a, b)) = starts_inside (before_end ss e a b hss)
  Fits-InWindow (inr (inl (e, a, b))) =
      let (p, q) = up_to_end ((ss + n) % 2 ^ 32) e a b (omega arith) in ends_inside p q
  Fits-InWindow (inr (inr (a, b, c))) = elim (Bool-cases (seq_gt ws ss)) [
    | inl g ↦ absurd (ground arith)
    | inr g ↦ elim (Bool-cases (seq_lt ((ws + w) % 2 ^ 32) ((ss + n) % 2 ^ 32))) [
      | inl l ↦ absurd (ground arith)
      | inr l ↦
          rw (g, l)
            (
              omega arith,
              omega arith,
              omega arith,
              omega arith,
              omega arith,
              omega arith,
              omega arith,
              inl (omega arith),
              inl (omega arith),
            )
    ]
  ]

distance_lem :
    (a b : SeqNumber) → wrapping_sub a b < 2 ^ 31 → distance a b ≡ some (wrapping_sub a b)
unfolding distance
distance_lem a b h =
    let near : leb (2 ^ 31) (wrapping_sub a b) ≡ false = ground arith in rw near refl

payload_slice_lem :
    (payload : List ℕ) (from to : ℕ)
    → from ≤ to
    → to ≤ length payload
    → payload_slice payload from to ≡ some (slice payload from (to - from))
unfolding payload_slice
payload_slice_lem payload from to h k =
    let inside : (leb from to && leb to (length payload)) ≡ true = ground arith in rw inside refl

length-slice : (xs : List ℕ) (at n : ℕ) → at + n ≤ length xs → length (slice xs at n) ≡ n
length-slice xs at n h = omega (arith, length-take n (drop at xs), length-drop at xs)

-- What is kept of a payload of a segment that starts at `ss`, for a window of `w` octets that starts
-- at `ws`: the octets from `from` on, which lie in the window at the place that their sequence number
-- gives. Octets before them are only cut where the window starts behind them, and octets after them
-- where it ends.
pub record Overlaps (payload : List ℕ) (w : ℕ) (ws ss : SeqNumber) (part : List ℕ) (offset : ℕ)
    : Type 0 where
  pub from : ℕ
  pub octets : part ≡ slice payload from (length part)
  pub inside_payload : from + length part ≤ length payload
  pub inside_window : offset + length part ≤ w
  pub place : (ss + from) % 2 ^ 32 ≡ (ws + offset) % 2 ^ 32
  pub from_start : (from ≡ 0) ⊎ (offset ≡ 0)
  pub to_end : (from + length part ≡ length payload) ⊎ (offset + length part ≡ w)

-- For a window that starts at a sequence number below 2 ^ 32 and is shorter than 2 ^ 30 octets, and a
-- segment for which the same holds: if the segment is found to be in the window, the computation of
-- the overlap does not panic, and keeps exactly the octets of the payload that lie in the window, at
-- their place in it; it reports whether the segment starts where the window does.
pub overlap-in_window :
    (payload : List ℕ) (w : ℕ) (ws ss : SeqNumber)
    → ws < 2 ^ 32
    → ss < 2 ^ 32
    → w < 2 ^ 30
    → length payload < 2 ^ 30
    → segment_in_window ws ((ws + w) % 2 ^ 32) ss ((ss + length payload) % 2 ^ 32) ≡ some true
    → (part : List ℕ) × (offset : ℕ) × (overlap payload ws
          ((ws + w) % 2 ^ 32)
          ss
          ((ss + length payload) % 2 ^ 32)
        ≡ some (Segment.inside part offset (ws == ss)))
      × Overlaps payload w ws ss part offset
unfolding overlap
overlap-in_window payload w ws ss a b c d h =
    let we = (ws + w) % 2 ^ 32 in
    let se = (ss + length payload) % 2 ^ 32 in
    let os = seq_max ws ss in
    let oe = seq_min we se in
    let (f, g, i, j, k, l, m, o, p) =
      Fits-InWindow w (length payload) ws ss a b c d (segment_in_window-InWindow ws we ss se h) in
    let size = wrapping_sub oe ss - wrapping_sub os ss in
    let e = length-slice payload (wrapping_sub os ss) size (omega arith) in
    (
      slice payload (wrapping_sub os ss) size,
      wrapping_sub os ws,
      rw
          (
            distance_lem os ss f,
            distance_lem oe ss g,
            payload_slice_lem payload _ _ j k,
            distance_lem os ws i,
          )
          refl,
      record {
        from = wrapping_sub os ss;
        octets = ap (slice payload (wrapping_sub os ss)) (sym e);
        inside_payload = omega arith;
        inside_window = omega arith;
        place = m;
        from_start = o;
        to_end = elim p [ inl q ↦ inl (omega arith) | inr q ↦ inr (omega arith) ];
      },
    )
