-- ===== src/Iface/Rpl/Lollipop/Laws.antt =====
-- iface/rpl/lollipop.rs: how counters compare.
use smoltcp.Prelude.{
  ◌+◌, ◌<◌, ◌≡◌, ◌≢◌, ◌⊎◌, inl, inr, refl, ap, ◌∙◌, Bool, true, false, Option, none, some, ltb, leb,
  ◌==◌, arith, Bool-cases,
}
use native.Mathlib.Decide.{dec_lt}
use smoltcp.Iface.Rpl.Lollipop.{SequenceCounter, Ordering, increment, counter_eq, partial_cmp}

abbrev pub reversed : Option Ordering → Option Ordering
reversed none = none
reversed (some Ordering.less) = some Ordering.greater
reversed (some Ordering.equal) = some Ordering.equal
reversed (some Ordering.greater) = some Ordering.less

abbrev pub is_equal : Option Ordering → Bool
is_equal (some Ordering.equal) = true
is_equal _ = false

-- Swapping the counters reverses the comparison.
pub partial_cmp-reversed :
    (a b : SequenceCounter) → a < 256 → b < 256 → partial_cmp b a ≡ reversed (partial_cmp a b)
unfolding partial_cmp
partial_cmp-reversed a b ha hb = ground arith

-- Counters are equal where they are the same octet, and that is where they compare as equal.
pub counter_eq-partial_cmp :
    (a b : SequenceCounter)
    → a < 256
    → b < 256
    → (counter_eq a b ≡ (a == b)) × (is_equal (partial_cmp a b) ≡ (a == b))
unfolding partial_cmp counter_eq
counter_eq-partial_cmp a b ha hb = (ground arith, ground arith)

increment_inside : (a : SequenceCounter) → a < 255 → a ≢ 127 → increment a ≡ a + 1
unfolding increment
increment_inside a h d = elim (dec_lt a 127) [
  | yes small ↦
      let low : leb 128 a ≡ false = ground arith in
      let fits : ltb 255 (a + 1) ≡ false = ground arith in
      let inside : leb (a + 1) 127 ≡ true = ground arith in rw (low, fits, inside) refl
  | no large ↦
      let above : 127 < a = not_127 large d in
      let high : leb 128 a ≡ true = ground arith in
      let fits : ltb 255 (a + 1) ≡ false = ground arith in
      let inside : leb (a + 1) 255 ≡ true = ground arith in rw (high, fits, inside) refl
]
  where
    not_127 : (a < 127 → ⊥) → a ≢ 127 → 127 < a
    not_127 large d = elim (dec_lt 127 a) [
      | yes above ↦ above
      | no below ↦ absurd (d (omega arith))
    ]

compare_next :
    (a : SequenceCounter) → a < 255 → a ≢ 127 → partial_cmp a (a + 1) ≡ some Ordering.less
unfolding partial_cmp
compare_next a h d = elim (dec_lt a 127) [
  | yes small ↦ ground arith
  | no large ↦ elim (dec_lt 127 a) [
    | yes above ↦ ground arith
    | no below ↦ absurd (d (omega arith))
  ]
]

-- An incremented counter is an octet that is newer than the counter was, but for the step from 127 to
-- 0 in the circular space: these two are not comparable.
pub partial_cmp-increment :
    (a : SequenceCounter)
    → a < 256
    → (increment a < 256)
      × (((a ≢ 127) × (partial_cmp a (increment a) ≡ some Ordering.less))
          ⊎ ((a ≡ 127) × (increment a ≡ 0) × (partial_cmp a (increment a) ≡ none)))
unfolding partial_cmp increment
partial_cmp-increment a h = elim (Bool-cases (a == 127)) [
  | inl t ↦ let e : a ≡ 127 = ground arith in rw e (omega arith, inr (refl, refl, refl))
  | inr f ↦
      let d : a ≢ 127 = λ q. differs f q in
      elim (dec_lt a 255) [
        | yes inside ↦
            let e = increment_inside a inside d in
            (omega arith, inl (d, ap (partial_cmp a) e ∙ compare_next a inside d))
        | no last ↦
            let e : a ≡ 255 = omega arith in
            rw e (omega arith, inl (λ q. absurd (omega arith), refl))
      ]
]
  where
    differs : (a == 127) ≡ false → a ≡ 127 → ⊥
    differs f q = ground arith
