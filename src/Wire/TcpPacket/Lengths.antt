-- ===== src/Wire/TcpPacket/Lengths.antt =====
-- wire/tcp.rs: the header that `Repr::header_len` measures has room for what `Repr::emit` writes.
use smoltcp.Prelude.{
  ℕ, ◌+◌, ◌-◌, ◌*◌, ◌%◌, ◌≤◌, ◌<◌, ◌≡◌, refl, Bool, true, false, ◌&&◌, Option, none, some, List, [],
  ◌∷◌, ltb, ◌==◌, if◌then◌else◌, length, arith, Bool-cases, inl, inr,
}
use smoltcp.Wire.TcpRepr.{TcpRepr, is_some, header_len, sack_range_len}
use smoltcp.Wire.TcpPacket.Options.{TcpOption, present, option_len}
use smoltcp.Wire.TcpPacket.{sack_option, map_option, any_range}
use smoltcp.Wire.TcpPacket.OptionLaws.{Sendable, RangesFit}
use smoltcp.Wire.TcpPacket.EmittedOptions.{MaybeSendable, maybe_len, options_len}

present-length : {A : Type 0} (rs : List (Option A)) → length (present rs) ≤ length rs
present-length [] = omega arith
present-length (none ∷ rs) = let ih = present-length rs in omega arith
present-length (some r ∷ rs) = let ih = present-length rs in omega arith

sack_range_len-present : (rs : List (Option (ℕ × ℕ))) → sack_range_len rs ≡ length (present rs) * 8
sack_range_len-present [] = refl
sack_range_len-present (none ∷ rs) = sack_range_len-present rs
sack_range_len-present (some r ∷ rs) = let ih = sack_range_len-present rs in omega arith

any_range-present : (rs : List (Option (ℕ × ℕ))) → any_range rs ≡ true → 0 < length (present rs)
any_range-present [] h = cc
any_range-present (none ∷ rs) h = any_range-present rs h
any_range-present (some r ∷ rs) h = omega arith

-- Rounding up to a multiple of four.
padded_len : (n : ℕ) → ℕ
padded_len n = if n % 4 == 0 then n else n + (4 - n % 4)

padded_len-bounds : (n : ℕ) → (n ≤ padded_len n) × (padded_len n ≤ n + 3) × (padded_len n % 4 ≡ 0)
unfolding padded_len
padded_len-bounds n = elim (Bool-cases (n % 4 == 0)) [
  | inl t ↦ let e : n % 4 ≡ 0 = ground arith in rw t (omega arith, omega arith, e)
  | inr f ↦ let e : 0 < n % 4 = ground arith in rw f (omega arith, omega arith, omega arith)
]

option_size :
    {A : Type 0} (f : A → TcpOption) (n : ℕ) (o : Option A)
    → ((a : A) → option_len (f a) ≡ n)
    → maybe_len (map_option f o) ≡ (if is_some o then n else 0)
option_size f n none h = refl
option_size f n (some a) h = h a

size_room : Bool → ℕ
size_room b = if b then 4 else 0

sack_room :
    (p q : Bool) (rs : List (Option (ℕ × ℕ)))
    → (q ≡ true → any_range rs ≡ true)
    → maybe_len (
        if p
        then some TcpOption.sack_permitted
        else if q
        then some (TcpOption.sack_range rs)
        else none)
      ≤ (if p then 2 else 0) + (if ltb 0 (sack_range_len rs) then sack_range_len rs + 2 else 0)
unfolding option_len
sack_room true q rs h = omega arith
sack_room false true rs h =
    let some_range = any_range-present rs (h refl) in
    let e = sack_range_len-present rs in
    let t : ltb 0 (sack_range_len rs) ≡ true = ground arith in rw t (omega arith)
sack_room false false rs h = omega arith

pub sack_option-Sendable :
    (repr : TcpRepr)
    → RangesFit (present repr.sack_ranges)
    → length repr.sack_ranges ≤ 3
    → MaybeSendable (sack_option repr)
sack_option-Sendable repr fit few =
    by_cases repr.sack_permitted (is_some repr.ack_number) (any_range repr.sack_ranges) refl
  where
    by_cases :
        (p a q : Bool)
        → any_range repr.sack_ranges ≡ q
        → MaybeSendable (
            if p
            then some TcpOption.sack_permitted
            else if a && q
            then some (TcpOption.sack_range repr.sack_ranges)
            else none)
    by_cases true a q e = Sendable.permitted
    by_cases false true true e =
        let b = present-length repr.sack_ranges in
        Sendable.ranges fit (any_range-present repr.sack_ranges e) (omega arith)
    by_cases false true false e = tt
    by_cases false false q e = tt

-- The bounds of a header's length.
pub record HeaderFits (repr : TcpRepr) : Type 0 where
  pub options_fit : 20 + options_len repr ≤ header_len repr
  pub at_most : header_len repr ≤ 60
  pub whole : header_len repr % 4 ≡ 0

pub header_len-HeaderFits : (repr : TcpRepr) → length repr.sack_ranges ≤ 3 → HeaderFits repr
unfolding header_len padded_len option_len
header_len-HeaderFits repr few =
    let e1 = option_size TcpOption.max_segment_size 4 repr.max_seg_size (λ a. refl) in
    let e2 = option_size TcpOption.window_scale 3 repr.window_scale (λ a. refl) in
    let b = present-length repr.sack_ranges in
    let e = sack_range_len-present repr.sack_ranges in
    let e3 =
      sack_room repr.sack_permitted (is_some repr.ack_number && any_range repr.sack_ranges)
        repr.sack_ranges (λ q. ground arith) in
    let c1 = if_bound (is_some repr.max_seg_size) 4 in
    let c2 = if_bound (is_some repr.window_scale) 3 in
    let c3 = if_bound repr.sack_permitted 2 in
    let c4 =
      if_bound (ltb 0 (sack_range_len repr.sack_ranges)) (sack_range_len repr.sack_ranges + 2) in
    let (p1, p2, p3) = padded_len-bounds (
      20
      + (if is_some repr.max_seg_size then 4 else 0)
      + (if is_some repr.window_scale then 3 else 0)
      + (if repr.sack_permitted then 2 else 0)
      + (if ltb 0 (sack_range_len repr.sack_ranges)
          then sack_range_len repr.sack_ranges + 2
          else 0)) in
    record { options_fit = omega arith; at_most = omega arith; whole = p3 }
  where
    if_bound : (b : Bool) (n : ℕ) → (if b then n else 0) ≤ n
    if_bound true n = omega arith
    if_bound false n = omega arith
