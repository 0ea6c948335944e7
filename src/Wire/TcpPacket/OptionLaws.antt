-- ===== src/Wire/TcpPacket/OptionLaws.antt =====
-- wire/tcp.rs: an emitted option is parsed as what it was.
use smoltcp.Prelude.{
  ℕ, zero, suc, ◌+◌, ◌*◌, ◌%◌, ◌≤◌, ◌<◌, ◌≡◌, refl, sym, false, Option, none, some, List, [], ◌∷◌,
  ◌++◌, ok, length, le→leb, ltb, drop, arith, subst,
}
use smoltcp.Wire.Bytes.{big_endian}
use smoltcp.Wire.TcpPacket.Options.{
  TcpOption, present, no_ranges, option_len, range_octets, parse_kind, parse_option, option_octets,
  emit_option,
}
use smoltcp.Wire.TcpPacket.{ReadOptions, note_option, parse_options}
use smoltcp.Wire.TcpPacket.Words.{reread-back, reread_double, reread_double-back}

-- An option as it is read back: its ranges are those that are present, first.
abbrev pub padded : List (ℕ × ℕ) → List (Option (ℕ × ℕ))
padded [] = no_ranges
padded (a ∷ []) = some a ∷ none ∷ none ∷ []
padded (a ∷ b ∷ []) = some a ∷ some b ∷ none ∷ []
padded (a ∷ b ∷ c ∷ rs) = some a ∷ some b ∷ some c ∷ []

abbrev pub read_back : TcpOption → TcpOption
read_back (TcpOption.sack_range ranges) = TcpOption.sack_range (padded (present ranges))
read_back option = option

-- The values that an option can carry.
abbrev pub RangesFit : List (ℕ × ℕ) → Type 0
RangesFit [] = Unit
RangesFit ((a, b) ∷ rs) = (a < 4294967296) × (b < 4294967296) × RangesFit rs

pub data Sendable : TcpOption → Type 0 where
  size : {n : ℕ} → n < 65536 → Sendable (TcpOption.max_segment_size n)
  scale : {n : ℕ} → n < 256 → Sendable (TcpOption.window_scale n)
  permitted : Sendable TcpOption.sack_permitted
  ranges :
      {rs : List (Option (ℕ × ℕ))}
      → RangesFit (present rs)
      → 0 < length (present rs)
      → length (present rs) ≤ 3
      → Sendable (TcpOption.sack_range rs)

abbrev reread_range : ℕ × ℕ → ℕ × ℕ
reread_range (a, b) = (reread_double a, reread_double b)

reread_range-back : (a b : ℕ) → a < 4294967296 → b < 4294967296 → reread_range (a, b) ≡ (a, b)
reread_range-back a b ha hb = λ i. (reread_double-back a ha i, reread_double-back b hb i)

parse-ranges :
    (rs : List (ℕ × ℕ)) (rest : List ℕ)
    → RangesFit rs
    → 0 < length rs
    → length rs ≤ 3
    → parse_option big_endian (5 ∷ (length rs * 8 + 2) % 256 ∷ range_octets big_endian rs ++ rest)
      ≡ ok (rest, TcpOption.sack_range (padded rs))
unfolding parse_option parse_kind
parse-ranges [] rest fit h k = absurd (omega arith)
parse-ranges ((a, b) ∷ []) rest (ha, hb, t) h k =
    let enough : ltb (length (range_octets big_endian ((a, b) ∷ []) ++ rest) + 2) 10 ≡ false =
      ground arith in
    rw enough (λ i.
      ok (rest, TcpOption.sack_range (some (reread_range-back a b ha hb i) ∷ none ∷ none ∷ [])))
parse-ranges ((a, b) ∷ (c, d) ∷ []) rest (ha, hb, (hc, hd, t)) h k =
    let enough : ltb (length (range_octets big_endian ((a, b) ∷ (c, d) ∷ []) ++ rest) + 2) 18
        ≡ false =
      ground arith in
    rw enough (λ i. ok (
      rest,
      TcpOption.sack_range
          (some (reread_range-back a b ha hb i) ∷ some (reread_range-back c d hc hd i) ∷ none ∷ []),
    ))
parse-ranges ((a, b) ∷ (c, d) ∷ (e, f) ∷ []) rest (ha, hb, (hc, hd, (he, hf, t))) h k =
    let enough : ltb (length (range_octets big_endian ((a, b) ∷ (c, d) ∷ (e, f) ∷ []) ++ rest) + 2)
          26
        ≡ false =
      ground arith in
    rw enough (λ i. ok (
      rest,
      TcpOption.sack_range (
          some (reread_range-back a b ha hb i)
          ∷ some (reread_range-back c d hc hd i)
          ∷ some (reread_range-back e f he hf i)
          ∷ []),
    ))
parse-ranges (p ∷ q ∷ r ∷ s ∷ rs) rest fit h k = absurd (omega arith)

-- An emitted option is parsed as what it was, and the parser stops at its end.
pub parse-emitted :
    {option : TcpOption}
    → Sendable option
    → (rest : List ℕ)
    → parse_option big_endian (option_octets big_endian option ++ rest)
      ≡ ok (rest, read_back option)
unfolding parse_option option_octets parse_kind
parse-emitted (Sendable.size {n} h) rest =
    let enough : ltb (suc (suc (length rest)) + 2) 4 ≡ false = ground arith in
    rw enough (λ i. ok (rest, TcpOption.max_segment_size (reread-back n h i)))
parse-emitted (Sendable.scale h) rest =
    let enough : ltb (suc (length rest) + 2) 3 ≡ false = ground arith in rw enough refl
parse-emitted Sendable.permitted rest =
    let enough : ltb (length rest + 2) 2 ≡ false = ground arith in rw enough refl
parse-emitted (Sendable.ranges {rs} fit h k) rest = parse-ranges (present rs) rest fit h k

length-range_octets : (rs : List (ℕ × ℕ)) → length (range_octets big_endian rs) ≡ length rs * 8
length-range_octets [] = refl
length-range_octets ((a, b) ∷ rs) = let ih = length-range_octets rs in omega arith

-- Where there is room for an option, it is written in front of the rest.
pub emit-Sendable :
    {option : TcpOption}
    → Sendable option
    → (room : List ℕ) → option_len option ≤ length room
    → (emit_option big_endian option room
        ≡ some (option_octets big_endian option, drop (option_len option) room))
      × (length (option_octets big_endian option) ≡ option_len option)
unfolding emit_option option_octets option_len
emit-Sendable (Sendable.size h) room k = (rw (le→leb 4 (length room) k) refl, refl)
emit-Sendable (Sendable.scale h) room k = (rw (le→leb 3 (length room) k) refl, refl)
emit-Sendable Sendable.permitted room k = (rw (le→leb 2 (length room) k) refl, refl)
emit-Sendable (Sendable.ranges {rs} fit h n) room k =
    let e = length-range_octets (present rs) in
    (rw (le→leb (length (present rs) * 8 + 2) (length room) k) refl, omega arith)

-- With enough fuel the loop of `Repr::parse` reads `out` from the octets.
abbrev pub Reads : List ℕ → ReadOptions → ReadOptions → Type 0
Reads octets seen out =
    (fuel : ℕ) → length octets ≤ fuel → parse_options big_endian fuel octets seen ≡ some (ok out)

pub Reads-nothing : (seen : ReadOptions) → Reads [] seen seen
unfolding parse_options
Reads-nothing seen zero h = refl
Reads-nothing seen (suc fuel) h = refl

-- The end of the list, whatever follows.
pub Reads-end : (octets : List ℕ) (seen : ReadOptions) → Reads (0 ∷ octets) seen seen
unfolding parse_options parse_option
Reads-end octets seen zero h = absurd (omega arith)
Reads-end octets seen (suc fuel) h = refl

pub Reads-option :
    (x : ℕ) (octets rest : List ℕ) (option : TcpOption) (seen more out : ReadOptions)
    → parse_option big_endian (x ∷ octets) ≡ ok (rest, option)
    → length rest ≤ length octets
    → note_option option seen ≡ some more
    → Reads rest more out
    → Reads (x ∷ octets) seen out
unfolding parse_options
Reads-option x octets rest option seen more out e h n r zero k = absurd (omega arith)
Reads-option x octets rest option seen more out e h n r (suc fuel) k = rw e (
    subst
      (λ o.
        elim o [ none ↦ some (ok seen) | some more ↦ parse_options big_endian fuel rest more ]
        ≡ some (ok out))
      (sym n) (r fuel (omega arith)))
