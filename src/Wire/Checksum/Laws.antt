-- ===== src/Wire/Checksum/Laws.antt =====
-- wire/ip.rs, the module `checksum`: the chunks do not matter, and a filled-in checksum verifies.
use smoltcp.Prelude.{
  ℕ, zero, suc, ◌+◌, ◌-◌, ◌*◌, ◌%◌, ◌^◌, ◌≤◌, ◌<◌, ◌≡◌, refl, ap, ◌∙◌, subst, ltb, if◌then◌else◌,
  List, [], ◌∷◌, leb, length, take, drop, arith, Bool-cases, inl, inr,
}
use smoltcp.Wire.Bytes.{ByteOrder, big_endian, IsBigEndian, IsBigEndian-big_endian, Octets}
use smoltcp.Wire.Checksum.{propagate_carries, sum_pairs, odd_octet, sum_chunks, checksum_data}

abbrev double : ℕ → ℕ
double zero = 0
double (suc k) = suc (suc (double k))

-- Adding the complement of the sum of `p` and `a` to the octets that sum up to `a` makes the sum of
-- them and `p` all ones.
pub propagate_carries-complement :
    (p a c : ℕ)
    → p < 65536
    → a < 4294901760
    → c ≡ 65535 - propagate_carries (p + propagate_carries a)
    → propagate_carries (p + propagate_carries (a + c)) ≡ 65535
unfolding propagate_carries
propagate_carries-complement p a c hp ha hc = omega arith

pub propagate_carries-bound : (w : ℕ) → propagate_carries w < 65536
unfolding propagate_carries
propagate_carries-bound w = omega arith

module _ (order : ByteOrder) where
  -- The sum of RFC 1071: the 16-bit words, an odd octet at the end padded by a zero octet.
  abbrev pub word_sum : List ℕ → ℕ
  word_sum (a ∷ b ∷ octets) = order.read_u16 a b + word_sum octets
  word_sum (a ∷ []) = a * 256
  word_sum [] = 0

  -- Below 2 ^ 32 the sum does not wrap around.
  sum_pairs-odd_octet :
      (accum : ℕ) (octets : List ℕ)
      → accum + word_sum octets < 2 ^ 32
      → sum_pairs order accum octets + odd_octet order octets ≡ accum + word_sum octets
  sum_pairs-odd_octet accum [] h = refl
  sum_pairs-odd_octet accum (a ∷ []) h = omega arith
  sum_pairs-odd_octet accum (a ∷ b ∷ octets) h =
      let fits : (accum + order.read_u16 a b) % 2 ^ 32 ≡ accum + order.read_u16 a b = omega arith in
      let ih = sum_pairs-odd_octet (accum + order.read_u16 a b) octets (omega arith) in
      rw fits (omega arith)

  -- A whole number of words can be split off.
  word_sum-take :
      (accum k : ℕ) (octets : List ℕ)
      → double k ≤ length octets
      → accum + word_sum octets < 2 ^ 32
      → sum_pairs order accum (take (double k) octets) + word_sum (drop (double k) octets)
        ≡ accum + word_sum octets
  word_sum-take accum zero octets h l = omega arith
  word_sum-take accum (suc k) [] h l = absurd (omega arith)
  word_sum-take accum (suc k) (a ∷ []) h l = absurd (omega arith)
  word_sum-take accum (suc k) (a ∷ b ∷ octets) h l =
      let fits : (accum + order.read_u16 a b) % 2 ^ 32 ≡ accum + order.read_u16 a b = omega arith in
      let ih = word_sum-take (accum + order.read_u16 a b) k octets (omega arith) (omega arith) in
      rw fits (omega arith)

  length-drop : (k : ℕ) (octets : List ℕ) → length (drop k octets) ≡ length octets - k
  length-drop zero octets = omega arith
  length-drop (suc k) [] = omega arith
  length-drop (suc k) (a ∷ octets) = let ih = length-drop k octets in omega arith

  -- With the length as fuel the loop has run to its end.
  sum_chunks-word_sum :
      (fuel accum : ℕ) (octets : List ℕ)
      → length octets ≤ fuel
      → accum + word_sum octets < 2 ^ 32
      → (sum_chunks order fuel accum octets).0 + word_sum (sum_chunks order fuel accum octets).1
        ≡ accum + word_sum octets
  unfolding sum_chunks
  sum_chunks-word_sum zero accum octets h l = refl
  sum_chunks-word_sum (suc fuel) accum octets h l = elim (Bool-cases (leb 32 (length octets))) [
    | inl t ↦
        let enough : 32 ≤ length octets = ground arith in
        let e = length-drop 32 octets in
        let split = word_sum-take accum 16 octets enough l in
        let ih =
          sum_chunks-word_sum fuel (sum_pairs order accum (take 32 octets)) (drop 32 octets)
            (omega arith) (omega arith) in
        rw t (omega arith)
    | inr f ↦ rw f refl
  ]

  sum_chunks-short :
      (fuel accum : ℕ) (octets : List ℕ)
      → length octets ≤ fuel
      → length (sum_chunks order fuel accum octets).1 < 32
  unfolding sum_chunks
  sum_chunks-short zero accum octets h = omega arith
  sum_chunks-short (suc fuel) accum octets h = elim (Bool-cases (leb 32 (length octets))) [
    | inl t ↦
        let enough : 32 ≤ length octets = ground arith in
        let e = length-drop 32 octets in
        let ih =
          sum_chunks-short fuel (sum_pairs order accum (take 32 octets)) (drop 32 octets)
            (omega arith) in
        rw t ih
    | inr f ↦ let few : length octets < 32 = ground arith in rw f few
  ]

  -- Where the sum of the words fits a `u32`, the chunks make no difference.
  pub checksum_data-word_sum :
      (octets : List ℕ)
      → word_sum octets < 2 ^ 32
      → checksum_data order octets ≡ propagate_carries (word_sum octets)
  unfolding checksum_data
  checksum_data-word_sum octets h =
      let (accum, rest) = sum_chunks order (length octets) 0 octets in
      let total = sum_chunks-word_sum (length octets) 0 octets (omega arith) (omega arith) in
      let parts =
        sum_pairs-odd_octet (sum_chunks order (length octets) 0 octets).0
          (sum_chunks order (length octets) 0 octets).1 (omega arith) in
      ap propagate_carries (omega arith)

-- The addition of RFC 1071: 16-bit one's complement, in which a carry out of the word is added at its
-- other end.
abbrev pub ones_add : ℕ → ℕ → ℕ
ones_add a b = if ltb (a + b) 65536 then a + b else a + b - 65535

-- The sum of RFC 1071, the most significant octet of a word first, an odd octet at the end padded by a
-- zero octet.
abbrev pub ones_sum : List ℕ → ℕ
ones_sum (a ∷ b ∷ octets) = ones_add (a * 256 + b) (ones_sum octets)
ones_sum (a ∷ []) = a * 256
ones_sum [] = 0

propagate_carries-add :
    (a w : ℕ)
    → a < 65536
    → a + w < 2 ^ 32
    → propagate_carries (a + w) ≡ ones_add a (propagate_carries w)
unfolding propagate_carries
propagate_carries-add a w h l = ground arith

propagate_carries-word_sum :
    (octets : List ℕ)
    → Octets octets
    → word_sum big_endian octets < 2 ^ 32
    → propagate_carries (word_sum big_endian octets) ≡ ones_sum octets
unfolding propagate_carries
propagate_carries-word_sum [] h l = refl
propagate_carries-word_sum (a ∷ []) (h, t) l = omega arith
propagate_carries-word_sum (a ∷ b ∷ octets) (ha, (hb, h)) l =
    propagate_carries-add (a * 256 + b) (word_sum big_endian octets) (omega arith) l
    ∙ ap (ones_add (a * 256 + b)) (propagate_carries-word_sum octets h (omega arith))

word_sum-half :
    (octets : List ℕ) → Octets octets → word_sum big_endian octets * 2 ≤ 65535 * (length octets + 1)
word_sum-half [] h = omega arith
word_sum-half (a ∷ []) (h, t) = omega arith
word_sum-half (a ∷ b ∷ octets) (ha, (hb, h)) = let ih = word_sum-half octets h in omega arith

-- In network byte order and for at most 2 ^ 17 octets, `checksum::data` is the one's complement sum of
-- RFC 1071: its loop over chunks of 32 octets, its `u32` and the carries that it adds at the end make
-- no difference.
pub checksum_data-ones_sum :
    (order : ByteOrder) (octets : List ℕ)
    → IsBigEndian order
    → Octets octets
    → length octets ≤ 2 ^ 17
    → checksum_data order octets ≡ ones_sum octets
checksum_data-ones_sum order octets law h l =
    let half = word_sum-half octets h in
    let fits : word_sum big_endian octets < 2 ^ 32 = omega arith in
    subst (λ o. checksum_data o octets ≡ ones_sum octets) (IsBigEndian-big_endian order law)
      (checksum_data-word_sum big_endian octets fits ∙ propagate_carries-word_sum octets h fits)
