-- ===== src/Wire/Checksum.antt =====
-- wire/ip.rs: the module `checksum`, the one's complement sum of RFC 1071.
--
-- The sum over octets is a `u32`, which wraps around.
pub mod Laws
use smoltcp.Prelude.{
  ℕ, zero, suc, ◌+◌, ◌*◌, ◌/◌, ◌%◌, ◌^◌, List, [], ◌∷◌, none, some, Checked, leb, if◌then◌else◌,
  length, take, drop,
}
use smoltcp.Wire.Bytes.{ByteOrder, u16_octets}
use smoltcp.Wire.Ip.{IpAddress}

unfoldable pub propagate_carries : ℕ → ℕ
propagate_carries word =
    let sum = word / 65536 + word % 65536 in (sum / 65536 + sum % 65536) % 65536

-- `combine`
unfoldable pub combine : List ℕ → ℕ
unfolding propagate_carries
combine checksums = propagate_carries (total checksums)
  where
    total : List ℕ → ℕ
    total [] = 0
    total (word ∷ words) = word + total words

-- The octets of an address, most significant first.
abbrev be_octets : ℕ → ℕ → List ℕ
be_octets zero n = []
be_octets (suc k) n = (n / 256 ^ k % 256) ∷ be_octets k n

abbrev pub address_octets : IpAddress → List ℕ
address_octets (IpAddress.ipv4 a) = be_octets 4 a
address_octets (IpAddress.ipv6 a) = be_octets 16 a

module _ (order : ByteOrder) where
  -- "Take by 2 bytes and sum them", while there are two.
  abbrev pub sum_pairs : ℕ → List ℕ → ℕ
  sum_pairs accum (a ∷ b ∷ octets) = sum_pairs ((accum + order.read_u16 a b) % 2 ^ 32) octets
  sum_pairs accum _ = accum

  -- What is left after the pairs.
  abbrev pub odd_octet : List ℕ → ℕ
  odd_octet (a ∷ b ∷ octets) = odd_octet octets
  odd_octet (a ∷ []) = a * 256
  odd_octet [] = 0

  -- The loop over chunks of 32 octets; a round takes 32 octets, so the length is enough fuel.
  unfoldable pub sum_chunks : ℕ → ℕ → List ℕ → ℕ × List ℕ
  sum_chunks zero accum octets = (accum, octets)
  sum_chunks (suc fuel) accum octets =
      let more = sum_chunks fuel (sum_pairs accum (take 32 octets)) (drop 32 octets) in
      if leb 32 (length octets) then more else (accum, octets)

  -- `checksum::data`
  unfoldable pub checksum_data : List ℕ → ℕ
  unfolding sum_chunks propagate_carries
  checksum_data octets =
      let (accum, rest) = sum_chunks (length octets) 0 octets in
      propagate_carries ((sum_pairs accum rest + odd_octet rest) % 2 ^ 32)

  -- `pseudo_header`, which panics on addresses of different versions.
  unfoldable pub pseudo_header : IpAddress → IpAddress → ℕ → ℕ → Checked ℕ
  unfolding combine checksum_data
  pseudo_header (IpAddress.ipv4 src) (IpAddress.ipv4 dst) next_header length_ = some (
      combine (
        checksum_data (be_octets 4 src)
        ∷ checksum_data (be_octets 4 dst)
        ∷ checksum_data (0 ∷ next_header ∷ u16_octets order (length_ % 65536))
        ∷ []))
  pseudo_header (IpAddress.ipv6 src) (IpAddress.ipv6 dst) next_header length_ = some (
      combine (
        checksum_data (be_octets 16 src)
        ∷ checksum_data (be_octets 16 dst)
        ∷ checksum_data (0 ∷ next_header ∷ u16_octets order (length_ % 65536))
        ∷ []))
  pseudo_header (IpAddress.ipv4 src) (IpAddress.ipv6 dst) next_header length_ = none
  pseudo_header (IpAddress.ipv6 src) (IpAddress.ipv4 dst) next_header length_ = none
