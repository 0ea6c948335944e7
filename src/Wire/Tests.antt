-- ===== src/Wire/Tests.antt =====
-- wire/ on concrete inputs.
use smoltcp.Prelude.{
  ℕ, zero, suc, ◌≡◌, refl, false, none, some, List, [], ◌∷◌, Result, ok, ◌≤◌, length, arith,
}
use smoltcp.Wire.Bytes.{WireError, big_endian, IsBigEndian, Octets}
use smoltcp.Wire.Ip.{IpAddress}
use smoltcp.Wire.Checksum.{checksum_data}
use smoltcp.Wire.Checksum.Laws.{ones_sum, checksum_data-ones_sum}
use smoltcp.Wire.TcpRepr.{Control, TcpRepr, buffer_len, header_len}
use smoltcp.Wire.TcpPacket.{
  ChecksumCapability, emit, parse, ReadOptions, parse_options, nothing_read,
}
use smoltcp.Wire.TcpPacket.RoundTrip.{IsRepr, on_wire, emit-parse}
use smoltcp.Wire.TcpPacket.Fuel.{parse_options-ends}

big_endian-IsBigEndian : IsBigEndian big_endian
big_endian-IsBigEndian = record {
  read_u16_lem = λ a b. refl;
  write_u16_lem = λ n. refl;
  read_u32_lem = λ a b c d. refl;
  write_u32_lem = λ n. refl;
}

-- An acknowledgement with two ranges, of which the first is missing, and three octets of payload.
abbrev segment : TcpRepr
segment = record {
  src_port = 49500;
  dst_port = 80;
  control = Control.psh;
  seq_number = 4294967290;
  ack_number = some 17;
  window_len = 512;
  window_scale = some 3;
  max_seg_size = some 1460;
  sack_permitted = false;
  sack_ranges = none ∷ some (40, 50) ∷ some (60, 70) ∷ [];
  payload = 170 ∷ 0 ∷ 255 ∷ [];
}

segment-IsRepr : IsRepr segment
unfolding buffer_len header_len
segment-IsRepr = record {
  src_present = omega arith;
  src_fits = omega arith;
  dst_present = omega arith;
  dst_fits = omega arith;
  seq_fits = omega arith;
  ack_fits = omega arith;
  window_fits = omega arith;
  size_fits = omega arith;
  scale_fits = omega arith;
  few_ranges = omega arith;
  ranges_fit = (omega arith, omega arith, (omega arith, omega arith, tt));
  payload_octets = (omega arith, (omega arith, (omega arith, tt)));
  short = omega arith;
}

abbrev repeat : ℕ → List ℕ
repeat zero = []
repeat (suc n) = 255 ∷ repeat n

segment-length : length (repeat 51) ≡ buffer_len segment
unfolding buffer_len header_len
segment-length = refl

emit-parse_example :
    (octets : List ℕ) × (emit big_endian ChecksumCapability.both
        (IpAddress.ipv4 3232235521)
        (IpAddress.ipv4 3232235522)
        segment
        (repeat 51)
      ≡ some octets)
    × (parse big_endian ChecksumCapability.both
          (IpAddress.ipv4 3232235521)
          (IpAddress.ipv4 3232235522)
          octets
        ≡ some (ok (on_wire segment)))
emit-parse_example =
    emit-parse big_endian ChecksumCapability.both ChecksumCapability.both
      (IpAddress.ipv4 3232235521) (IpAddress.ipv4 3232235522) segment (repeat 51)
      big_endian-IsBigEndian segment-IsRepr refl (λ h. refl) segment-length

abbrev option_area : List ℕ
option_area = 2 ∷ 4 ∷ 5 ∷ 180 ∷ 1 ∷ 3 ∷ 3 ∷ 7 ∷ 0 ∷ 9 ∷ []

parse_options-ends_example :
    (r : Result WireError ReadOptions) × ((fuel : ℕ)
      → length option_area ≤ fuel
      → parse_options big_endian fuel option_area nothing_read ≡ some r)
parse_options-ends_example = parse_options-ends big_endian option_area nothing_read

ones-Octets : (n : ℕ) → Octets (repeat n)
ones-Octets zero = tt
ones-Octets (suc n) = (omega arith, ones-Octets n)

checksum_data-ones_sum_example : checksum_data big_endian (repeat 51) ≡ ones_sum (repeat 51)
checksum_data-ones_sum_example =
    checksum_data-ones_sum big_endian (repeat 51) big_endian-IsBigEndian (ones-Octets 51)
      (omega arith)
