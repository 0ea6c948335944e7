-- ===== src/Wire/TcpPacket/Sum.antt =====
-- wire/tcp.rs: the checksum that `Packet::fill_checksum` leaves is one that `verify_checksum` takes.
use smoltcp.Prelude.{
  ℕ, ◌+◌, ◌-◌, ◌*◌, ◌^◌, ◌≤◌, ◌<◌, ◌≡◌, refl, ap, ◌∙◌, true, some, List, [], ◌∷◌, length, arith,
}
use smoltcp.Wire.Bytes.{big_endian, Octets}
use smoltcp.Wire.Ip.{IpAddress, same_version}
use smoltcp.Wire.Checksum.{propagate_carries, combine, pseudo_header}
use smoltcp.Wire.Checksum.Laws.{
  word_sum, checksum_data-word_sum, propagate_carries-complement, propagate_carries-bound,
}
use smoltcp.Wire.TcpRepr.{TcpRepr}
use smoltcp.Wire.TcpPacket.Fields.{packet_sum, fill_checksum, verify_checksum}
use smoltcp.Wire.TcpPacket.Header.{header}
use smoltcp.Wire.TcpPacket.Emitted.{packet}

word_sum-bound :
    (octets : List ℕ) → Octets octets → word_sum big_endian octets ≤ 65535 * length octets
word_sum-bound [] h = omega arith
word_sum-bound (a ∷ []) (h, t) = omega arith
word_sum-bound (a ∷ b ∷ octets) (ha, (hb, h)) = let ih = word_sum-bound octets h in omega arith

pseudo_header-bound :
    (src dst : IpAddress) (n : ℕ)
    → same_version src dst ≡ true
    → (p : ℕ) × (pseudo_header big_endian src dst 6 n ≡ some p) × (p < 65536)
unfolding pseudo_header combine
pseudo_header-bound (IpAddress.ipv4 s) (IpAddress.ipv4 d) n h = (_, refl, propagate_carries-bound _)
pseudo_header-bound (IpAddress.ipv4 s) (IpAddress.ipv6 d) n h = cc
pseudo_header-bound (IpAddress.ipv6 s) (IpAddress.ipv4 d) n h = cc
pseudo_header-bound (IpAddress.ipv6 s) (IpAddress.ipv6 d) n h = (_, refl, propagate_carries-bound _)

module _ (repr : TcpRepr) (word : ℕ) (body : List ℕ) where
  word_sum-packet :
      (c : ℕ)
      → c < 65536
      → word_sum big_endian (packet repr word c body)
        ≡ word_sum big_endian (packet repr word 0 body) + c
  word_sum-packet c h = omega arith

  word_sum-packet_bound :
      Octets body → length body ≤ 65515 → word_sum big_endian (packet repr word 0 body) < 4294901760
  word_sum-packet_bound h n = let b = word_sum-bound body h in omega arith

  packet_sum_lem :
      (src dst : IpAddress) (p c : ℕ)
      → pseudo_header big_endian src dst 6 (length (packet repr word c body)) ≡ some p
      → word_sum big_endian (packet repr word c body) < 2 ^ 32
      → packet_sum big_endian src dst (packet repr word c body)
        ≡ some (
            propagate_carries
              (p + propagate_carries (word_sum big_endian (packet repr word c body))))
  unfolding packet_sum combine
  packet_sum_lem src dst p c h l =
      let e = checksum_data-word_sum big_endian (packet repr word c body) l in
      rw h
        (ap (λ s. some (propagate_carries s)) {y = p + _} (ap (λ d. p + (d + 0)) e ∙ omega arith))

  -- The filled-in checksum, and that it verifies.
  pub fill-verify :
      (src dst : IpAddress) (c0 c1 : ℕ)
      → same_version src dst ≡ true
      → Octets body
      → length body ≤ 65515
      → (c : ℕ) × (fill_checksum big_endian src dst (header repr word (c0 ∷ c1 ∷ 0 ∷ 0 ∷ body))
          ≡ some (packet repr word c body))
        × (verify_checksum big_endian src dst (packet repr word c body) ≡ some true)
  unfolding fill_checksum verify_checksum
  fill-verify src dst c0 c1 version octets short =
      let (p, e, small) = pseudo_header-bound src dst (length (packet repr word 0 body)) version in
      let a = word_sum big_endian (packet repr word 0 body) in
      let bound = word_sum-packet_bound octets short in
      let s = propagate_carries (p + propagate_carries a) in
      let c = 65535 - s in
      let total = word_sum-packet c (omega arith) in
      let ones = propagate_carries-complement p a c small bound refl in
      let filled = packet_sum_lem src dst p 0 e (omega arith) in
      let seen =
        packet_sum_lem src dst p c e (omega arith)
        ∙ ap (λ t. some (propagate_carries (p + propagate_carries t))) total
        ∙ ap some ones in
      (c, rw filled refl, rw seen refl)
