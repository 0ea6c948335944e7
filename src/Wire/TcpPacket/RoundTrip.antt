-- ===== src/Wire/TcpPacket/RoundTrip.antt =====
-- wire/tcp.rs: what `Repr::emit` writes, `Repr::parse` reads.
use smoltcp.Prelude.{
  ℕ, zero, suc, ◌+◌, ◌-◌, ◌*◌, ◌/◌, ◌%◌, ◌≤◌, ◌<◌, ◌≡◌, refl, ap, ◌∙◌, Bool, true, false, ◌||◌,
  Option, none, some, List, [], ◌∷◌, ◌++◌, ltb, ◌==◌, if◌then◌else◌, ok, length, take, drop, arith,
  subst,
}
use smoltcp.Prelude.Slices.{drop-append_past}
use smoltcp.Wire.Bytes.{ByteOrder, big_endian, IsBigEndian, IsBigEndian-big_endian, Octets}
use smoltcp.Wire.Ip.{IpAddress, same_version}
use smoltcp.Wire.TcpRepr.{Control, TcpRepr, is_some, header_len, buffer_len}
use smoltcp.Wire.TcpPacket.Options.{present}
use smoltcp.Wire.TcpPacket.Fields
use smoltcp.Wire.TcpPacket.Fields.{check_len, verify_checksum}
use smoltcp.Wire.TcpPacket.{
  ChecksumCapability, rx, tx, sack_option, unwrap_or, nothing_read, control_of, parse_options,
  parse_fields, checksum_passes, parse_checked, parse, emit, emit_at,
}
use smoltcp.Wire.TcpPacket.Words.{
  reread, reread-back, reread_double, reread_double-back, flag_word, ReadsAs, flag_word-ReadsAs,
  is_fin, is_syn, is_rst, is_psh,
}
use smoltcp.Wire.TcpPacket.Header.{header, emit_header-header}
use smoltcp.Wire.TcpPacket.OptionLaws.{RangesFit}
use smoltcp.Wire.TcpPacket.EmittedOptions.{
  emit_options-EmittedOptions, SizeFits, ScaleFits, ranges_of, noted, length-append_lem,
  Octets-append,
}
use smoltcp.Wire.TcpPacket.Lengths.{header_len-HeaderFits, sack_option-Sendable}
use smoltcp.Wire.TcpPacket.Emitted.{packet, emit_at-placed, finished}
use smoltcp.Wire.TcpPacket.Sum.{fill-verify}

abbrev AckFits : Option ℕ → Type 0
AckFits none = Unit
AckFits (some n) = n < 4294967296

-- The fields have the sizes of their types, the ports are present, the scale is one that RFC 1323
-- allows, and the packet is one that IP can carry.
pub record IsRepr (repr : TcpRepr) : Type 0 where
  pub src_present : 0 < repr.src_port
  pub src_fits : repr.src_port < 65536
  pub dst_present : 0 < repr.dst_port
  pub dst_fits : repr.dst_port < 65536
  pub seq_fits : repr.seq_number < 4294967296
  pub ack_fits : AckFits repr.ack_number
  pub window_fits : repr.window_len < 65536
  pub size_fits : SizeFits repr.max_seg_size
  pub scale_fits : ScaleFits repr.window_scale
  pub few_ranges : length repr.sack_ranges ≤ 3
  pub ranges_fit : RangesFit (present repr.sack_ranges)
  pub payload_octets : Octets repr.payload
  pub short : buffer_len repr ≤ 65535

-- The segment as it is on the wire: the ranges are left out if it permits them or acknowledges
-- nothing, and stand in front of the others.
pub on_wire : TcpRepr → TcpRepr
on_wire repr = record repr { sack_ranges = ranges_of (sack_option repr) }

-- The fixed fields of a packet are read back.
control_of_lem :
    (control : Control)
    → control_of big_endian (is_syn control) (is_fin control) (is_rst control) (is_psh control)
      ≡ ok control
unfolding control_of
control_of_lem Control.plain = refl
control_of_lem Control.psh = refl
control_of_lem Control.syn = refl
control_of_lem Control.fin = refl
control_of_lem Control.rst = refl

ack_back :
    (ack : Option ℕ)
    → AckFits ack
    → (if is_some ack then some (reread_double (unwrap_or ack 0)) else none) ≡ ack
ack_back none h = refl
ack_back (some n) h = ap some (reread_double-back n h)

take-append_exact : {A : Type 0} (xs ys : List A) → take (length xs) (xs ++ ys) ≡ xs
take-append_exact [] ys = refl
take-append_exact (x ∷ xs) ys = ap (λ t. x ∷ t) (take-append_exact xs ys)

drop-append_exact : {A : Type 0} (xs ys : List A) → drop (length xs) (xs ++ ys) ≡ ys
drop-append_exact [] ys = refl
drop-append_exact (x ∷ xs) ys = drop-append_exact xs ys

module _ (repr : TcpRepr) (c : ℕ) (octets : List ℕ) (fits : IsRepr repr) where
  abbrev word : ℕ
  word = flag_word (header_len repr % 256 / 4 % 16) repr.control (is_some repr.ack_number)

  abbrev sent : List ℕ
  sent = packet repr word c (octets ++ repr.payload)

  abbrev read_len : ℕ
  read_len = reread word / 4096 * 4 % 256

  reads :
      ReadsAs repr.control (is_some repr.ack_number) (header_len repr % 256 / 4 % 16) (reread word)
  reads =
      flag_word-ReadsAs (header_len repr % 256 / 4 % 16) repr.control (is_some repr.ack_number)
        (omega arith)

  read_len_lem : header_len repr ≡ 20 + length octets → read_len ≡ 20 + length octets
  read_len_lem e =
      let h = header_len-HeaderFits repr fits.few_ranges in
      let l = reads.header_len_lem in let a = h.at_most in let d = h.whole in omega arith

  read_options :
      header_len repr ≡ 20 + length octets → take (read_len - 20) (octets ++ repr.payload) ≡ octets
  read_options e =
      let l = read_len_lem e in
      ap (λ n. take n (octets ++ repr.payload)) {y = length octets} (omega arith)
      ∙ take-append_exact octets repr.payload

  read_payload : header_len repr ≡ 20 + length octets → drop read_len sent ≡ repr.payload
  read_payload e =
      let l = read_len_lem e in
      drop-append_past read_len (length octets) (packet repr word c []) (octets ++ repr.payload)
        (omega arith)
      ∙ drop-append_exact octets repr.payload

  parse_fields-sent :
      header_len repr ≡ 20 + length octets
      → parse_options big_endian (length octets) octets nothing_read
        ≡ some (
            ok (record {
              max_seg_size = repr.max_seg_size;
              window_scale = repr.window_scale;
              sack_permitted = repr.sack_permitted;
              sack_ranges = ranges_of (sack_option repr);
            }))
      → parse_fields big_endian sent ≡ some (ok (on_wire repr))
  unfolding parse_fields on_wire
  parse_fields-sent e parsed =
      rw
        (
          reads.syn_lem,
          reads.fin_lem,
          reads.rst_lem,
          reads.psh_lem,
          control_of_lem repr.control,
          read_options e,
          parsed,
          reads.ack_lem,
        )
        (λ i. some (
          ok (record {
            src_port = reread-back repr.src_port fits.src_fits i;
            dst_port = reread-back repr.dst_port fits.dst_fits i;
            control = repr.control;
            seq_number = reread_double-back repr.seq_number fits.seq_fits i;
            ack_number = ack_back repr.ack_number fits.ack_fits i;
            window_len = reread-back repr.window_len fits.window_fits i;
            window_scale = repr.window_scale;
            max_seg_size = repr.max_seg_size;
            sack_permitted = repr.sack_permitted;
            sack_ranges = ranges_of (sack_option repr);
            payload = read_payload e i;
          })))

  check_len-sent : header_len repr ≡ 20 + length octets → check_len big_endian sent ≡ ok tt
  unfolding check_len
  check_len-sent e =
      let l = read_len_lem e in
      let a = length-append_lem octets repr.payload in
      let long : ltb (length sent) 20 ≡ false = ground arith in
      let whole : (ltb (length sent) read_len || ltb read_len 20) ≡ false = ground arith in
      rw (long, whole) refl

  checksum_passes-sent :
      (caps : ChecksumCapability) (src dst : IpAddress)
      → (rx caps ≡ true → verify_checksum big_endian src dst sent ≡ some true)
      → checksum_passes big_endian caps src dst sent ≡ some true
  unfolding checksum_passes
  checksum_passes-sent caps src dst verified = by_caps (rx caps) verified
    where
      by_caps :
          (b : Bool)
          → (b ≡ true → verify_checksum big_endian src dst sent ≡ some true)
          → (if b then verify_checksum big_endian src dst sent else some true) ≡ some true
      by_caps true v = v refl
      by_caps false v = refl

  parse-sent :
      (caps : ChecksumCapability) (src dst : IpAddress)
      → header_len repr ≡ 20 + length octets
      → parse_fields big_endian sent ≡ some (ok (on_wire repr))
      → checksum_passes big_endian caps src dst sent ≡ some true
      → parse big_endian caps src dst sent ≡ some (ok (on_wire repr))
  unfolding parse parse_checked
  parse-sent caps src dst e parsed passes =
      let src_ok : (reread repr.src_port == 0) ≡ false =
        let b = reread-back repr.src_port fits.src_fits in
        let p = fits.src_present in ground arith in
      let dst_ok : (reread repr.dst_port == 0) ≡ false =
        let b = reread-back repr.dst_port fits.dst_fits in
        let p = fits.dst_present in ground arith in
      ap (parse_checked big_endian caps src dst sent) (check_len-sent e)
      ∙ rw (src_ok, dst_ok, passes, parsed) refl

length-take_within : {A : Type 0} (k : ℕ) (xs : List A) → k ≤ length xs → length (take k xs) ≡ k
length-take_within zero xs h = refl
length-take_within (suc k) [] h = absurd (omega arith)
length-take_within (suc k) (x ∷ xs) h = ap suc (length-take_within k xs (omega arith))

IsRepr-short : (repr : TcpRepr) → IsRepr repr → header_len repr + length repr.payload ≤ 65535
unfolding buffer_len
IsRepr-short repr fits = fits.short

-- A buffer of twenty octets or more.
long-buffer :
    (P : List ℕ → Type 0)
    → ((b0 b1 b2 b3 b4 b5 b6 b7 b8 b9 b10 b11 b12 b13 b14 b15 c0 c1 u0 u1 : ℕ) (rest : List ℕ)
        → P (
            b0 ∷ b1 ∷ b2 ∷ b3 ∷ b4 ∷ b5 ∷ b6 ∷ b7 ∷ b8 ∷ b9 ∷ b10 ∷ b11 ∷ b12 ∷ b13 ∷ b14 ∷ b15 ∷ c0
            ∷ c1 ∷ u0 ∷ u1 ∷ rest))
    → (octets : List ℕ) → 20 ≤ length octets
    → P octets
long-buffer P h
      (b0 ∷ b1 ∷ b2 ∷ b3 ∷ b4 ∷ b5 ∷ b6 ∷ b7 ∷ b8 ∷ b9 ∷ b10 ∷ b11 ∷ b12 ∷ b13 ∷ b14 ∷ b15 ∷ c0 ∷ c1
        ∷ u0 ∷ u1 ∷ rest)
      n =
    h b0 b1 b2 b3 b4 b5 b6 b7 b8 b9 b10 b11 b12 b13 b14 b15 c0 c1 u0 u1 rest
long-buffer P h _ n = absurd (omega arith)

-- What sending a segment into a buffer and receiving it again comes to.
abbrev RoundTrip :
    ByteOrder
    → ChecksumCapability
    → ChecksumCapability
    → IpAddress
    → IpAddress
    → TcpRepr
    → List ℕ
    → Type 0
RoundTrip order sender receiver src dst repr data_ =
    (octets : List ℕ) × (emit order sender src dst repr data_ ≡ some octets)
    × (parse order receiver src dst octets ≡ some (ok (on_wire repr)))

module _ (sender receiver : ChecksumCapability) (src dst : IpAddress) (repr : TcpRepr)
    (fits : IsRepr repr) (version : same_version src dst ≡ true)
    (checked : rx receiver ≡ true → tx sender ≡ true) where
  -- The end of `emit`, with or without a checksum.
  finished-RoundTrip :
      (c0 c1 u0 u1 m : ℕ) (rest octets : List ℕ)
      → header_len repr ≡ 20 + length octets
      → Octets octets
      → parse_options big_endian (length octets) octets nothing_read ≡ some (ok (noted repr))
      → (b : Bool) → tx sender ≡ b
      → (packet_ : List ℕ) × (finished repr
            (word repr 0 octets fits)
            c0
            c1
            u0
            u1
            m
            rest
            octets
            sender
            src
            dst
            (header repr (word repr 0 octets fits) (c0 ∷ c1 ∷ 0 ∷ 0 ∷ (octets ++ repr.payload)))
          ≡ some packet_)
        × (parse big_endian receiver src dst packet_ ≡ some (ok (on_wire repr)))
  finished-RoundTrip c0 c1 u0 u1 m rest octets e o parsed true t =
      let total = length-append_lem octets repr.payload in
      let body_short : length (octets ++ repr.payload) ≤ 65515 =
        let b = IsRepr-short repr fits in omega arith in
      let (c, filled, verified) =
        fill-verify repr (word repr 0 octets fits) (octets ++ repr.payload) src dst c0 c1 version
          (Octets-append octets repr.payload o fits.payload_octets) body_short in
      (
        sent repr c octets fits,
        rw t filled,
        parse-sent repr c octets fits receiver src dst e
            (parse_fields-sent repr c octets fits e parsed)
            (checksum_passes-sent repr c octets fits receiver src dst (λ r. verified)),
      )
  finished-RoundTrip c0 c1 u0 u1 m rest octets e o parsed false t = (
    sent repr 0 octets fits,
    rw t refl,
    parse-sent repr 0 octets fits receiver src dst e (parse_fields-sent repr 0 octets fits e parsed)
        (checksum_passes-sent repr 0 octets fits receiver src dst
          (λ r. absurd (ground (arith, checked r)))),
  )

  big_endian-RoundTrip :
      (b0 b1 b2 b3 b4 b5 b6 b7 b8 b9 b10 b11 b12 b13 b14 b15 c0 c1 u0 u1 : ℕ) (rest : List ℕ)
      → suc (
          suc (
            suc (
              suc (
                suc (
                  suc (
                    suc (
                      suc (
                        suc (
                          suc (
                            suc (
                              suc (
                                suc (
                                  suc (suc (suc (suc (suc (suc (suc (length rest))))))))))))))))))))
        ≡ header_len repr + length repr.payload
      → RoundTrip big_endian sender receiver src dst repr (
          b0 ∷ b1 ∷ b2 ∷ b3 ∷ b4 ∷ b5 ∷ b6 ∷ b7 ∷ b8 ∷ b9 ∷ b10 ∷ b11 ∷ b12 ∷ b13 ∷ b14 ∷ b15 ∷ c0
          ∷ c1 ∷ u0 ∷ u1 ∷ rest)
  unfolding emit
  big_endian-RoundTrip b0 b1 b2 b3 b4 b5 b6 b7 b8 b9 b10 b11 b12 b13 b14 b15 c0 c1 u0 u1 rest long =
      let h = header_len-HeaderFits repr fits.few_ranges in
      let enough = h.options_fit in
      let m = header_len repr - 20 in
      let room = take m rest in
      let room_len : length room ≡ m = length-take_within m rest (omega arith) in
      let opts =
        emit_options-EmittedOptions repr room fits.size_fits fits.scale_fits
          (sack_option-Sendable repr fits.ranges_fit fits.few_ranges) (omega arith) in
      let l = opts.length_lem in
      let e : header_len repr ≡ 20 + length opts.octets = omega arith in
      let (packet_, finished_lem, parsed) =
        finished-RoundTrip c0 c1 u0 u1 m rest opts.octets e opts.octets_lem
          (opts.reads (length opts.octets) (omega arith)) (tx sender) refl in
      let long_enough : ltb
            (suc (
              suc (
                suc (
                  suc (
                    suc (
                      suc (
                        suc (
                          suc (
                            suc (
                              suc (
                                suc (
                                  suc (
                                    suc (
                                      suc (
                                        suc
                                          (suc (suc (suc (suc (suc (length rest)))))))))))))))))))))
            20
          ≡ false =
        ground arith in
      let r = read_len_lem repr 0 opts.octets fits e in
      (
        packet_,
        rw long_enough (
            ap (λ d. emit_at big_endian sender src dst repr (Fields.header_len big_endian d) d)
              (emit_header-header repr b0 b1 b2 b3 b4 b5 b6 b7 b8 b9 b10 b11 b12 b13 b14 b15 c0
                (c1 ∷ u0 ∷ u1 ∷ rest))
            ∙ emit_at-placed repr (word repr 0 opts.octets fits) c0 c1 u0 u1 m rest opts.octets
                sender src dst (read_len repr 0 opts.octets fits) (omega arith) (omega arith)
                (omega arith) opts.emitted
            ∙ finished_lem),
        parsed,
      )

-- A segment whose fields fit, emitted into a buffer of its length, whatever that holds, is parsed as
-- the segment that was emitted: its ranges are left out if it permits selective acknowledgements or
-- acknowledges nothing, and else stand in front. The addresses have the same version, and a receiver
-- that checks checksums gets one.
pub emit-parse :
    (order : ByteOrder) (sender receiver : ChecksumCapability) (src dst : IpAddress)
    (repr : TcpRepr) (data_ : List ℕ)
    → IsBigEndian order
    → IsRepr repr
    → same_version src dst ≡ true
    → (rx receiver ≡ true → tx sender ≡ true)
    → length data_ ≡ buffer_len repr
    → (octets : List ℕ) × (emit order sender src dst repr data_ ≡ some octets)
      × (parse order receiver src dst octets ≡ some (ok (on_wire repr)))
unfolding buffer_len
emit-parse order sender receiver src dst repr data_ law fits version checked long =
    let h = header_len-HeaderFits repr fits.few_ranges in
    let enough = h.options_fit in
    subst (λ o. RoundTrip o sender receiver src dst repr data_) (IsBigEndian-big_endian order law)
      (long-buffer
        (λ octets.
          length octets ≡ header_len repr + length repr.payload
          → RoundTrip big_endian sender receiver src dst repr octets)
        (big_endian-RoundTrip sender receiver src dst repr fits version checked) data_ (omega arith)
        long)
