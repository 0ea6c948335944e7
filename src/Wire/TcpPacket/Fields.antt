-- ===== src/Wire/TcpPacket/Fields.antt =====
-- wire/tcp.rs: `Packet`, the fields of a TCP segment in a buffer.
--
-- A buffer is the list of its octets. The accessors are those of a buffer that `check_len` accepted.
use smoltcp.Prelude.{
  ℕ, ◌+◌, ◌-◌, ◌*◌, ◌/◌, ◌%◌, Bool, true, false, ◌||◌, some, List, [], ◌∷◌, ltb, ◌==◌,
  if◌then◌else◌, Result, ok, err, Checked, ◌>>=◌, length, drop,
}
use smoltcp.Prelude.Slices.{slice}
use smoltcp.Wire.Bytes.{ByteOrder, WireError, u16_at, u32_at, set_u16, set_u32}
use smoltcp.Wire.Ip.{IpAddress}
use smoltcp.Wire.SeqNumber.{SeqNumber}
use smoltcp.Wire.Checksum.{combine, checksum_data, pseudo_header}

-- The flags, as the weights of their bits.
abbrev pub flg_fin : ℕ
flg_fin = 1

abbrev pub flg_syn : ℕ
flg_syn = 2

abbrev pub flg_rst : ℕ
flg_rst = 4

abbrev pub flg_psh : ℕ
flg_psh = 8

abbrev pub flg_ack : ℕ
flg_ack = 16

abbrev pub flg_urg : ℕ
flg_urg = 32

abbrev pub flg_ece : ℕ
flg_ece = 64

abbrev pub flg_cwr : ℕ
flg_cwr = 128

abbrev pub flg_ns : ℕ
flg_ns = 256

-- `raw & flag != 0`
abbrev pub has_flag : ℕ → ℕ → Bool
has_flag flag raw = raw / flag % 2 == 1

-- `raw | flag` and `raw & !flag`
abbrev pub with_flag : Bool → ℕ → ℕ → ℕ
with_flag true flag raw = if has_flag flag raw then raw else raw + flag
with_flag false flag raw = if has_flag flag raw then raw - flag else raw

module _ (order : ByteOrder) where
  abbrev pub src_port : List ℕ → ℕ
  src_port data_ = u16_at order data_ 0

  abbrev pub dst_port : List ℕ → ℕ
  dst_port data_ = u16_at order data_ 2

  abbrev pub seq_number : List ℕ → SeqNumber
  seq_number data_ = u32_at order data_ 4

  abbrev pub ack_number : List ℕ → SeqNumber
  ack_number data_ = u32_at order data_ 8

  abbrev pub flags : List ℕ → ℕ
  flags data_ = u16_at order data_ 12

  abbrev pub fin : List ℕ → Bool
  fin data_ = has_flag flg_fin (flags data_)

  abbrev pub syn : List ℕ → Bool
  syn data_ = has_flag flg_syn (flags data_)

  abbrev pub rst : List ℕ → Bool
  rst data_ = has_flag flg_rst (flags data_)

  abbrev pub psh : List ℕ → Bool
  psh data_ = has_flag flg_psh (flags data_)

  abbrev pub ack : List ℕ → Bool
  ack data_ = has_flag flg_ack (flags data_)

  abbrev pub urg : List ℕ → Bool
  urg data_ = has_flag flg_urg (flags data_)

  abbrev pub ece : List ℕ → Bool
  ece data_ = has_flag flg_ece (flags data_)

  abbrev pub cwr : List ℕ → Bool
  cwr data_ = has_flag flg_cwr (flags data_)

  abbrev pub ns : List ℕ → Bool
  ns data_ = has_flag flg_ns (flags data_)

  -- `((raw >> 12) * 4) as u8`
  abbrev pub header_len : List ℕ → ℕ
  header_len data_ = flags data_ / 4096 * 4 % 256

  abbrev pub window_len : List ℕ → ℕ
  window_len data_ = u16_at order data_ 14

  abbrev pub checksum : List ℕ → ℕ
  checksum data_ = u16_at order data_ 16

  abbrev pub urgent_at : List ℕ → ℕ
  urgent_at data_ = u16_at order data_ 18

  abbrev pub segment_len : List ℕ → ℕ
  segment_len data_ =
      length data_ - header_len data_ + (if syn data_ then 1 else 0) + (if fin data_ then 1 else 0)

  abbrev pub options : List ℕ → List ℕ
  options data_ = slice data_ 20 (header_len data_ - 20)

  abbrev pub payload : List ℕ → List ℕ
  payload data_ = drop (header_len data_) data_

  unfoldable pub check_len : List ℕ → Result WireError (Unit {0})
  check_len data_ =
      if ltb (length data_) 20
      then err WireError.error
      else if ltb (length data_) (header_len data_) || ltb (header_len data_) 20
      then err WireError.error
      else ok tt

  -- The sum of the pseudo header and of the packet.
  unfoldable pub packet_sum : IpAddress → IpAddress → List ℕ → Checked ℕ
  packet_sum src_addr dst_addr data_ = do
    pseudo ← pseudo_header order src_addr dst_addr 6 (length data_)
    some (combine (pseudo ∷ checksum_data order data_ ∷ []))

  unfoldable pub verify_checksum : IpAddress → IpAddress → List ℕ → Checked Bool
  unfolding packet_sum
  verify_checksum src_addr dst_addr data_ = do
    sum ← packet_sum src_addr dst_addr data_
    some (sum == 65535)

  abbrev pub set_src_port : ℕ → List ℕ → List ℕ
  set_src_port = set_u16 order 0

  abbrev pub set_dst_port : ℕ → List ℕ → List ℕ
  set_dst_port = set_u16 order 2

  abbrev pub set_seq_number : SeqNumber → List ℕ → List ℕ
  set_seq_number = set_u32 order 4

  abbrev pub set_ack_number : SeqNumber → List ℕ → List ℕ
  set_ack_number = set_u32 order 8

  abbrev pub set_flags : ℕ → List ℕ → List ℕ
  set_flags = set_u16 order 12

  -- `raw & !0x0fff`
  abbrev pub clear_flags : List ℕ → List ℕ
  clear_flags data_ = set_flags (flags data_ / 4096 * 4096) data_

  -- `set_fin`, `set_syn`, `set_rst`, `set_psh`, `set_ack`, `set_urg`, `set_ece`, `set_cwr`, `set_ns`
  abbrev pub set_flag : ℕ → Bool → List ℕ → List ℕ
  set_flag flag value data_ = set_flags (with_flag value flag (flags data_)) data_

  -- `(raw & !0xf000) | ((value as u16) / 4) << 12`
  abbrev pub set_header_len : ℕ → List ℕ → List ℕ
  set_header_len value data_ = set_flags (flags data_ % 4096 + value / 4 * 4096 % 65536) data_

  abbrev pub set_window_len : ℕ → List ℕ → List ℕ
  set_window_len = set_u16 order 14

  abbrev pub set_checksum : ℕ → List ℕ → List ℕ
  set_checksum = set_u16 order 16

  abbrev pub set_urgent_at : ℕ → List ℕ → List ℕ
  set_urgent_at = set_u16 order 18

  unfoldable pub fill_checksum : IpAddress → IpAddress → List ℕ → Checked (List ℕ)
  unfolding packet_sum
  fill_checksum src_addr dst_addr data_ = do
    let cleared = set_checksum 0 data_
    sum ← packet_sum src_addr dst_addr cleared
    some (set_checksum (65535 - sum) cleared)
