-- ===== src/Wire/TcpRepr.antt =====
-- wire/tcp.rs: `Control` and `Repr`, the high-level form of a segment.
use smoltcp.Prelude.{
  ℕ, ◌+◌, ◌-◌, ◌%◌, Bool, true, false, ◌&&◌, Option, none, some, List, [], ◌∷◌, ltb, ◌==◌,
  if◌then◌else◌, length,
}
use smoltcp.Wire.SeqNumber.{SeqNumber}

-- `Control::None` is `plain`.
pub data Control : Type 0 where
  plain psh syn fin rst : Control

-- `Control::len`
unfoldable pub control_len : Control → ℕ
control_len syn = 1
control_len fin = 1
control_len _ = 0

unfoldable pub quash_psh : Control → Control
quash_psh psh = plain
quash_psh plain = plain
quash_psh syn = syn
quash_psh fin = fin
quash_psh rst = rst

pub record TcpRepr : Type 0 where
  pub src_port : ℕ
  pub dst_port : ℕ
  pub control : Control
  pub seq_number : SeqNumber
  pub ack_number : Option SeqNumber
  pub window_len : ℕ
  pub window_scale : Option ℕ
  pub max_seg_size : Option ℕ
  pub sack_permitted : Bool
  pub sack_ranges : List (Option (ℕ × ℕ))
  pub payload : List ℕ

abbrev pub is_some {ℓ} : {A : Type ℓ} → Option A → Bool
is_some none = false
is_some (some a) = true

-- The octets of the selective acknowledgement ranges.
abbrev pub sack_range_len : List (Option (ℕ × ℕ)) → ℕ
sack_range_len [] = 0
sack_range_len (none ∷ rs) = sack_range_len rs
sack_range_len (some r ∷ rs) = 8 + sack_range_len rs

-- `Repr::header_len`
unfoldable pub header_len : TcpRepr → ℕ
header_len r =
    let options =
      20
      + (if is_some r.max_seg_size then 4 else 0)
      + (if is_some r.window_scale then 3 else 0)
      + (if r.sack_permitted then 2 else 0) in
    let ranges = sack_range_len r.sack_ranges in
    let unpadded = options + (if ltb 0 ranges then ranges + 2 else 0) in
    if unpadded % 4 == 0 then unpadded else unpadded + (4 - unpadded % 4)

-- `Repr::buffer_len`
unfoldable pub buffer_len : TcpRepr → ℕ
unfolding header_len
buffer_len r = header_len r + length r.payload

-- `Repr::segment_len`
unfoldable pub segment_len : TcpRepr → ℕ
unfolding control_len
segment_len r = length r.payload + control_len r.control

-- `Repr::is_empty`
unfoldable pub repr_is_empty : TcpRepr → Bool
repr_is_empty r = (length r.payload == 0) && empty_control r.control
  where
    empty_control : Control → Bool
    empty_control syn = false
    empty_control fin = false
    empty_control rst = false
    empty_control plain = true
    empty_control psh = true
