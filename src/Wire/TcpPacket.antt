-- ===== src/Wire/TcpPacket.antt =====
-- wire/tcp.rs: `Repr::parse` and `Repr::emit`, between a segment's representation and its octets.
pub mod Options
pub mod Fields
pub mod Words
pub mod OptionLaws
pub mod EmittedOptions
pub mod Lengths
pub mod Header
pub mod Emitted
pub mod Sum
pub mod RoundTrip
pub mod Fuel
use smoltcp.Prelude.{
  ℕ, zero, suc, ◌+◌, ◌-◌, ◌*◌, ◌/◌, ◌%◌, ◌^◌, min, Bool, true, false, ◌&&◌, ◌||◌, not, Option, none,
  some, List, [], ◌∷◌, ◌++◌, ltb, leb, ◌==◌, if◌then◌else◌, Result, ok, err, and_then, and_checked,
  Checked, ◌>>=◌, length, take, drop,
}
use smoltcp.Prelude.Slices.{overwrite, slice}
use smoltcp.Wire.Bytes.{ByteOrder, WireError, u16_at, u32_at, set_u16, set_u32}
use smoltcp.Wire.Ip.{IpAddress}
use smoltcp.Wire.SeqNumber.{SeqNumber}
use smoltcp.Wire.Checksum.{combine, checksum_data, pseudo_header}
use smoltcp.Wire.TcpRepr as Repr
use smoltcp.Wire.TcpRepr.{Control, TcpRepr, is_some}
use smoltcp.Wire.TcpPacket.Options.{TcpOption, no_ranges, parse_option, emit_option}
use smoltcp.Wire.TcpPacket.Fields.{
  src_port, dst_port, seq_number, ack_number, window_len, header_len, fin, syn, rst, psh, ack,
  options, payload, check_len, verify_checksum, set_src_port, set_dst_port, set_seq_number,
  set_ack_number, set_window_len, set_header_len, clear_flags, set_flag, set_checksum,
  set_urgent_at, fill_checksum, flg_psh, flg_syn, flg_fin, flg_rst, flg_ack,
}

-- `phy::Checksum`; `Checksum::None` is `ignored`.
pub data ChecksumCapability : Type 0 where
  both rx_only tx_only ignored : ChecksumCapability

abbrev pub rx : ChecksumCapability → Bool
rx ChecksumCapability.both = true
rx ChecksumCapability.rx_only = true
rx _ = false

abbrev pub tx : ChecksumCapability → Bool
tx ChecksumCapability.both = true
tx ChecksumCapability.tx_only = true
tx _ = false

-- What `Repr::parse` reads from the options.
pub record ReadOptions : Type 0 where
  pub max_seg_size : Option ℕ
  pub window_scale : Option ℕ
  pub sack_permitted : Bool
  pub sack_ranges : List (Option (ℕ × ℕ))

abbrev pub nothing_read : ReadOptions
nothing_read = record {
  max_seg_size = none;
  window_scale = none;
  sack_permitted = false;
  sack_ranges = no_ranges;
}

-- An option's effect; `none` at the end of the list.
abbrev pub note_option : TcpOption → ReadOptions → Option ReadOptions
note_option TcpOption.end_of_list seen = none
note_option (TcpOption.max_segment_size value) seen =
    some (record seen { max_seg_size = some value })
note_option (TcpOption.window_scale value) seen =
    some (record seen { window_scale = some (if ltb 14 value then 14 else value) })
note_option TcpOption.sack_permitted seen = some (record seen { sack_permitted = true })
note_option (TcpOption.sack_range ranges) seen = some (record seen { sack_ranges = ranges })
note_option _ seen = some seen

abbrev pub map_option {ℓ κ} : {A : Type ℓ} {B : Type κ} → (A → B) → Option A → Option B
map_option f none = none
map_option f (some a) = some (f a)

abbrev pub unwrap_or {ℓ} : {A : Type ℓ} → Option A → A → A
unwrap_or none a = a
unwrap_or (some b) a = b

abbrev pub any_range : List (Option (ℕ × ℕ)) → Bool
any_range [] = false
any_range (r ∷ rs) = is_some r || any_range rs

-- Either the permission or the ranges of an acknowledgement are sent, if there are any.
abbrev pub sack_option : TcpRepr → Option TcpOption
sack_option repr =
    if repr.sack_permitted
    then some TcpOption.sack_permitted
    else if is_some repr.ack_number && any_range repr.sack_ranges
    then some (TcpOption.sack_range repr.sack_ranges)
    else none

module _ (order : ByteOrder) where
  -- The loop over the options, which has no result where the fuel is used up before the octets. Each
  -- option takes an octet at least, so that their length is enough fuel.
  unfoldable pub parse_options : ℕ → List ℕ → ReadOptions → Checked (Result WireError ReadOptions)
  parse_options zero [] seen = some (ok seen)
  parse_options zero (x ∷ octets) seen = none
  parse_options (suc fuel) [] seen = some (ok seen)
  parse_options (suc fuel) (x ∷ octets) seen =
      and_checked (parse_option order (x ∷ octets)) λ (rest, option).
        elim (note_option option seen) [
          | none ↦ some (ok seen)
          | some more ↦ parse_options fuel rest more
        ]

  -- The loop of `selective_ack_permitted` and `selective_ack_ranges`, which does not stop at the end of
  -- the list.
  pub find_option {ℓ} :
      {A : Type ℓ} → ℕ → (TcpOption → Option A) → A → List ℕ → Checked (Result WireError A)
  find_option zero wanted default [] = some (ok default)
  find_option zero wanted default (x ∷ octets) = none
  find_option (suc fuel) wanted default [] = some (ok default)
  find_option (suc fuel) wanted default (x ∷ octets) =
      and_checked (parse_option order (x ∷ octets)) λ (rest, option). elim (wanted option) [
        | some a ↦ some (ok a)
        | none ↦ find_option fuel wanted default rest
      ]

  pub selective_ack_permitted : List ℕ → Checked (Result WireError Bool)
  unfolding find_option
  selective_ack_permitted data_ =
      find_option (length (options order data_)) permitted false (options order data_)
    where
      permitted : TcpOption → Option Bool
      permitted TcpOption.sack_permitted = some true
      permitted _ = none

  pub selective_ack_ranges : List ℕ → Checked (Result WireError (List (Option (ℕ × ℕ))))
  unfolding find_option
  selective_ack_ranges data_ =
      find_option (length (options order data_)) ranges no_ranges (options order data_)
    where
      ranges : TcpOption → Option (List (Option (ℕ × ℕ)))
      ranges (TcpOption.sack_range slice_) = some slice_
      ranges _ = none

  unfoldable pub control_of : Bool → Bool → Bool → Bool → Result WireError Control
  control_of false false false false = ok Control.plain
  control_of false false false true = ok Control.psh
  control_of true false false psh_ = ok Control.syn
  control_of false true false psh_ = ok Control.fin
  control_of false false true psh_ = ok Control.rst
  control_of _ _ _ _ = err WireError.error

  -- The part of `Repr::parse` behind the checksum.
  unfoldable pub parse_fields : List ℕ → Checked (Result WireError TcpRepr)
  unfolding parse_options control_of
  parse_fields data_ =
      and_checked
        (control_of (syn order data_) (fin order data_) (rst order data_) (psh order data_))
        λ control.
          parse_options (length (options order data_)) (options order data_) nothing_read
          >>= λ read. some (
              and_then read λ seen. ok (record {
                src_port = src_port order data_;
                dst_port = dst_port order data_;
                control = control;
                seq_number = seq_number order data_;
                ack_number = if ack order data_ then some (ack_number order data_) else none;
                window_len = window_len order data_;
                window_scale = seen.window_scale;
                max_seg_size = seen.max_seg_size;
                sack_permitted = seen.sack_permitted;
                sack_ranges = seen.sack_ranges;
                payload = payload order data_;
              }))

  -- The checksum is only looked at if the device does not.
  unfoldable pub checksum_passes :
      ChecksumCapability → IpAddress → IpAddress → List ℕ → Checked Bool
  unfolding verify_checksum
  checksum_passes caps src_addr dst_addr data_ =
      if rx caps then verify_checksum order src_addr dst_addr data_ else some true

  -- `Repr::parse` behind `check_len`.
  unfoldable pub parse_checked :
      ChecksumCapability
      → IpAddress
      → IpAddress
      → List ℕ
      → Result WireError (Unit {0})
      → Checked (Result WireError TcpRepr)
  unfolding checksum_passes parse_fields
  parse_checked caps src_addr dst_addr data_ (err e) = some (err e)
  parse_checked caps src_addr dst_addr data_ (ok _) =
      if src_port order data_ == 0
      then some (err WireError.error)
      else if dst_port order data_ == 0
      then some (err WireError.error)
      else do
        passes ← checksum_passes caps src_addr dst_addr data_
        if passes then parse_fields data_ else some (err WireError.error)

  -- `Repr::parse`
  unfoldable pub parse :
      ChecksumCapability → IpAddress → IpAddress → List ℕ → Checked (Result WireError TcpRepr)
  unfolding check_len parse_checked
  parse caps src_addr dst_addr data_ =
      parse_checked caps src_addr dst_addr data_ (check_len order data_)

  -- An option that may be there, at the beginning of the buffer.
  abbrev pub emit_if : Option TcpOption → List ℕ → Checked (List ℕ × List ℕ)
  emit_if none buffer = some ([], buffer)
  emit_if (some option) buffer = emit_option order option buffer

  -- The rest of the options is the end of the list.
  abbrev pub emit_end : List ℕ → Checked (List ℕ)
  emit_end [] = some []
  emit_end (x ∷ buffer) =
      emit_option order TcpOption.end_of_list (x ∷ buffer) >>= λ (written, rest).
      some (written ++ rest)

  -- The options, in the buffer's part for them.
  unfoldable pub emit_options : TcpRepr → List ℕ → Checked (List ℕ)
  emit_options repr buffer = do
    (size, buffer) ← emit_if (map_option TcpOption.max_segment_size repr.max_seg_size) buffer
    (scale, buffer) ← emit_if (map_option TcpOption.window_scale repr.window_scale) buffer
    (sack, buffer) ← emit_if (sack_option repr) buffer
    last ← emit_end buffer
    some (size ++ (scale ++ (sack ++ last)))

  -- The flag of the control.
  abbrev pub set_control : Control → List ℕ → List ℕ
  set_control Control.plain data_ = data_
  set_control Control.psh data_ = set_flag order flg_psh true data_
  set_control Control.syn data_ = set_flag order flg_syn true data_
  set_control Control.fin data_ = set_flag order flg_fin true data_
  set_control Control.rst data_ = set_flag order flg_rst true data_

  -- The fields in front of the options.
  unfoldable pub emit_header : TcpRepr → List ℕ → List ℕ
  emit_header repr data_ =
      let data_ = set_src_port order repr.src_port data_ in
      let data_ = set_dst_port order repr.dst_port data_ in
      let data_ = set_seq_number order repr.seq_number data_ in
      let data_ = set_ack_number order (unwrap_or repr.ack_number 0) data_ in
      let data_ = set_window_len order repr.window_len data_ in
      let data_ = set_header_len order (Repr.header_len repr % 256) data_ in
      let data_ = clear_flags order data_ in
      let data_ = set_control repr.control data_ in
      set_flag order flg_ack (is_some repr.ack_number) data_

  -- `Repr::emit` behind the fixed fields, for a header that ends at `end_`.
  unfoldable pub emit_at :
      ChecksumCapability → IpAddress → IpAddress → TcpRepr → ℕ → List ℕ → Checked (List ℕ)
  unfolding emit_options fill_checksum
  emit_at caps src_addr dst_addr repr end_ with_header = do
    room ←
        if ltb (length with_header) end_ || ltb end_ 20
        then none
        else some (slice with_header 20 (end_ - 20))
    written ← emit_options repr room
    let with_options = set_urgent_at order 0 (overwrite with_header 20 written)
    with_payload ←
        if ltb (length with_header) (end_ + length repr.payload)
        then none
        else some (overwrite with_options end_ repr.payload)
    if tx caps
        then fill_checksum order src_addr dst_addr with_payload
        else some (set_checksum order 0 with_payload)

  -- `Repr::emit`, with the packet that the buffer holds afterwards. It panics where a part of the
  -- packet lies beyond the buffer.
  unfoldable pub emit :
      ChecksumCapability → IpAddress → IpAddress → TcpRepr → List ℕ → Checked (List ℕ)
  unfolding emit_header emit_at
  emit caps src_addr dst_addr repr data_ =
      if ltb (length data_) 20
      then none
      else let with_header = emit_header repr data_ in
        emit_at caps src_addr dst_addr repr (header_len order with_header) with_header
