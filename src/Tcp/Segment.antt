-- ===== src/Tcp/Segment.antt =====
-- socket/tcp.rs: what the socket sends by itself in answer to a segment, and the tests that
-- `dispatch` and `process` share.
use smoltcp.Prelude.{
  ℕ, ◌+◌, ◌-◌, ◌/◌, ◌%◌, ◌^◌, min, Bool, true, false, ◌&&◌, ◌||◌, not, Option, none, some, List, [],
  ◌∷◌, ltb, leb, ◌==◌, if◌then◌else◌, Checked, ◌>>=◌,
}
use smoltcp.Storage.Assembler.{iter_data}
use smoltcp.Storage.RingBuffer
use smoltcp.Wire.SeqNumber.{SeqNumber, add, distance, seq_lt, seq_ge}
use smoltcp.Wire.Ip.{IpAddress, IpRepr, ip_header_len}
use smoltcp.Wire.TcpRepr.{Control, TcpRepr, buffer_len, segment_len}
use smoltcp.Tcp.State.{State}
use smoltcp.Tcp.Timer.{AckDelayTimer}
use smoltcp.Tcp.Congestion
use smoltcp.Tcp.Socket.{Socket, Context}

-- A segment on its way out.
abbrev pub Reply : Type 0
Reply = IpRepr × TcpRepr

-- `scaled_window`
abbrev pub scaled_window : Socket → ℕ
scaled_window s = min (RingBuffer.window s.rx_buffer / 2 ^ s.remote_win_shift) (2 ^ 16 - 1)

-- `Socket::reply`
unfoldable pub reply : IpRepr → TcpRepr → Reply
reply ip_repr repr = (
  record {
    src_addr = ip_repr.dst_addr;
    dst_addr = ip_repr.src_addr;
    payload_len = buffer_len reply_repr;
    hop_limit = 64;
  },
  reply_repr,
)
  where
    reply_repr : TcpRepr
    reply_repr = record {
      src_port = repr.dst_port;
      dst_port = repr.src_port;
      control = Control.plain;
      seq_number = 0;
      ack_number = none;
      window_len = 0;
      window_scale = none;
      max_seg_size = none;
      sack_permitted = false;
      sack_ranges = none ∷ none ∷ none ∷ [];
      payload = [];
    }

abbrev or_zero : Option SeqNumber → SeqNumber
or_zero none = 0
or_zero (some seq) = seq

-- The acknowledgement of `rst_reply`: that of a SYN without an ACK.
abbrev rst_ack : TcpRepr → Control → Option SeqNumber → Checked (Option SeqNumber)
rst_ack repr Control.syn none = add repr.seq_number (segment_len repr) >>= λ ack. some (some ack)
rst_ack repr Control.syn (some ack) = some none
rst_ack repr Control.plain ack = some none
rst_ack repr Control.psh ack = some none
rst_ack repr Control.fin ack = some none
rst_ack repr Control.rst ack = some none

-- `rst_reply`
unfoldable pub rst_reply : IpRepr → TcpRepr → Checked Reply
unfolding reply
rst_reply ip_repr repr = do
  ack ← rst_ack repr repr.control repr.ack_number
  let (ip_reply_repr, reply_repr) = reply ip_repr repr
  some (
    ip_reply_repr,
    record reply_repr {
      control = Control.rst;
      seq_number = or_zero repr.ack_number;
      ack_number = ack;
    },
  )

-- `as u32`
abbrev to_u32 : ℕ × ℕ → ℕ × ℕ
to_u32 (left, right) = (left % 2 ^ 32, right % 2 ^ 32)

-- The range that holds the sequence number of the last segment.
find_range : SeqNumber → List (ℕ × ℕ) → Option (ℕ × ℕ)
find_range seq [] = none
find_range seq (range ∷ ranges) =
    let (left, right) = to_u32 range in
    if leb left seq && leb seq right then some (left, right) else find_range seq ranges

first_range : List (ℕ × ℕ) → Option (ℕ × ℕ)
first_range [] = none
first_range (range ∷ ranges) = some (to_u32 range)

abbrev or_else : Option (ℕ × ℕ) → Option (ℕ × ℕ) → Option (ℕ × ℕ)
or_else none r = r
or_else (some a) r = some a

-- `s.0 as usize` of an `i32`: sign-extended to 64 bits.
abbrev sign_extend : SeqNumber → ℕ
sign_extend seq = if ltb seq (2 ^ 31) then seq else seq + (2 ^ 64 - 2 ^ 32)

-- The selective acknowledgement range of `ack_reply`.
pub sack_range : Socket → SeqNumber → Option (ℕ × ℕ)
unfolding find_range first_range
sack_range s ack = or_else (last_range s.local_rx_last_seq) (first_range ranges)
  where
    ranges : List (ℕ × ℕ)
    ranges = iter_data s.assembler (sign_extend ack)

    last_range : Option SeqNumber → Option (ℕ × ℕ)
    last_range none = none
    last_range (some seq) = find_range seq ranges

-- `ack_reply`
unfoldable pub ack_reply : IpRepr → TcpRepr → Socket → Checked (Reply × Socket)
unfolding reply
ack_reply ip_repr repr s = do
  ack ← add s.remote_seq_no s.rx_buffer.length
  let (ip_reply_repr, plain_repr) = reply ip_repr repr
  let sacked = (if s.remote_has_sack then sack_range s ack else none)
  let reply_repr = record plain_repr {
    seq_number = s.remote_last_seq;
    ack_number = some ack;
    window_len = scaled_window s;
    sack_ranges = sacked ∷ none ∷ none ∷ [];
  }
  some (
    (record ip_reply_repr { payload_len = buffer_len reply_repr }, reply_repr),
    record s { remote_last_ack = some ack; remote_last_win = scaled_window s },
  )

-- `challenge_ack_reply`, at most once a second.
unfoldable pub challenge_ack_reply :
    Context → IpRepr → TcpRepr → Socket → Checked (Option Reply × Socket)
unfolding ack_reply
challenge_ack_reply cx ip_repr repr s =
    if ltb cx.now s.challenge_ack_timer then some (none, s) else do
      (answer, s') ← ack_reply ip_repr repr (record s { challenge_ack_timer = cx.now + 1000000 })
      some (some answer, s')

abbrev pub passed : Option ℕ → Option ℕ → ℕ → Bool
passed none timeout timestamp = false
passed (some remote_last_ts) none timestamp = false
passed (some remote_last_ts) (some timeout) timestamp = leb (remote_last_ts + timeout) timestamp

-- `timed_out`
unfoldable pub timed_out : Socket → ℕ → Bool
timed_out s timestamp = passed s.remote_last_ts s.timeout timestamp

abbrev pub expired : AckDelayTimer → ℕ → Bool
expired AckDelayTimer.idle timestamp = true
expired (AckDelayTimer.waiting t) timestamp = leb t timestamp
expired AckDelayTimer.immediate timestamp = true

-- `delayed_ack_expired`
unfoldable pub delayed_ack_expired : Socket → ℕ → Bool
delayed_ack_expired s timestamp = expired s.ack_delay_timer timestamp

-- `ack_to_transmit`
unfoldable pub ack_to_transmit : Socket → Checked Bool
ack_to_transmit s = elim s.remote_last_ack [
  | none ↦ some false
  | some remote_last_ack ↦ do
    ack ← add s.remote_seq_no s.rx_buffer.length
    some (seq_lt remote_last_ack ack)
]

-- `window_to_update`
unfoldable pub window_to_update : Socket → Bool
window_to_update s = by_state s.state
  where
    larger : Bool
    larger = ltb s.remote_last_win (scaled_window s)

    by_state : State → Bool
    by_state State.syn_sent = larger
    by_state State.syn_received = larger
    by_state State.established = larger
    by_state State.fin_wait_1 = larger
    by_state State.fin_wait_2 = larger
    by_state _ = false

-- The MTU less both headers; a smaller MTU makes the subtraction panic.
unfoldable pub local_mss : Context → IpAddress → Checked ℕ
local_mss cx addr =
    if leb (ip_header_len addr + 20) cx.ip_mtu
    then some (cx.ip_mtu - ip_header_len addr - 20)
    else none

abbrev sends_syn : State → Bool
sends_syn State.syn_sent = true
sends_syn State.syn_received = true
sends_syn _ = false

abbrev pub wants_fin : State → Bool
wants_fin State.fin_wait_1 = true
wants_fin State.closing = true
wants_fin State.last_ack = true
wants_fin _ = false

-- `seq_to_transmit` after the test for a SYN: is there data or a FIN to send?
unfoldable pub data_or_fin : ℕ → Bool → Socket → Checked Bool
data_or_fin effective_mss data_in_flight s = do
  max_send_seq ← add s.local_seq_no (min s.remote_win_len s.tx_buffer.length)
  unsent ←
      (if seq_ge max_send_seq s.remote_last_seq
        then distance max_send_seq s.remote_last_seq
        else some 0)
  let max_send = min unsent (Congestion.window s.congestion_controller)
  let nagled =
      s.nagle && data_in_flight && not (leb effective_mss max_send) && not (wants_fin s.state)
  let can_send = not (max_send == 0) && not nagled
  can_fin ←
      (if wants_fin s.state
        then (add s.local_seq_no s.tx_buffer.length >>= λ all. some (s.remote_last_seq == all))
        else some false)
  some (can_send || can_fin)

-- `seq_to_transmit`
unfoldable pub seq_to_transmit : Context → Socket → Checked Bool
unfolding local_mss data_or_fin
seq_to_transmit cx s = elim s.tuple [
  | none ↦ none
  | some tuple ↦ do
    mss ← local_mss cx tuple.local.addr
    let data_in_flight = not (s.remote_last_seq == s.local_seq_no)
    if sends_syn s.state && not data_in_flight
        then some true
        else data_or_fin (min mss s.remote_mss) data_in_flight s
]
