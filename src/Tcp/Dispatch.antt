-- ===== src/Tcp/Dispatch.antt =====
-- socket/tcp.rs: `Socket::dispatch`, what a socket sends, and `Socket::poll_at`, when it wants to.
--
-- The function is cut where its comments cut it. `emit` is the closure of the caller that places the
-- segment in the device's buffer; the result has the segment that it was handed, if there was one.
-- Neither controller overrides `pre_transmit` and `post_transmit`. `none` is a panic.
pub mod Quiet
pub mod Frame
pub mod Limits
use smoltcp.Prelude.{
  ℕ, ◌+◌, ◌-◌, ◌%◌, ◌^◌, min, Bool, true, false, ◌&&◌, ◌||◌, not, Option, none, some, List, [], ◌∷◌,
  ltb, ◌==◌, if◌then◌else◌, Result, ok, err, Checked, ◌>>=◌, length,
}
use smoltcp.Storage.RingBuffer
use smoltcp.Wire.SeqNumber.{SeqNumber, add, sub, distance, seq_ge}
use smoltcp.Wire.Ip.{IpRepr, same_version}
use smoltcp.Wire.TcpRepr.{Control, TcpRepr, buffer_len, segment_len, repr_is_empty}
use smoltcp.Tcp.State.{State, is_closed}
use smoltcp.Tcp.RttEstimator
use smoltcp.Tcp.Congestion
use smoltcp.Tcp.Timer.{
  PollAt, earlier, AckDelayTimer, should_keep_alive, should_retransmit, should_close, set_for_idle,
  rewind_keep_alive, set_for_retransmit,
}
use smoltcp.Tcp.Timer as Timer
use smoltcp.Tcp.Socket.{Socket, Tuple, Context, reset, set_state}
use smoltcp.Tcp.Segment.{
  Reply, scaled_window, timed_out, delayed_ack_expired, ack_to_transmit, window_to_update,
  local_mss, seq_to_transmit,
}

-- "This socket has been quiet for an indefinite period of time, it isn't anymore."
abbrev pub started_at : ℕ → Option ℕ → Option ℕ
started_at now none = some now
started_at now (some ts) = some ts

unfoldable pub start_clock : Context → Socket → Socket
start_clock cx s = record s { remote_last_ts = started_at cx.now s.remote_last_ts }

-- A retransmission: "rewind last sequence number sent, as if we never had sent them".
unfoldable pub rewind : Context → Socket → Socket
rewind cx s = record s {
  remote_last_seq = s.local_seq_no;
  timer = set_for_idle cx.now s.keep_alive;
  rtte = RttEstimator.on_retransmit s.rtte;
  congestion_controller = Congestion.on_retransmit s.congestion_controller;
}

abbrev pub rewind_if : Context → Option ℕ → Socket → Socket
rewind_if cx none s = s
rewind_if cx (some delta) s = rewind cx s

-- "Check if any state needs to be changed because of a timer."
unfoldable pub expire : Context → Socket → Checked Socket
unfolding rewind
expire cx s = if timed_out s cx.now then some (set_state State.closed s) else do
  pending ← seq_to_transmit cx s
  some (if not pending then rewind_if cx (should_retransmit s.timer cx.now) s else s)

pub data Decision : Type 0 where
  transmit forget rest : Decision

-- "Decide whether we're sending a packet", once there is no data or flag to send.
unfoldable pub decide_idle : Context → Socket → Checked Decision
decide_idle cx s = do
  acknowledge ← ack_to_transmit s
  some (
      if acknowledge && delayed_ack_expired s cx.now
      then Decision.transmit
      else if window_to_update s && delayed_ack_expired s cx.now
      then Decision.transmit
      else if is_closed s.state
      then Decision.transmit
      else if should_keep_alive s.timer cx.now
      then Decision.transmit
      else if should_close s.timer cx.now
      then Decision.forget
      else Decision.rest)

unfoldable pub decide : Context → Socket → Checked Decision
unfolding decide_idle
decide cx s = do
  pending ← seq_to_transmit cx s
  if pending then some Decision.transmit else decide_idle cx s

-- "The lowered IP representation"; `IpRepr::new` panics on addresses of different versions.
unfoldable pub lowered : Socket → Tuple → Checked IpRepr
lowered s tuple =
    if same_version tuple.local.addr tuple.remote.addr
    then some (record {
      src_addr = tuple.local.addr;
      dst_addr = tuple.remote.addr;
      payload_len = 0;
      hop_limit = limit s.hop_limit;
    })
    else none
  where
    limit : Option ℕ → ℕ
    limit none = 64
    limit (some n) = n

-- "The basic TCP representation, an empty ACK packet."
unfoldable pub empty_ack : Socket → Tuple → Checked TcpRepr
empty_ack s tuple = do
  ack ← add s.remote_seq_no (RingBuffer.len s.rx_buffer)
  some (record {
    src_port = tuple.local.port;
    dst_port = tuple.remote.port;
    control = Control.plain;
    seq_number = s.remote_last_seq;
    ack_number = some ack;
    window_len = scaled_window s;
    window_scale = none;
    max_seg_size = none;
    sack_permitted = false;
    sack_ranges = none ∷ none ∷ none ∷ [];
    payload = [];
  })

abbrev scale_offer : Option ℕ → ℕ → Option ℕ
scale_offer none shift = none
scale_offer (some scale) shift = some shift

-- A SYN; its window is not scaled.
unfoldable pub syn_repr : State → Socket → TcpRepr → TcpRepr
syn_repr State.syn_sent s repr = record repr {
  control = Control.syn;
  window_len = min (RingBuffer.window s.rx_buffer) (2 ^ 16 - 1);
  ack_number = none;
  window_scale = some s.remote_win_shift;
  sack_permitted = true;
}
syn_repr _ s repr = record repr {
  control = Control.syn;
  window_len = min (RingBuffer.window s.rx_buffer) (2 ^ 16 - 1);
  sack_permitted = s.remote_has_sack;
  window_scale = scale_offer s.remote_win_scale s.remote_win_shift;
}

-- The octets that the remote window leaves behind what has been sent.
unfoldable pub win_limit : Socket → Checked ℕ
win_limit s = do
  win_right_edge ← add s.local_seq_no s.remote_win_len
  if seq_ge win_right_edge s.remote_last_seq
      then distance win_right_edge s.remote_last_seq
      else some 0

-- The flag of the segment that empties the buffer.
abbrev pub last_control : State → Bool → Control
last_control State.fin_wait_1 empty = Control.fin
last_control State.last_ack empty = Control.fin
last_control State.closing empty = Control.fin
last_control State.established false = Control.psh
last_control State.close_wait false = Control.psh
last_control _ empty = Control.plain

-- "Extract as much data as the remote side can receive in this packet from the transmit buffer."
unfoldable pub data_repr : Context → Tuple → Socket → TcpRepr → Checked TcpRepr
unfolding win_limit
data_repr cx tuple s repr = do
  limit ← win_limit s
  mss ← local_mss cx tuple.local.addr
  offset ← distance s.remote_last_seq s.local_seq_no
  let payload = RingBuffer.get_allocated s.tx_buffer offset (min (min limit s.remote_mss) mss)
  some (record repr {
    payload = payload;
    control =
        if offset + length payload == RingBuffer.len s.tx_buffer
        then last_control s.state (length payload == 0)
        else Control.plain;
  })

-- The segment by the state; `none` in LISTEN, where nothing is ever sent.
unfoldable pub repr_in : Context → Tuple → State → Socket → TcpRepr → Checked (Option TcpRepr)
unfolding syn_repr data_repr
repr_in cx tuple State.closed s repr = some (some (record repr { control = Control.rst }))
repr_in cx tuple State.listen s repr = some none
repr_in cx tuple State.syn_sent s repr = some (some (syn_repr State.syn_sent s repr))
repr_in cx tuple State.syn_received s repr = some (some (syn_repr State.syn_received s repr))
repr_in cx tuple State.fin_wait_2 s repr = some (some repr)
repr_in cx tuple State.time_wait s repr = some (some repr)
repr_in cx tuple _ s repr = data_repr cx tuple s repr >>= λ filled. some (some filled)

-- A keep-alive is "a fake segment" of one octet before the sequence number.
unfoldable pub keep_alive : Bool → TcpRepr → Checked TcpRepr
keep_alive true repr = do
  before ← sub repr.seq_number 1
  some (record repr { seq_number = before; payload = 0 ∷ [] })
keep_alive false repr = some repr

-- "Fill the MSS option" of a SYN.
unfoldable pub offer_mss : Context → Tuple → Control → TcpRepr → Checked TcpRepr
offer_mss cx tuple Control.syn repr = do
  mss ← local_mss cx tuple.local.addr
  some (record repr { max_seg_size = some (mss % 2 ^ 16) })
offer_mss cx tuple _ repr = some repr

-- Whether it is a keep-alive, and the segment that `emit` gets.
unfoldable pub outgoing : Context → Tuple → Socket → Checked (Option (Bool × Reply))
unfolding lowered empty_ack repr_in keep_alive offer_mss
outgoing cx tuple s = do
  ip_repr ← lowered s tuple
  basic ← empty_ack s tuple
  chosen ← repr_in cx tuple s.state s basic
  elim chosen [
    | none ↦ some none
    | some repr ↦ do
      let is_keep_alive = should_keep_alive s.timer cx.now && repr_is_empty repr
      faked ← keep_alive is_keep_alive repr
      final ← offer_mss cx tuple faked.control faked
      some (some (is_keep_alive, (record ip_repr { payload_len = buffer_len final }, final)))
  ]

-- "Rewind the keep-alive timer" and "reset delayed-ack timer".
unfoldable pub note_sent : Context → Socket → Socket
note_sent cx s = record s {
  timer = rewind_keep_alive s.timer cx.now s.keep_alive;
  ack_delay_timer = AckDelayTimer.idle;
}

-- The timer is wound up once all data that could be sent has been.
unfoldable pub wind_up : Context → ℕ → Socket → Checked Socket
wind_up cx sent_len s = do
  pending ← seq_to_transmit cx s
  some (
      if not pending && ltb 0 sent_len
      then record s {
        timer = set_for_retransmit s.timer cx.now (RttEstimator.retransmission_timeout s.rtte);
      }
      else s)

-- "When aborting a connection, forget about it after sending a single RST packet."
unfoldable pub forget_aborted : Socket → Socket
forget_aborted s = if is_closed s.state then record s { tuple = none } else s

-- "We've sent a packet successfully, so we can update the internal state now."
unfoldable pub after_send : Context → TcpRepr → Socket → Checked Socket
unfolding wind_up forget_aborted
after_send cx repr s = do
  sent_to ← add repr.seq_number (segment_len repr)
  s' ← wind_up cx (segment_len repr) (record s {
    remote_last_seq = sent_to;
    remote_last_ack = repr.ack_number;
    remote_last_win = repr.window_len;
    rtte = if ltb 0 (segment_len repr) then RttEstimator.on_send cx.now sent_to s.rtte else s.rtte;
  })
  some (forget_aborted s')

module _ {E : Type 0} (cx : Context) (emit : Reply → Result E (Unit {0})) where
  -- What a call of `dispatch` does: the segment that it handed to `emit`, its result, and the socket.
  abbrev pub Outcome : Type 0
  Outcome = Option Reply × Result E (Unit {0}) × Socket

  unfoldable pub emit_segment : Bool → Reply → Socket → Checked Outcome
  unfolding note_sent after_send
  emit_segment is_keep_alive segment s = elim (emit segment) [
    | err e ↦ some (some segment, err e, s)
    | ok _ ↦
        if is_keep_alive
        then some (some segment, ok tt, note_sent cx s)
        else (after_send cx segment.1 (note_sent cx s) >>= λ s'. some (some segment, ok tt, s'))
  ]

  unfoldable pub transmit_now : Tuple → Socket → Checked Outcome
  unfolding outgoing emit_segment
  transmit_now tuple s = do
    segment ← outgoing cx tuple s
    elim segment [
      | none ↦ some (none, ok tt, s)
      | some (is_keep_alive, reply) ↦ emit_segment is_keep_alive reply s
    ]

  unfoldable pub act : Tuple → Decision → Socket → Checked Outcome
  unfolding transmit_now
  act tuple Decision.transmit s = transmit_now tuple s
  act tuple Decision.forget s = some (none, ok tt, reset s)
  act tuple Decision.rest s = some (none, ok tt, s)

  -- `Socket::dispatch`
  unfoldable pub dispatch_to : Option Tuple → Socket → Checked Outcome
  unfolding start_clock expire decide act
  dispatch_to none s = some (none, ok tt, s)
  dispatch_to (some tuple) s = do
    s' ← expire cx (start_clock cx s)
    decision ← decide cx s'
    act tuple decision s'

  unfoldable pub dispatch : Socket → Checked Outcome
  unfolding dispatch_to
  dispatch s = dispatch_to s.tuple s

-- When a delayed acknowledgement is due.
unfoldable pub delayed_ack_poll_at : Bool → AckDelayTimer → PollAt
delayed_ack_poll_at false timer = PollAt.ingress
delayed_ack_poll_at true AckDelayTimer.idle = PollAt.now
delayed_ack_poll_at true (AckDelayTimer.waiting t) = PollAt.time t
delayed_ack_poll_at true AckDelayTimer.immediate = PollAt.now

unfoldable pub timeout_poll_at : Option ℕ → Option ℕ → PollAt
timeout_poll_at none timeout = PollAt.ingress
timeout_poll_at (some remote_last_ts) none = PollAt.ingress
timeout_poll_at (some remote_last_ts) (some timeout) = PollAt.time (remote_last_ts + timeout)

-- "We wait for the earliest of our timers to fire."
unfoldable pub poll_timers : Socket → Checked PollAt
unfolding delayed_ack_poll_at timeout_poll_at
poll_timers s = do
  acknowledge ← ack_to_transmit s
  let want_ack = acknowledge || window_to_update s
  some (
      earlier (earlier (Timer.poll_at s.timer) (timeout_poll_at s.remote_last_ts s.timeout))
        (delayed_ack_poll_at want_ack s.ack_delay_timer))

abbrev is_none {ℓ} : {A : Type ℓ} → Option A → Bool
is_none none = true
is_none (some a) = false

-- `Socket::poll_at`
unfoldable pub poll_at : Context → Socket → Checked PollAt
unfolding poll_timers
poll_at cx s =
    if is_none s.tuple
    then some PollAt.ingress
    else if is_none s.remote_last_ts
    then some PollAt.now
    else if is_closed s.state
    then some PollAt.now
    else do pending ← seq_to_transmit cx s; if pending then some PollAt.now else poll_timers s
