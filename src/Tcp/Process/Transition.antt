-- ===== src/Tcp/Process/Transition.antt =====
-- `Socket::process`: "validate and update the state".
use smoltcp.Prelude.{
  ℕ, ◌%◌, ◌^◌, Bool, true, false, ◌||◌, not, Option, none, some, ◌==◌, if◌then◌else◌, Checked,
  ◌>>=◌,
}
use smoltcp.Wire.SeqNumber.{add}
use smoltcp.Wire.Ip.{IpRepr}
use smoltcp.Wire.TcpRepr.{Control, TcpRepr}
use smoltcp.Tcp.State.{State}
use smoltcp.Tcp.Timer.{set_for_idle, set_for_close, is_retransmit}
use smoltcp.Tcp.Congestion
use smoltcp.Tcp.Socket.{Socket, Context, set_state}
use smoltcp.Tcp.Process.Ack.{Acked}

-- Whether `process` goes on or returns without a reply.
pub data Flow : Type 0 where
  go stop : Socket → Flow

-- "Disregard this FIN" if the segment does not start at the window's start.
abbrev pub without_early_fin : Bool → Control → Control
without_early_fin false Control.fin = Control.plain
without_early_fin at_start control = control

-- The MSS option of a SYN, if there is one.
unfoldable pub set_mss : ℕ → Socket → Socket
set_mss mss s = record s {
  remote_mss = mss;
  congestion_controller = Congestion.set_mss mss s.congestion_controller;
}

-- "Remote doesn't support window scaling, don't do it."
abbrev shift_for : Option ℕ → ℕ → ℕ
shift_for none shift = 0
shift_for (some scale) shift = shift

module _ (cx : Context) (ip_repr : IpRepr) (repr : TcpRepr) where
  abbrev pub rearm : Socket → Socket
  rearm s = record s { timer = set_for_idle cx.now s.keep_alive }

  -- SYN in LISTEN, once the MSS is known to be none or not zero.
  unfoldable pub syn_in_listen : Socket → Checked Flow
  syn_in_listen s = do
    remote_seq_no ← add repr.seq_number 1
    some (
        Flow.go (
          rearm (record s {
            tuple = some (record {
              local = record { addr = ip_repr.dst_addr; port = repr.dst_port };
              remote = record { addr = ip_repr.src_addr; port = repr.src_port };
            });
            local_seq_no = cx.rand_u32 % 2 ^ 32;
            remote_seq_no = remote_seq_no;
            remote_last_seq = cx.rand_u32 % 2 ^ 32;
            remote_has_sack = repr.sack_permitted;
            remote_win_scale = repr.window_scale;
            remote_win_shift = shift_for repr.window_scale s.remote_win_shift;
            state = State.syn_received;
          })))

  -- SYN in SYN-SENT, likewise.
  unfoldable pub syn_in_syn_sent : Socket → Checked Flow
  syn_in_syn_sent s = do
    remote_seq_no ← add repr.seq_number 1
    remote_last_seq ← add s.local_seq_no 1
    some (
        Flow.go (
          rearm (record s {
            remote_seq_no = remote_seq_no;
            remote_last_seq = remote_last_seq;
            remote_last_ack = some repr.seq_number;
            remote_win_scale = repr.window_scale;
            remote_win_shift = shift_for repr.window_scale s.remote_win_shift;
            state = State.established;
          })))

  -- A zero MSS option makes the segment ignored.
  unfoldable pub with_mss : (Socket → Checked Flow) → Option ℕ → Socket → Checked Flow
  unfolding set_mss
  with_mss next none s = next s
  with_mss next (some mss) s = if mss == 0 then some (Flow.stop s) else next (set_mss mss s)

  -- A FIN in sequence: it takes a sequence number, and the receive half is closed.
  unfoldable pub take_fin : State → (Socket → Socket) → Socket → Checked Flow
  take_fin state set_timer s = do
    remote_seq_no ← add s.remote_seq_no 1
    some (
        Flow.go (
          set_timer
            (record s { remote_seq_no = remote_seq_no; rx_fin_received = true; state = state })))

  abbrev pub await_close : Socket → Socket
  await_close s = record s { timer = set_for_close cx.now }

  -- "Validate and update the state."
  unfoldable pub step : Acked → State → Control → Socket → Checked Flow
  unfolding syn_in_listen syn_in_syn_sent with_mss take_fin
  step ack State.listen Control.rst s = some (Flow.stop s)
  step ack State.syn_received Control.rst s =
      some (Flow.stop (record s { tuple = none; state = State.listen }))
  step ack _ Control.rst s = some (Flow.stop (record s { tuple = none; state = State.closed }))
  step ack State.listen Control.syn s = with_mss syn_in_listen repr.max_seg_size s
  step ack State.syn_received Control.plain s =
      some (Flow.go (rearm (set_state State.established s)))
  step ack State.syn_received Control.fin s = take_fin State.close_wait rearm s
  step ack State.syn_sent Control.syn s = with_mss syn_in_syn_sent repr.max_seg_size s
  step ack State.established Control.plain s =
      some (Flow.go (if not (is_retransmit s.timer) || ack.ack_all then rearm s else s))
  step ack State.established Control.fin s = take_fin State.close_wait rearm s
  step ack State.fin_wait_1 Control.plain s =
      let s' = (if ack.ack_of_fin then set_state State.fin_wait_2 s else s) in
      some (Flow.go (if ack.ack_all then rearm s' else s'))
  step ack State.fin_wait_1 Control.fin s =
      if ack.ack_of_fin
      then take_fin State.time_wait await_close s
      else take_fin State.closing rearm s
  step ack State.fin_wait_2 Control.plain s = some (Flow.go (rearm s))
  step ack State.fin_wait_2 Control.fin s = take_fin State.time_wait await_close s
  step ack State.closing Control.plain s =
      some (Flow.go (if ack.ack_of_fin then await_close (set_state State.time_wait s) else rearm s))
  step ack State.close_wait Control.plain s = some (Flow.go (rearm s))
  step ack State.last_ack Control.plain s = some (
      Flow.go (if ack.ack_of_fin then record s { state = State.closed; tuple = none } else rearm s))
  step ack _ _ s = some (Flow.stop s)

  unfoldable pub transition : Acked → Control → Socket → Checked Flow
  unfolding step
  transition ack control s = step ack s.state control s
