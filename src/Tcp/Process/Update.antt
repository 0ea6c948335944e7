-- ===== src/Tcp/Process/Update.antt =====
-- `Socket::process`: "update remote state", from the last received time to the sequence numbers.
use smoltcp.Prelude.{
  ℕ, ◌+◌, ◌*◌, ◌^◌, min, Bool, false, ◌&&◌, Option, none, some, ltb, ◌==◌, if◌then◌else◌, Checked,
  ◌>>=◌, length,
}
use smoltcp.Storage.RingBuffer
use smoltcp.Wire.SeqNumber.{SeqNumber, seq_lt}
use smoltcp.Wire.TcpRepr.{Control, TcpRepr}
use smoltcp.Tcp.Timer.{set_for_fast_retransmit}
use smoltcp.Tcp.Congestion
use smoltcp.Tcp.Socket.{Socket, Context}
use smoltcp.Tcp.Process.Ack.{Acked}

-- The window of a SYN is not scaled.
abbrev pub scale_of : Control → Option ℕ → ℕ
scale_of Control.syn _ = 0
scale_of _ none = 0
scale_of _ (some scale) = scale

unfoldable pub new_window : TcpRepr → Socket → ℕ
new_window repr s = repr.window_len * 2 ^ scale_of repr.control s.remote_win_scale

-- Last time, window and congestion window.
unfoldable pub update_window : Context → TcpRepr → Socket → Socket
unfolding new_window
update_window cx repr s = record s {
  remote_last_ts = some cx.now;
  remote_win_len = new_window repr s;
  congestion_controller = Congestion.set_remote_window (new_window repr s) s.congestion_controller;
}

-- "Dequeue acknowledged octets."
unfoldable pub dequeue_acked : ℕ → Socket → Checked Socket
dequeue_acked ack_len s =
    if ltb 0 ack_len
    then (do
      tx_buffer ← RingBuffer.dequeue_allocated s.tx_buffer ack_len
      some (record s { tx_buffer = tx_buffer }))
    else some s

abbrev is_same : Option SeqNumber → SeqNumber → Bool
is_same none ack_number = false
is_same (some last_rx_ack) ack_number = last_rx_ack == ack_number

-- Whether an acknowledgement is a duplicate; `old_window` is the window before this segment.
unfoldable pub is_duplicate : TcpRepr → SeqNumber → ℕ → Socket → Bool
is_duplicate repr ack_number old_window s =
    (length repr.payload == 0)
    && is_same s.local_rx_last_ack ack_number
    && seq_lt ack_number s.remote_last_seq
    && (s.remote_win_len == old_window)

-- "Detect and react to duplicate ACKs."
unfoldable pub note_duplicate : TcpRepr → SeqNumber → ℕ → Socket → Socket
unfolding is_duplicate
note_duplicate repr ack_number old_window s =
    if is_duplicate repr ack_number old_window s
    then record s {
      local_rx_dup_acks = dup_acks;
      congestion_controller = Congestion.on_duplicate_ack s.congestion_controller;
      timer = if dup_acks == 3 then set_for_fast_retransmit else s.timer;
    }
    else record s { local_rx_dup_acks = 0; local_rx_last_ack = some ack_number }
  where
    dup_acks : ℕ
    dup_acks = min (s.local_rx_dup_acks + 1) 255

-- "Advance the local sequence number past it."
unfoldable pub advance_local : SeqNumber → Socket → Socket
advance_local ack_number s = record s {
  local_seq_no = ack_number;
  remote_last_seq = if seq_lt s.remote_last_seq ack_number then ack_number else s.remote_last_seq;
}

unfoldable pub handle_ack : TcpRepr → Option SeqNumber → ℕ → Socket → Socket
unfolding note_duplicate advance_local
handle_ack repr none old_window s = s
handle_ack repr (some ack_number) old_window s =
    advance_local ack_number (note_duplicate repr ack_number old_window s)

unfoldable pub update_remote : Context → TcpRepr → Acked → Socket → Checked Socket
unfolding update_window dequeue_acked handle_ack
update_remote cx repr ack s = do
  s' ← dequeue_acked ack.ack_len (update_window cx repr s)
  some (handle_ack repr repr.ack_number s.remote_win_len s')
