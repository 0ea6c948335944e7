-- ===== src/Tcp/Socket/Queues.antt =====
-- socket/tcp.rs: the calls that move octets between the user and the socket's buffers.
use smoltcp.Prelude.{
  ℕ, none, some, List, ltb, ◌==◌, if◌then◌else◌, Result, ok, err, Checked, ◌>>=◌, not,
}
use smoltcp.Storage.RingBuffer
use smoltcp.Storage.RingBuffer.{RingBuffer}
use smoltcp.Wire.SeqNumber.{add}
use smoltcp.Tcp.State.{may_send}
use smoltcp.Tcp.Socket.{Socket, may_recv}

pub data SendError : Type 0 where
  invalid_state : SendError

pub data RecvError : Type 0 where
  invalid_state finished : RecvError

-- `send_impl` with the queue call of `send_slice`: how many octets were enqueued.
unfoldable pub send_slice : List ℕ → Socket → Checked (Result SendError ℕ × Socket)
send_slice octets s = if not (may_send s.state) then some (err SendError.invalid_state, s) else do
  (size, tx_buffer) ← RingBuffer.enqueue_slice octets s.tx_buffer
  some (
    ok size,
    record s {
      tx_buffer = tx_buffer;
      remote_last_ts =
          if ltb 0 size
          then (if s.tx_buffer.length == 0 then none else s.remote_last_ts)
          else s.remote_last_ts;
    },
  )

unfoldable pub recv_error_check : Socket → Result RecvError (Unit {0})
recv_error_check s =
    if not (may_recv s)
    then (if s.rx_fin_received then err finished else err RecvError.invalid_state)
    else ok tt

-- `recv_impl` with the queue call of `recv_slice`, into a slice of `size` octets: the octets.
unfoldable pub recv_slice : ℕ → Socket → Checked (Result RecvError (List ℕ) × Socket)
unfolding recv_error_check
recv_slice size s = elim (recv_error_check s) [
  | err e ↦ some (err e, s)
  | ok _ ↦ do
    (count, octets, rx_buffer) ← RingBuffer.dequeue_slice size s.rx_buffer
    remote_seq_no ← add s.remote_seq_no count
    some (ok octets, record s { rx_buffer = rx_buffer; remote_seq_no = remote_seq_no })
]

-- `peek`
unfoldable pub peek : ℕ → Socket → Result RecvError (List ℕ)
unfolding recv_error_check
peek size s = elim (recv_error_check s) [
  | err e ↦ err e
  | ok _ ↦ ok (RingBuffer.get_allocated s.rx_buffer 0 size)
]
