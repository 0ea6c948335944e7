-- ===== src/Tcp/Socket/Streams.antt =====
-- socket/tcp.rs: the calls of the user as operations on two streams of octets.
use smoltcp.Prelude.{
  ℕ, if◌then◌else◌, ◌==◌, ◌<◌, ◌^◌, ◌≡◌, refl, true, none, some, List, ◌++◌, min, ok, length, take,
  drop, arith, ltb,
}
use smoltcp.Storage.RingBuffer.{window, len}
use smoltcp.Storage.RingBuffer.Order.{IsValid, contents}
use smoltcp.Storage.RingBuffer.Enqueue.{enqueue_slice_lem}
use smoltcp.Storage.RingBuffer.Dequeue.{dequeue_slice_lem}
use smoltcp.Wire.SeqNumber.{add}
use smoltcp.Wire.SeqNumber.Laws.{distance-add}
use smoltcp.Tcp.State.{may_send}
use smoltcp.Tcp.Socket.{Socket, may_recv}
use smoltcp.Tcp.Socket.Queues.{send_slice, recv_error_check, recv_slice}

-- In a state that may send, `send_slice` does not panic: it appends as many of the octets as there is
-- room for to the send queue, and returns how many those were.
pub send_slice_lem :
    (octets : List ℕ) (s : Socket)
    → IsValid s.tx_buffer
    → may_send s.state ≡ true
    → (s' : Socket) × (send_slice octets s
        ≡ some (ok (min (length octets) (window s.tx_buffer)), s'))
      × (contents s'.tx_buffer ≡ contents s.tx_buffer ++ take (window s.tx_buffer) octets)
      × IsValid s'.tx_buffer
unfolding send_slice
send_slice_lem octets s v h =
    let (r', e, q, valid, c) = enqueue_slice_lem octets s.tx_buffer v in
    (
      record s {
        tx_buffer = r';
        remote_last_ts =
            if ltb 0 (min (length octets) (window s.tx_buffer))
            then (if s.tx_buffer.length == 0 then none else s.remote_last_ts)
            else s.remote_last_ts;
      },
      rw (h, e) refl,
      q,
      valid,
    )

no_error : (s : Socket) → may_recv s ≡ true → recv_error_check s ≡ ok tt
unfolding recv_error_check
no_error s h = rw h refl

-- In a state that may receive, with fewer than 2 ^ 31 octets in the receive queue, `recv_slice` does
-- not panic: it takes as many octets as there are from the front of the receive queue, up to the
-- number asked for, and the window of sequence numbers moves on by as many.
pub recv_slice_lem :
    (size : ℕ) (s : Socket)
    → IsValid s.rx_buffer
    → may_recv s ≡ true
    → s.remote_seq_no < 2 ^ 32
    → s.rx_buffer.length < 2 ^ 31
    → (s' : Socket) × (recv_slice size s ≡ some (ok (take size (contents s.rx_buffer)), s'))
      × (contents s'.rx_buffer ≡ drop size (contents s.rx_buffer))
      × (add s.remote_seq_no (min size (len s.rx_buffer)) ≡ some s'.remote_seq_no)
      × IsValid s'.rx_buffer
unfolding recv_slice
recv_slice_lem size s v h l k =
    let (r', e, q, valid) = dequeue_slice_lem size s.rx_buffer v in
    let (b, f, _, _, _) =
      distance-add s.remote_seq_no (min size (len s.rx_buffer)) l (omega arith) in
    (
      record s { rx_buffer = r'; remote_seq_no = b },
      rw (recv_slice, no_error s h, e, f) refl,
      q,
      f,
      valid,
    )
