-- ===== src/Tcp/Process/Payload.antt =====
-- `Socket::process`: the payload goes into the assembler and the receive buffer.
use smoltcp.Prelude.{
  ℕ, ◌+◌, Bool, ◌||◌, not, Option, none, some, List, ◌==◌, if◌then◌else◌, ok, err, Checked, ◌>>=◌,
  length,
}
use smoltcp.Storage.Assembler
use smoltcp.Storage.RingBuffer
use smoltcp.Wire.Ip.{IpRepr}
use smoltcp.Wire.TcpRepr.{TcpRepr}
use smoltcp.Tcp.Timer.{AckDelayTimer}
use smoltcp.Tcp.Socket.{Socket, Context}
use smoltcp.Tcp.Segment.{Reply, ack_reply, ack_to_transmit, window_to_update}

-- "Place payload octets into the buffer", and enqueue those that are contiguous.
unfoldable pub place : List ℕ → ℕ → ℕ → Socket → Checked Socket
place payload offset contig_len s = do
  let (len_written, written) = RingBuffer.write_unallocated s.rx_buffer offset payload
  rx_buffer ←
      (if contig_len == 0 then some written else RingBuffer.enqueue_unallocated written contig_len)
  some (record s { rx_buffer = rx_buffer })

-- The delayed acknowledgement timer: every second segment is acknowledged at once.
abbrev pub next_delay : Context → ℕ → AckDelayTimer → AckDelayTimer
next_delay cx ack_delay AckDelayTimer.idle = AckDelayTimer.waiting (cx.now + ack_delay)
next_delay cx ack_delay (AckDelayTimer.waiting t) = AckDelayTimer.immediate
next_delay cx ack_delay AckDelayTimer.immediate = AckDelayTimer.immediate

-- "Handle delayed acks."
unfoldable pub delay_ack : Context → Socket → Checked Socket
delay_ack cx s = elim s.ack_delay [
  | none ↦ some s
  | some ack_delay ↦ do
    to_transmit ← ack_to_transmit s
    some (
        if to_transmit || window_to_update s
        then record s { ack_delay_timer = next_delay cx ack_delay s.ack_delay_timer }
        else s)
]

-- The acknowledgement that goes out at once, for a segment out of order or into a gap.
unfoldable pub immediate_ack : IpRepr → TcpRepr → Bool → Socket → Checked (Option Reply × Socket)
immediate_ack ip_repr repr assembler_was_empty s =
    if not (Assembler.is_empty s.assembler) || not assembler_was_empty
    then (do (answer, s') ← ack_reply ip_repr repr s; some (some answer, s'))
    else some (none, s)

-- `process` from `let payload_len` on.
unfoldable pub receive :
    Context → IpRepr → TcpRepr → List ℕ → ℕ → Socket → Checked (Option Reply × Socket)
unfolding place delay_ack immediate_ack
receive cx ip_repr repr payload offset s =
    if length payload == 0
    then some (none, s)
    else elim (Assembler.add_then_remove_front s.assembler offset (length payload)) [
      | err _ ↦ some (none, s)
      | ok (contig_len, assembler) ↦ (do
        s1 ← place payload offset contig_len (record s { assembler = assembler })
        s2 ← delay_ack cx s1
        immediate_ack ip_repr repr (Assembler.is_empty s.assembler) s2)
    ]
