-- ===== src/Tcp/Process.antt =====
-- socket/tcp.rs: `Socket::process`, what a socket does with a segment that it accepts.
--
-- The function is cut where its comments cut it; each part is a definition, and `process` runs them
-- in the source's order. `none` is a panic.
pub mod Ack
pub mod Window
pub mod Transition
pub mod Update
pub mod Payload
pub mod Frame
pub mod Buffers
pub mod BuffersKept
pub mod Validity
pub mod AckRange
pub mod AckBounds
pub mod InWindow
pub mod Edges
pub mod Arrival
use smoltcp.Prelude.{
  ℕ, ◌+◌, Bool, true, false, Option, none, some, List, [], if◌then◌else◌, Checked, ◌>>=◌, length,
}
use smoltcp.Wire.SeqNumber.{SeqNumber}
use smoltcp.Wire.Ip.{IpRepr}
use smoltcp.Wire.TcpRepr.{Control, TcpRepr, quash_psh}
use smoltcp.Tcp.State.{State}
use smoltcp.Tcp.Timer.{set_for_close}
use smoltcp.Tcp.Socket.{Socket, Context}
use smoltcp.Tcp.Segment.{Reply, rst_reply, challenge_ack_reply}
use Ack.{Verdict, ack_verdict, sent_syn, Acked, acked, note_ack}
use Window.{Segment, segment}
use Transition.{Flow, transition, without_early_fin}
use Update.{update_remote}
use Payload.{receive}

-- `process` from the computation of the acknowledged octets on, for the part of the payload that
-- lies in the window.
unfoldable pub accept_segment :
    Context → IpRepr → TcpRepr → List ℕ → ℕ → Bool → Socket → Checked (Option Reply × Socket)
accept_segment cx ip_repr repr payload payload_offset at_start s = do
  ack ← acked repr s
  s1 ← some (note_ack cx repr ack s)
  flow ← transition cx ip_repr repr ack (without_early_fin at_start (quash_psh repr.control)) s1
  elim flow [
    | Flow.stop s2 ↦ some (none, s2)
    | Flow.go s2 ↦ update_remote cx repr ack s2 >>= receive cx ip_repr repr payload payload_offset
  ]

-- In the TIME-WAIT state a segment outside the window restarts the timeout.
abbrev pub restart_close : Context → State → Socket → Socket
restart_close cx State.time_wait s = record s { timer = set_for_close cx.now }
restart_close cx _ s = s

-- `process` from the computation of the window on.
unfoldable pub check_window : Context → IpRepr → TcpRepr → Socket → Checked (Option Reply × Socket)
unfolding accept_segment
check_window cx ip_repr repr s = do
  part ← segment repr s
  elim part [
    | Segment.outside ↦ challenge_ack_reply cx ip_repr repr (restart_close cx s.state s)
    | Segment.inside payload offset at_start ↦
        accept_segment cx ip_repr repr payload offset at_start
          (record s { local_rx_last_seq = some repr.seq_number })
    | Segment.unsynchronized at_start ↦ accept_segment cx ip_repr repr [] 0 at_start s
  ]

-- `Socket::process`
unfoldable pub process : Context → IpRepr → TcpRepr → Socket → Checked (Option Reply × Socket)
unfolding check_window
process cx ip_repr repr s = do
  verdict ← ack_verdict s s.state repr.control repr.ack_number
  elim verdict [
    | Verdict.accept ↦ check_window cx ip_repr repr s
    | Verdict.drop ↦ some (none, s)
    | Verdict.send_rst ↦ (do answer ← rst_reply ip_repr repr; some (some answer, s))
    | Verdict.challenge ↦ challenge_ack_reply cx ip_repr repr s
  ]
