-- ===== src/Tcp/Process/Validity.antt =====
-- `Socket::process` as a whole keeps the buffers well formed.
use smoltcp.Prelude.{
  ℕ, refl, Bool, none, some, List, [], ◌>>=◌, Returns, Returns-bind, Returns-then,
}
use smoltcp.Wire.Ip.{IpRepr}
use smoltcp.Wire.TcpRepr.{Control, TcpRepr, quash_psh}
use smoltcp.Tcp.State.{State}
use smoltcp.Tcp.Socket.{Socket, Context}
use smoltcp.Tcp.Segment.{rst_reply, challenge_ack_reply}
use smoltcp.Tcp.Process.{process, check_window, accept_segment, restart_close}
use smoltcp.Tcp.Process.Ack.{Acked, Verdict, ack_verdict, acked, note_ack}
use smoltcp.Tcp.Process.Window.{Segment, segment}
use smoltcp.Tcp.Process.Transition.{Flow, without_early_fin, transition}
use smoltcp.Tcp.Process.Update.{update_remote}
use smoltcp.Tcp.Process.Payload.{receive}
use smoltcp.Tcp.Process.Buffers.{
  BuffersValid, OutValid, same_buffers, challenge_ack_reply-BuffersValid, note_ack-BuffersValid,
  update_remote-BuffersValid,
}
use smoltcp.Tcp.Process.BuffersKept.{FlowValid, step-BuffersValid, receive-BuffersValid}

module _ (cx : Context) (ip_repr : IpRepr) (repr : TcpRepr) where
  transition-BuffersValid :
      (ack : Acked) (control : Control) (s : Socket)
      → BuffersValid s
      → Returns FlowValid (transition cx ip_repr repr ack control s)
  unfolding transition
  transition-BuffersValid ack control s v =
      step-BuffersValid cx ip_repr repr ack s.state control s v

  after_transition-BuffersValid :
      (payload : List ℕ) (offset : ℕ) (ack : Acked) (flow : Flow)
      → FlowValid flow
      → Returns OutValid (elim flow [
        | Flow.stop s2 ↦ some (none, s2)
        | Flow.go s2 ↦ update_remote cx repr ack s2 >>= receive cx ip_repr repr payload offset
      ])
  after_transition-BuffersValid payload offset ack (Flow.stop s2) v = v
  after_transition-BuffersValid payload offset ack (Flow.go s2) v =
      Returns-bind BuffersValid OutValid (update_remote cx repr ack s2) _
        (update_remote-BuffersValid cx repr ack s2 v)
        (λ s3 v3. receive-BuffersValid cx ip_repr repr payload offset s3 v3)

  accept_segment-BuffersValid :
      (payload : List ℕ) (offset : ℕ) (at_start : Bool) (s : Socket)
      → BuffersValid s
      → Returns OutValid (accept_segment cx ip_repr repr payload offset at_start s)
  unfolding accept_segment
  accept_segment-BuffersValid payload offset at_start s v =
      Returns-then OutValid (acked repr s) _ (λ ack.
        Returns-bind FlowValid OutValid
          (transition cx ip_repr repr ack (without_early_fin at_start (quash_psh repr.control))
            (note_ack cx repr ack s))
          _ (transition-BuffersValid ack _ _ (note_ack-BuffersValid cx repr ack s v))
          (λ flow kept. after_transition-BuffersValid payload offset ack flow kept))

  restart_close-BuffersValid :
      (st : State) (s : Socket) → BuffersValid s → BuffersValid (restart_close cx st s)
  restart_close-BuffersValid State.time_wait s v = same_buffers s _ (refl, refl, refl) v
  restart_close-BuffersValid st s v = v

  check_window-BuffersValid :
      (s : Socket) → BuffersValid s → Returns OutValid (check_window cx ip_repr repr s)
  unfolding check_window
  check_window-BuffersValid s v = Returns-then OutValid (segment repr s) _ of_part
    where
      of_part :
          (part : Segment)
          → Returns OutValid (elim part [
            | Segment.outside ↦ challenge_ack_reply cx ip_repr repr (restart_close cx s.state s)
            | Segment.inside payload offset at_start ↦
                accept_segment cx ip_repr repr payload offset at_start
                  (record s { local_rx_last_seq = some repr.seq_number })
            | Segment.unsynchronized at_start ↦ accept_segment cx ip_repr repr [] 0 at_start s
          ])
      of_part Segment.outside =
          challenge_ack_reply-BuffersValid cx ip_repr repr _
            (restart_close-BuffersValid s.state s v)
      of_part (Segment.inside payload offset at_start) =
          accept_segment-BuffersValid payload offset at_start
            (record s { local_rx_last_seq = some repr.seq_number })
            (same_buffers s _ (refl, refl, refl) v)
      of_part (Segment.unsynchronized at_start) = accept_segment-BuffersValid [] 0 at_start s v

  pub process-BuffersValid :
      (s : Socket) → BuffersValid s → Returns OutValid (process cx ip_repr repr s)
  unfolding process
  process-BuffersValid s v =
      Returns-then OutValid (ack_verdict s s.state repr.control repr.ack_number) _ answer
    where
      answer :
          (verdict : Verdict)
          → Returns OutValid (elim verdict [
            | Verdict.accept ↦ check_window cx ip_repr repr s
            | Verdict.drop ↦ some (none, s)
            | Verdict.send_rst ↦ (do answer ← rst_reply ip_repr repr; some (some answer, s))
            | Verdict.challenge ↦ challenge_ack_reply cx ip_repr repr s
          ])
      answer Verdict.accept = check_window-BuffersValid s v
      answer Verdict.drop = v
      answer Verdict.send_rst = Returns-then OutValid (rst_reply ip_repr repr) _ (λ r. v)
      answer Verdict.challenge = challenge_ack_reply-BuffersValid cx ip_repr repr s v
