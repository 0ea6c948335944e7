-- ===== src/Tcp/Process/Arrival.antt =====
-- `Socket::process` as a whole: it follows the state diagram, and keeps the endpoints that each state
-- wants.
use smoltcp.Prelude.{
  ℕ, ◌+◌, ◌-◌, ◌%◌, ◌^◌, ◌≡◌, refl, subst, Bool, Bool-cases, inl, inr, not, ltb, ◌==◌, length,
  Checked, Returns-if, true, false, Option, none, some, List, ◌>>=◌, [], Returns, Returns-bind,
  Returns-then, Returns-weaken, Returns-elim,
}
use smoltcp.Storage.RingBuffer
use smoltcp.Wire.SeqNumber.{SeqNumber, add, distance, seq_max, seq_min}
use smoltcp.Wire.Ip.{IpRepr}
use smoltcp.Wire.TcpRepr.{Control, TcpRepr, quash_psh}
use smoltcp.Tcp.State.{State}
use smoltcp.Tcp.Socket.{Socket, Context}
use smoltcp.Tcp.Segment.{Reply, rst_reply, challenge_ack_reply}
use smoltcp.Tcp.Process.{process, check_window, accept_segment, restart_close}
use smoltcp.Tcp.Process.Ack.{Acked, Verdict, ack_verdict, acked, note_ack}
use smoltcp.Tcp.Process.Window.{
  Segment, segment, segment_in_window, overlap, payload_slice, is_synchronized,
}
use smoltcp.Tcp.Process.Transition.{Flow, without_early_fin, transition}
use smoltcp.Tcp.Process.Update.{update_remote}
use smoltcp.Tcp.Process.Payload.{receive}
use smoltcp.Tcp.Process.Frame.{
  Keeps, Keeps-refl, challenge_ack_reply-Keeps, note_ack-Keeps, update_remote-Keeps, receive-Keeps,
}
use smoltcp.Tcp.Process.Edges.{
  Edge, taken, HasEndpoints, Moves, socket_of, stays, Moves-Keeps, step-Moves,
}

-- Whether a segment starts where the receive window does.
abbrev pub starts_window : TcpRepr → Socket → Bool
starts_window repr s = (s.remote_seq_no + s.rx_buffer.length) % 2 ^ 32 == repr.seq_number

-- What `segment` finds says so.
abbrev Starts : Bool → Segment → Type 0
Starts b Segment.outside = Unit
Starts b (Segment.inside payload offset at_start) = at_start ≡ b
Starts b (Segment.unsynchronized at_start) = at_start ≡ b

add-then :
    {A : Type 0} (P : A → Type 0) (a : SeqNumber) (n : ℕ) (f : SeqNumber → Checked A)
    → Returns P (f ((a + n) % 2 ^ 32))
    → Returns P (add a n >>= f)
unfolding add
add-then P a n f h = elim (Bool-cases (ltb (2 ^ 31 - 1) n)) [ inl t ↦ rw t tt | inr e ↦ rw e h ]

overlap-Starts :
    (payload : List ℕ) (ws we ss se : SeqNumber)
    → Returns (Starts (ws == ss)) (overlap payload ws we ss se)
unfolding overlap
overlap-Starts payload ws we ss se =
    Returns-then (Starts (ws == ss)) (distance (seq_max ws ss) ss) _ (λ from.
      Returns-then (Starts (ws == ss)) (distance (seq_min we se) ss) _ (λ to.
        Returns-then (Starts (ws == ss)) (payload_slice payload from to) _ (λ part.
          Returns-then (Starts (ws == ss)) (distance (seq_max ws ss) ws) _ (λ offset. refl))))

segment-Starts :
    (repr : TcpRepr) (s : Socket) → Returns (Starts (starts_window repr s)) (segment repr s)
unfolding segment
segment-Starts repr s =
    add-then (Starts (starts_window repr s)) s.remote_seq_no s.rx_buffer.length _ (
      Returns-then (Starts (starts_window repr s))
        (add s.remote_seq_no (RingBuffer.capacity s.rx_buffer)) _
        (λ window_end.
          Returns-then (Starts (starts_window repr s)) (add repr.seq_number (length repr.payload)) _
            (λ segment_end.
              Returns-if (Starts (starts_window repr s)) (not (is_synchronized s.state)) _ _ refl (
                Returns-then (Starts (starts_window repr s))
                  (segment_in_window _ window_end repr.seq_number segment_end) _
                  (λ in_window.
                    Returns-if (Starts (starts_window repr s)) in_window _ _
                      (overlap-Starts repr.payload _ window_end repr.seq_number segment_end) tt)))))

-- The flag by which the code goes on.
abbrev control_at : Bool → TcpRepr → Control
control_at at_start repr = without_early_fin at_start (quash_psh repr.control)

control_at-taken :
    (at_start : Bool) (k : Control) → without_early_fin at_start (quash_psh k) ≡ taken at_start k
unfolding quash_psh
control_at-taken true Control.plain = refl
control_at-taken true Control.psh = refl
control_at-taken true Control.syn = refl
control_at-taken true Control.fin = refl
control_at-taken true Control.rst = refl
control_at-taken false Control.plain = refl
control_at-taken false Control.psh = refl
control_at-taken false Control.syn = refl
control_at-taken false Control.fin = refl
control_at-taken false Control.rst = refl

Keeps-Moves :
    (k : Control) (s s1 s' : Socket)
    → Keeps s s1
    → Moves k s1.state s1.tuple s'
    → Moves k s.state s.tuple s'
Keeps-Moves k s s1 s' keeps moves =
    subst (λ t. Moves k s.state t s') keeps.tuple
      (subst (λ st. Moves k st s1.tuple s') keeps.state moves)

-- The result of a part of `process` that starts at a socket.
abbrev OutMoves : Control → Socket → Option Reply × Socket → Type 0
OutMoves k s out = Moves k s.state s.tuple out.1

module _ (cx : Context) (ip_repr : IpRepr) (repr : TcpRepr) where
  after_transition-Moves :
      (k : Control) (payload : List ℕ) (offset : ℕ) (ack : Acked) (s : Socket) (flow : Flow)
      → Moves k s.state s.tuple (socket_of flow)
      → Returns (OutMoves k s) (elim flow [
        | Flow.stop s2 ↦ some (none, s2)
        | Flow.go s2 ↦ update_remote cx repr ack s2 >>= receive cx ip_repr repr payload offset
      ])
  after_transition-Moves k payload offset ack s (Flow.stop s2) moves = moves
  after_transition-Moves k payload offset ack s (Flow.go s2) moves =
      Returns-bind (Keeps s2) (OutMoves k s) (update_remote cx repr ack s2) _
        (update_remote-Keeps cx repr ack s2)
        (λ s3 k3.
          Returns-weaken (λ out. Keeps s3 out.1) (OutMoves k s)
            (receive cx ip_repr repr payload offset s3)
            (receive-Keeps cx ip_repr repr payload offset s3)
            (λ out k4. Moves-Keeps _ _ _ s3 _ (Moves-Keeps _ _ _ s2 s3 moves k3) k4))

  transition-Moves :
      (at_start : Bool) (ack : Acked) (s s1 : Socket)
      → Keeps s s1
      → Returns
          (λ flow. Moves (control_at at_start repr) s.state s.tuple (socket_of flow))
          (transition cx ip_repr repr ack (control_at at_start repr) s1)
  unfolding transition
  transition-Moves at_start ack s s1 keeps =
      Returns-weaken (λ flow. Moves (control_at at_start repr) s1.state s1.tuple (socket_of flow))
        (λ flow. Moves (control_at at_start repr) s.state s.tuple (socket_of flow)) _
        (step-Moves cx ip_repr repr ack s1.state (control_at at_start repr) s1 refl)
        (λ flow moves. Keeps-Moves _ s s1 _ keeps moves)

  accept_segment-Moves :
      (payload : List ℕ) (offset : ℕ) (at_start : Bool) (s : Socket)
      → Returns
          (OutMoves (control_at at_start repr) s)
          (accept_segment cx ip_repr repr payload offset at_start s)
  unfolding accept_segment
  accept_segment-Moves payload offset at_start s =
      let k = control_at at_start repr in
      Returns-then (OutMoves k s) (acked repr s) _ (λ ack.
        Returns-bind (λ flow. Moves k s.state s.tuple (socket_of flow)) (OutMoves k s)
          (transition cx ip_repr repr ack k (note_ack cx repr ack s)) _
          (transition-Moves at_start ack s (note_ack cx repr ack s) (note_ack-Keeps cx repr ack s))
          (λ flow moves. after_transition-Moves k payload offset ack s flow moves))

  restart_close-Keeps : (st : State) (s : Socket) → Keeps s (restart_close cx st s)
  restart_close-Keeps State.time_wait s = record { state = refl; tuple = refl }
  restart_close-Keeps st s = Keeps-refl s

  challenge-Moves :
      (k : Control) (s s1 : Socket)
      → Keeps s s1
      → Returns (OutMoves k s) (challenge_ack_reply cx ip_repr repr s1)
  challenge-Moves k s s1 keeps =
      Returns-weaken (λ out. Keeps s1 out.1) (OutMoves k s) _
        (challenge_ack_reply-Keeps cx ip_repr repr s1)
        (λ out kept. Moves-Keeps _ _ _ s1 _ (stays _ s s1 keeps) kept)

  check_window-Moves :
      (s : Socket)
      → Returns
          (OutMoves (control_at (starts_window repr s) repr) s)
          (check_window cx ip_repr repr s)
  unfolding check_window
  check_window-Moves s =
      Returns-bind (Starts (starts_window repr s))
        (OutMoves (control_at (starts_window repr s) repr) s) (segment repr s) _
        (segment-Starts repr s) part_Moves
    where
      part_Moves :
          (part : Segment)
          → Starts (starts_window repr s) part
          → Returns (OutMoves (control_at (starts_window repr s) repr) s) (elim part [
            | Segment.outside ↦ challenge_ack_reply cx ip_repr repr (restart_close cx s.state s)
            | Segment.inside payload offset at_start ↦
                accept_segment cx ip_repr repr payload offset at_start
                  (record s { local_rx_last_seq = some repr.seq_number })
            | Segment.unsynchronized at_start ↦ accept_segment cx ip_repr repr [] 0 at_start s
          ])
      part_Moves Segment.outside h = challenge-Moves _ s _ (restart_close-Keeps s.state s)
      part_Moves (Segment.inside payload offset at_start) h =
          subst
            (λ b. Returns (OutMoves (control_at b repr) s) (
              accept_segment cx ip_repr repr payload offset at_start
                (record s { local_rx_last_seq = some repr.seq_number })))
            h
            (accept_segment-Moves payload offset at_start
              (record s { local_rx_last_seq = some repr.seq_number }))
      part_Moves (Segment.unsynchronized at_start) h =
          subst
            (λ b.
              Returns (OutMoves (control_at b repr) s)
                (accept_segment cx ip_repr repr [] 0 at_start s))
            h (accept_segment-Moves [] 0 at_start s)

  process-Moves :
      (s : Socket)
      → Returns (OutMoves (taken (starts_window repr s) repr.control) s) (process cx ip_repr repr s)
  unfolding process
  process-Moves s =
      Returns-then (OutMoves k s) (ack_verdict s s.state repr.control repr.ack_number) _ answer
    where
      k : Control
      k = taken (starts_window repr s) repr.control

      answer :
          (verdict : Verdict)
          → Returns (OutMoves k s) (elim verdict [
            | Verdict.accept ↦ check_window cx ip_repr repr s
            | Verdict.drop ↦ some (none, s)
            | Verdict.send_rst ↦ (do answer ← rst_reply ip_repr repr; some (some answer, s))
            | Verdict.challenge ↦ challenge_ack_reply cx ip_repr repr s
          ])
      answer Verdict.accept =
          subst (λ c. Returns (OutMoves c s) (check_window cx ip_repr repr s))
            (control_at-taken (starts_window repr s) repr.control) (check_window-Moves s)
      answer Verdict.drop = stays _ s s (Keeps-refl s)
      answer Verdict.send_rst =
          Returns-then (OutMoves k s) (rst_reply ip_repr repr) _ (λ r. stays _ s s (Keeps-refl s))
      answer Verdict.challenge = challenge-Moves _ s s (Keeps-refl s)

  -- A segment moves a socket only along an edge of the state diagram that the flag it is taken to have
  -- allows, or leaves the state as it is: a PSH counts as no flag, and so does a FIN of a segment that
  -- does not start where the receive window does.
  pub process-Edge :
      (s s' : Socket) (answer : Option Reply)
      → process cx ip_repr repr s ≡ some (answer, s')
      → Edge (taken (starts_window repr s) repr.control) s.state s'.state
  process-Edge s s' answer e = (Returns-elim (OutMoves _ s) _ (answer, s') (process-Moves s) e).edge

  -- If a socket has the endpoints that its state wants, none in LISTEN and some in every other state
  -- but CLOSED, then so has the socket that `process` leaves.
  pub process-HasEndpoints :
      (s s' : Socket) (answer : Option Reply)
      → HasEndpoints s.state s.tuple
      → process cx ip_repr repr s ≡ some (answer, s')
      → HasEndpoints s'.state s'.tuple
  process-HasEndpoints s s' answer h e =
      (Returns-elim (OutMoves _ s) _ (answer, s') (process-Moves s) e).endpoints h
