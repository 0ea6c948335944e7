-- ===== src/Tcp/Process/Edges.antt =====
-- `Socket::process`: the edges of the state diagram that a segment can take a socket along.
use smoltcp.Prelude.{
  ℕ, ◌≡◌, refl, sym, ◌∙◌, subst, Bool, true, false, ◌||◌, not, Option, none, some, ◌==◌,
  if◌then◌else◌, Checked, Returns, Returns-then, Returns-if,
}
use smoltcp.Wire.SeqNumber.{add}
use smoltcp.Wire.Ip.{IpRepr}
use smoltcp.Wire.TcpRepr.{Control, TcpRepr}
use smoltcp.Tcp.State.{State}
use smoltcp.Tcp.Timer.{is_retransmit}
use smoltcp.Tcp.Socket.{Socket, Tuple, Context}
use smoltcp.Tcp.Process.Frame.{Keeps, Keeps-refl}
use smoltcp.Tcp.Process.Ack.{Acked}
use smoltcp.Tcp.Process.Transition.{
  Flow, rearm, await_close, set_mss, syn_in_listen, syn_in_syn_sent, with_mss, take_fin, step,
}

-- The edges that the arrival of a segment may take, by the flag that it is taken to have: those of
-- the state diagram of RFC 9293, an RST's, and staying.
pub data Edge : Control → State → State → Type 0 where
  stay : (k : Control) (st : State) → Edge k st st
  rst_in_syn_received : Edge Control.rst State.syn_received State.listen
  rst : (st : State) → Edge Control.rst st State.closed
  syn_arrives_in_listen : Edge Control.syn State.listen State.syn_received
  syn_arrives_in_syn_sent : Edge Control.syn State.syn_sent State.established
  ack_of_syn : Edge Control.plain State.syn_received State.established
  fin_in_syn_received : Edge Control.fin State.syn_received State.close_wait
  fin_in_established : Edge Control.fin State.established State.close_wait
  fin_in_fin_wait_1 : Edge Control.fin State.fin_wait_1 State.closing
  fin_and_ack_of_fin : Edge Control.fin State.fin_wait_1 State.time_wait
  fin_in_fin_wait_2 : Edge Control.fin State.fin_wait_2 State.time_wait
  ack_of_fin_in_fin_wait_1 : Edge Control.plain State.fin_wait_1 State.fin_wait_2
  ack_of_fin_in_closing : Edge Control.plain State.closing State.time_wait
  ack_of_fin_in_last_ack : Edge Control.plain State.last_ack State.closed

-- The flag that a segment is taken to have: a PSH counts as none, and so does a FIN of a segment that
-- does not start where the receive window does.
abbrev pub taken : Bool → Control → Control
taken at_start Control.psh = Control.plain
taken false Control.fin = Control.plain
taken at_start control = control

-- The endpoints of the connection that a state wants: none in LISTEN, some in a state of a
-- connection; CLOSED may keep them for the RST of `abort`.
abbrev pub HasEndpoints : State → Option Tuple → Type 0
HasEndpoints State.closed t = Unit {0}
HasEndpoints State.listen t = t ≡ none
HasEndpoints _ t = (endpoints : Tuple) × (t ≡ some endpoints)

-- A socket that came from a state and endpoints by the arrival of a segment.
pub record Moves (k : Control) (st : State) (t : Option Tuple) (s' : Socket) : Type 0 where
  pub edge : Edge k st s'.state
  pub endpoints : HasEndpoints st t → HasEndpoints s'.state s'.tuple

abbrev pub socket_of : Flow → Socket
socket_of (Flow.go s) = s
socket_of (Flow.stop s) = s

pub stays : (k : Control) (s s' : Socket) → Keeps s s' → Moves k s.state s.tuple s'
stays k s s' keeps = record {
  edge = subst (Edge k s.state) (sym keeps.state) (Edge.stay k s.state);
  endpoints = λ h.
      subst (λ t. HasEndpoints s'.state t) (sym keeps.tuple)
        (subst (λ st. HasEndpoints st s.tuple) (sym keeps.state) h);
}

pub Moves-Keeps :
    (k : Control) (st : State) (t : Option Tuple) (s s' : Socket)
    → Moves k st t s
    → Keeps s s'
    → Moves k st t s'
Moves-Keeps k st t s s' moves keeps = record {
  edge = subst (Edge k st) (sym keeps.state) moves.edge;
  endpoints = λ h.
      subst (λ t'. HasEndpoints s'.state t') (sym keeps.tuple)
        (subst (λ st'. HasEndpoints st' s.tuple) (sym keeps.state) (moves.endpoints h));
}

unmoved :
    (k : Control) (st : State) (s s' : Socket) → s.state ≡ st → Keeps s s' → Moves k st s.tuple s'
unmoved k st s s' e keeps = subst (λ x. Moves k x s.tuple s') e (stays k s s' keeps)

if-Keeps : (b : Bool) (s x y : Socket) → Keeps s x → Keeps s y → Keeps s (if b then x else y)
if-Keeps true s x y p q = p
if-Keeps false s x y p q = q

if-Moves :
    (k : Control) (st : State) (t : Option Tuple) (b : Bool) (x y : Socket)
    → Moves k st t x
    → Moves k st t y
    → Moves k st t (if b then x else y)
if-Moves k st t true x y p q = p
if-Moves k st t false x y p q = q

module _ (cx : Context) (ip_repr : IpRepr) (repr : TcpRepr) (ack : Acked) where
  with_mss-Returns :
      (P : Flow → Type 0) (next : Socket → Checked Flow) (mss : Option ℕ) (s : Socket)
      → P (Flow.stop s)
      → ((s' : Socket) → Keeps s s' → Returns P (next s'))
      → Returns P (with_mss cx ip_repr repr next mss s)
  unfolding with_mss set_mss
  with_mss-Returns P next none s p h = h s (Keeps-refl s)
  with_mss-Returns P next (some mss) s p h =
      Returns-if P (mss == 0) (some (Flow.stop s)) (next (set_mss mss s)) p
        (h (set_mss mss s) (record { state = refl; tuple = refl }))

  syn_in_listen-Moves :
      (t : Option Tuple) (s : Socket)
      → Returns
          (λ flow. Moves Control.syn State.listen t (socket_of flow))
          (syn_in_listen cx ip_repr repr s)
  unfolding syn_in_listen
  syn_in_listen-Moves t s =
      Returns-then (λ flow. Moves Control.syn State.listen t (socket_of flow))
        (add repr.seq_number 1) _
        (λ seq. record { edge = Edge.syn_arrives_in_listen; endpoints = λ h. (_, refl) })

  syn_in_syn_sent-Moves :
      (t : Option Tuple) (s : Socket)
      → s.tuple ≡ t
      → Returns
          (λ flow. Moves Control.syn State.syn_sent t (socket_of flow))
          (syn_in_syn_sent cx ip_repr repr s)
  unfolding syn_in_syn_sent
  syn_in_syn_sent-Moves t s e =
      Returns-then (λ flow. Moves Control.syn State.syn_sent t (socket_of flow))
        (add repr.seq_number 1) _
        (λ seq.
          Returns-then (λ flow. Moves Control.syn State.syn_sent t (socket_of flow))
            (add s.local_seq_no 1) _
            (λ last. record {
              edge = Edge.syn_arrives_in_syn_sent;
              endpoints = λ h. (h.0, e ∙ h.1);
            }))

  take_fin-Moves :
      (k : Control) (st st' : State) (set_timer : Socket → Socket) (s : Socket)
      → ((s' : Socket) → Keeps s' (set_timer s'))
      → Edge k st st'
      → (HasEndpoints st s.tuple → HasEndpoints st' s.tuple)
      → Returns
          (λ flow. Moves k st s.tuple (socket_of flow))
          (take_fin cx ip_repr repr st' set_timer s)
  unfolding take_fin
  take_fin-Moves k st st' set_timer s keeps edge endpoints =
      Returns-then (λ flow. Moves k st s.tuple (socket_of flow)) (add s.remote_seq_no 1) _
        (λ seq.
          Moves-Keeps k st s.tuple _ _ (record { edge = edge; endpoints = endpoints }) (keeps _))

  timer_set : (s s' : Socket) → s'.state ≡ s.state → s'.tuple ≡ s.tuple → Keeps s s'
  timer_set s s' e t = record { state = e; tuple = t }

  -- What `step` does, for a socket that is in the state that it is given.
  pub step-Moves :
      (st : State) (k : Control) (s : Socket)
      → s.state ≡ st
      → Returns (λ flow. Moves k st s.tuple (socket_of flow)) (step cx ip_repr repr ack st k s)
  unfolding step
  step-Moves State.listen Control.rst s e = unmoved _ _ s s e (Keeps-refl s)
  step-Moves State.syn_received Control.rst s e = record {
    edge = Edge.rst_in_syn_received;
    endpoints = λ h. refl;
  }
  step-Moves st Control.rst s e = record { edge = Edge.rst _; endpoints = λ h. tt }
  step-Moves State.listen Control.syn s e =
      with_mss-Returns (λ flow. Moves Control.syn State.listen s.tuple (socket_of flow))
        (syn_in_listen cx ip_repr repr) repr.max_seg_size s (unmoved _ _ s s e (Keeps-refl s))
        (λ s' keeps. syn_in_listen-Moves s.tuple s')
  step-Moves State.syn_received Control.plain s e = record {
    edge = Edge.ack_of_syn;
    endpoints = λ h. h;
  }
  step-Moves State.syn_received Control.fin s e =
      take_fin-Moves _ _ _ (rearm cx ip_repr repr) s (λ s'. timer_set s' _ refl refl)
        Edge.fin_in_syn_received (λ h. h)
  step-Moves State.syn_sent Control.syn s e =
      with_mss-Returns (λ flow. Moves Control.syn State.syn_sent s.tuple (socket_of flow))
        (syn_in_syn_sent cx ip_repr repr) repr.max_seg_size s (unmoved _ _ s s e (Keeps-refl s))
        (λ s' keeps. syn_in_syn_sent-Moves s.tuple s' keeps.tuple)
  step-Moves State.established Control.plain s e = unmoved _ _ s _ e (
      if-Keeps (not (is_retransmit s.timer) || ack.ack_all) s _ _ (timer_set s _ refl refl)
        (Keeps-refl s))
  step-Moves State.established Control.fin s e =
      take_fin-Moves _ _ _ (rearm cx ip_repr repr) s (λ s'. timer_set s' _ refl refl)
        Edge.fin_in_established (λ h. h)
  step-Moves State.fin_wait_1 Control.plain s e =
      Moves-Keeps _ _ _ _ _
        (if-Moves _ _ s.tuple ack.ack_of_fin _ s
          (record { edge = Edge.ack_of_fin_in_fin_wait_1; endpoints = λ h. h })
          (unmoved _ _ s s e (Keeps-refl s)))
        (if-Keeps ack.ack_all _ _ _ (timer_set _ _ refl refl) (Keeps-refl _))
  step-Moves State.fin_wait_1 Control.fin s e =
      Returns-if (λ flow. Moves Control.fin State.fin_wait_1 s.tuple (socket_of flow))
        ack.ack_of_fin _ _
        (take_fin-Moves _ _ _ (await_close cx ip_repr repr) s (λ s'. timer_set s' _ refl refl)
          Edge.fin_and_ack_of_fin (λ h. h))
        (take_fin-Moves _ _ _ (rearm cx ip_repr repr) s (λ s'. timer_set s' _ refl refl)
          Edge.fin_in_fin_wait_1 (λ h. h))
  step-Moves State.fin_wait_2 Control.plain s e = unmoved _ _ s _ e (timer_set s _ refl refl)
  step-Moves State.fin_wait_2 Control.fin s e =
      take_fin-Moves _ _ _ (await_close cx ip_repr repr) s (λ s'. timer_set s' _ refl refl)
        Edge.fin_in_fin_wait_2 (λ h. h)
  step-Moves State.closing Control.plain s e =
      if-Moves _ _ s.tuple ack.ack_of_fin _ _
        (record { edge = Edge.ack_of_fin_in_closing; endpoints = λ h. h })
        (unmoved _ _ s _ e (timer_set s _ refl refl))
  step-Moves State.close_wait Control.plain s e = unmoved _ _ s _ e (timer_set s _ refl refl)
  step-Moves State.last_ack Control.plain s e =
      if-Moves _ _ s.tuple ack.ack_of_fin _ _
        (record { edge = Edge.ack_of_fin_in_last_ack; endpoints = λ h. tt })
        (unmoved _ _ s _ e (timer_set s _ refl refl))
  step-Moves st k s e = unmoved _ _ s s e (Keeps-refl s)
