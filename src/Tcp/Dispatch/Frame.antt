-- ===== src/Tcp/Dispatch/Frame.antt =====
-- `Socket::dispatch` keeps a socket well formed.
use smoltcp.Prelude.{
  ℕ, ◌≡◌, refl, sym, subst, Bool, true, false, ◌&&◌, not, Option, none, some, ltb, if◌then◌else◌,
  Result, ok, err, ◌>>=◌, Returns, Returns-bind, Returns-then, Returns-if,
}
use smoltcp.Wire.SeqNumber.{add}
use smoltcp.Wire.TcpRepr.{TcpRepr, segment_len}
use smoltcp.Tcp.State.{State, is_closed}
use smoltcp.Tcp.Timer.{should_retransmit}
use smoltcp.Tcp.Socket.{Socket, Tuple, Context, reset}
use smoltcp.Tcp.Segment.{Reply, timed_out, seq_to_transmit}
use smoltcp.Tcp.Process.Edges.{HasEndpoints}
use smoltcp.Tcp.Process.Buffers.{same_buffers, SameBuffers}
use smoltcp.Tcp.Calls.{WellFormed, reset-BuffersValid}
use smoltcp.Tcp.Dispatch.{
  start_clock, expire, rewind, rewind_if, Decision, decide, outgoing, note_sent, wind_up,
  forget_aborted, after_send, emit_segment, transmit_now, act, dispatch, dispatch_to, Outcome,
}

-- A part that leaves the state, the endpoints and the buffers as they are.
rebuilt :
    (s s' : Socket)
    → s'.state ≡ s.state
    → s'.tuple ≡ s.tuple
    → SameBuffers s s'
    → WellFormed s
    → WellFormed s'
rebuilt s s' st t b w = record {
  endpoints =
      subst (λ x. HasEndpoints s'.state x) (sym t)
        (subst (λ x. HasEndpoints x s.tuple) (sym st) w.endpoints);
  buffers = same_buffers s s' b w.buffers;
}

start_clock-WellFormed : (cx : Context) (s : Socket) → WellFormed s → WellFormed (start_clock cx s)
unfolding start_clock
start_clock-WellFormed cx s w = rebuilt s _ refl refl (refl, refl, refl) w

rewind_if-WellFormed :
    (cx : Context) (o : Option ℕ) (s : Socket) → WellFormed s → WellFormed (rewind_if cx o s)
unfolding rewind
rewind_if-WellFormed cx none s w = w
rewind_if-WellFormed cx (some delta) s w = rebuilt s _ refl refl (refl, refl, refl) w

if-WellFormed :
    (b : Bool) (x y : Socket) → WellFormed x → WellFormed y → WellFormed (if b then x else y)
if-WellFormed true x y p q = p
if-WellFormed false x y p q = q

expire-WellFormed : (cx : Context) (s : Socket) → WellFormed s → Returns WellFormed (expire cx s)
unfolding expire
expire-WellFormed cx s w =
    Returns-if WellFormed (timed_out s cx.now) _ _
      (record { endpoints = tt; buffers = same_buffers s _ (refl, refl, refl) w.buffers })
      (Returns-then WellFormed (seq_to_transmit cx s) _ (λ pending.
        if-WellFormed (not pending) _ _
          (rewind_if-WellFormed cx (should_retransmit s.timer cx.now) s w) w))

wind_up-WellFormed :
    (cx : Context) (n : ℕ) (s : Socket) → WellFormed s → Returns WellFormed (wind_up cx n s)
unfolding wind_up
wind_up-WellFormed cx n s w = Returns-then WellFormed (seq_to_transmit cx s) _ (λ pending.
    if-WellFormed (not pending && ltb 0 n) _ _ (rebuilt s _ refl refl (refl, refl, refl) w) w)

forget_aborted-WellFormed : (s : Socket) → WellFormed s → WellFormed (forget_aborted s)
unfolding forget_aborted
forget_aborted-WellFormed s w = forgotten s.state refl
  where
    forgotten :
        (st : State)
        → s.state ≡ st
        → WellFormed (if is_closed st then record s { tuple = none } else s)
    forgotten State.closed e = record {
      endpoints = subst (λ x. HasEndpoints x none) (sym e) tt;
      buffers = same_buffers s _ (refl, refl, refl) w.buffers;
    }
    forgotten st e = w

after_send-WellFormed :
    (cx : Context) (repr : TcpRepr) (s : Socket)
    → WellFormed s
    → Returns WellFormed (after_send cx repr s)
unfolding after_send
after_send-WellFormed cx repr s w =
    Returns-then WellFormed (add repr.seq_number (segment_len repr)) _ (λ sent_to.
      Returns-bind WellFormed WellFormed (wind_up cx (segment_len repr) _) _
        (wind_up-WellFormed cx _ _ (rebuilt s _ refl refl (refl, refl, refl) w))
        (λ s' w'. forget_aborted-WellFormed s' w'))

module _ {E : Type 0} (cx : Context) (emit : Reply → Result E (Unit {0})) where
  abbrev pub OutcomeWellFormed : Outcome cx emit → Type 0
  OutcomeWellFormed out = WellFormed out.2

  emit_segment-WellFormed :
      (is_keep_alive : Bool) (segment : Reply) (s : Socket)
      → WellFormed s
      → Returns OutcomeWellFormed (emit_segment cx emit is_keep_alive segment s)
  unfolding emit_segment note_sent
  emit_segment-WellFormed is_keep_alive segment s w = answered (emit segment)
    where
      noted : WellFormed (note_sent cx s)
      noted = rebuilt s _ refl refl (refl, refl, refl) w

      answered :
          (r : Result E (Unit {0}))
          → Returns OutcomeWellFormed (elim r [
            | err e ↦ some (some segment, err e, s)
            | ok _ ↦
                if is_keep_alive
                then some (some segment, ok tt, note_sent cx s)
                else (after_send cx segment.1 (note_sent cx s) >>= λ s'.
                    some (some segment, ok tt, s'))
          ])
      answered (err e) = w
      answered (ok _) = Returns-if OutcomeWellFormed is_keep_alive _ _ noted (
          Returns-bind WellFormed OutcomeWellFormed (after_send cx segment.1 (note_sent cx s)) _
            (after_send-WellFormed cx segment.1 (note_sent cx s) noted) (λ s' w'. w'))

  transmit_now-WellFormed :
      (tuple : Tuple) (s : Socket)
      → WellFormed s
      → Returns OutcomeWellFormed (transmit_now cx emit tuple s)
  unfolding transmit_now
  transmit_now-WellFormed tuple s w = Returns-then OutcomeWellFormed (outgoing cx tuple s) _ handed
    where
      handed :
          (o : Option (Bool × Reply))
          → Returns OutcomeWellFormed (elim o [
            | none ↦ some (none, ok tt, s)
            | some (is_keep_alive, reply) ↦ emit_segment cx emit is_keep_alive reply s
          ])
      handed none = w
      handed (some (is_keep_alive, reply)) = emit_segment-WellFormed is_keep_alive reply s w

  act-WellFormed :
      (tuple : Tuple) (decision : Decision) (s : Socket)
      → WellFormed s
      → Returns OutcomeWellFormed (act cx emit tuple decision s)
  unfolding act reset
  act-WellFormed tuple Decision.transmit s w = transmit_now-WellFormed tuple s w
  act-WellFormed tuple Decision.forget s w = record {
    endpoints = tt;
    buffers = reset-BuffersValid s;
  }
  act-WellFormed tuple Decision.rest s w = w

  dispatch_to-WellFormed :
      (o : Option Tuple) (s : Socket)
      → WellFormed s
      → Returns OutcomeWellFormed (dispatch_to cx emit o s)
  unfolding dispatch_to
  dispatch_to-WellFormed none s w = w
  dispatch_to-WellFormed (some tuple) s w =
      Returns-bind WellFormed OutcomeWellFormed (expire cx (start_clock cx s)) _
        (expire-WellFormed cx _ (start_clock-WellFormed cx s w))
        (λ s' w'.
          Returns-then OutcomeWellFormed (decide cx s') _
            (λ decision. act-WellFormed tuple decision s' w'))

  pub dispatch-WellFormed :
      (s : Socket) → WellFormed s → Returns OutcomeWellFormed (dispatch cx emit s)
  unfolding dispatch
  dispatch-WellFormed s w = dispatch_to-WellFormed s.tuple s w
