-- ===== src/Tcp/Dispatch/Quiet.antt =====
-- `Socket::poll_at` and `Socket::dispatch` agree: before the time that the one names, the other does
-- nothing.
use smoltcp.Prelude.{
  ℕ, ◌≡◌, refl, sym, ap, ◌∙◌, inl, inr, Bool, true, false, ◌&&◌, ◌||◌, Option, none, some, ltb,
  Result, ok, Checked, ◌>>=◌, arith, Bool-cases, Option-cases, subst, Returns, Returns-elim,
}
use smoltcp.Tcp.State.{is_closed}
use smoltcp.Tcp.Timer.{
  Timer, PollAt, earlier, AckDelayTimer, should_keep_alive, should_retransmit, should_close,
}
use smoltcp.Tcp.Timer as Timers
use smoltcp.Tcp.Socket.{Socket, Tuple, Context}
use smoltcp.Tcp.Segment.{
  Reply, passed, timed_out, expired, delayed_ack_expired, ack_to_transmit, window_to_update,
  seq_to_transmit,
}
use smoltcp.Tcp.Dispatch.{
  start_clock, started_at, expire, Decision, decide, decide_idle, act, dispatch, dispatch_to,
  delayed_ack_poll_at, timeout_poll_at, poll_timers, poll_at, is_none,
}

-- The socket wants to be polled at a later time, or not at all.
unfoldable pub is_later : ℕ → PollAt → Bool
is_later now PollAt.now = false
is_later now (PollAt.time t) = ltb now t
is_later now PollAt.ingress = true

is_later-earlier :
    (now : ℕ) (a b : PollAt)
    → is_later now (earlier a b) ≡ true
    → (is_later now a ≡ true) × (is_later now b ≡ true)
unfolding is_later earlier
is_later-earlier now PollAt.now b h = absurd (ground arith)
is_later-earlier now (PollAt.time a) PollAt.now h = absurd (ground arith)
is_later-earlier now (PollAt.time a) (PollAt.time b) h = ground arith
is_later-earlier now (PollAt.time a) PollAt.ingress h = (h, refl)
is_later-earlier now PollAt.ingress b h = (refl, h)

timer_rests :
    (now : ℕ) (t : Timer)
    → is_later now (Timers.poll_at t) ≡ true
    → (should_retransmit t now ≡ none)
      × (should_keep_alive t now ≡ false)
      × (should_close t now ≡ false)
unfolding is_later Timers.poll_at should_retransmit should_keep_alive should_close
timer_rests now (Timer.idle none) h = (refl, refl, refl)
timer_rests now (Timer.idle (some t)) h = (refl, ground arith, refl)
timer_rests now (Timer.retransmit at delay) h = (ground arith, refl, refl)
timer_rests now Timer.fast_retransmit h = absurd (ground arith)
timer_rests now (Timer.close at) h = (refl, refl, ground arith)

passed_later :
    (now : ℕ) (ts timeout : Option ℕ)
    → is_later now (timeout_poll_at ts timeout) ≡ true
    → passed ts timeout now ≡ false
unfolding is_later timeout_poll_at
passed_later now none timeout h = refl
passed_later now (some ts) none h = refl
passed_later now (some ts) (some timeout) h = ground arith

no_ack_later :
    (now : ℕ) (want : Bool) (timer : AckDelayTimer)
    → is_later now (delayed_ack_poll_at want timer) ≡ true
    → (want && expired timer now) ≡ false
unfolding is_later delayed_ack_poll_at
no_ack_later now false timer h = refl
no_ack_later now true AckDelayTimer.idle h = absurd (ground arith)
no_ack_later now true (AckDelayTimer.waiting t) h = ground arith
no_ack_later now true AckDelayTimer.immediate h = absurd (ground arith)

-- What `poll_timers` says of a socket whose timers all rest.
record Rests (now : ℕ) (s : Socket) : Type 0 where
  acknowledge : Bool
  acknowledge_lem : ack_to_transmit s ≡ some acknowledge
  no_ack : ((acknowledge || window_to_update s) && delayed_ack_expired s now) ≡ false
  in_time : timed_out s now ≡ false
  timer :
      (should_retransmit s.timer now ≡ none)
      × (should_keep_alive s.timer now ≡ false)
      × (should_close s.timer now ≡ false)

poll_timers-Rests :
    (now : ℕ) (s : Socket) (at : PollAt)
    → poll_timers s ≡ some at
    → is_later now at ≡ true
    → Rests now s
unfolding poll_timers delayed_ack_expired timed_out
poll_timers-Rests now s at e h = elim (Option-cases (ack_to_transmit s)) [
  | inl panics ↦ absurd (ground (arith, panics))
  | inr (acknowledge, q) ↦
      let (early, delayed) = is_later-earlier now _ _ (
        Returns-elim (λ p. is_later now p ≡ true) (poll_timers s) _
          (subst (Returns (λ p. is_later now p ≡ true)) (sym e) h) (rw (poll_timers, q) refl)) in
      let (timer, timeout) = is_later-earlier now _ _ early in
      record {
        acknowledge = acknowledge;
        acknowledge_lem = q;
        no_ack = no_ack_later now _ _ delayed;
        in_time = passed_later now _ _ timeout;
        timer = timer_rests now s.timer timer;
      }
]

-- The clock of a socket that has sent or received something is not touched.
start_clock-some :
    (cx : Context) (s : Socket) → is_none s.remote_last_ts ≡ false → start_clock cx s ≡ s
unfolding start_clock
start_clock-some cx s h = ap (λ ts. record s { remote_last_ts = ts }) (kept s.remote_last_ts h)
  where
    kept : (ts : Option ℕ) → is_none ts ≡ false → started_at cx.now ts ≡ ts
    kept none h' = cc
    kept (some ts) h' = refl

both_wait : (a w x : Bool) → ((a || w) && x) ≡ false → ((a && x) ≡ false) × ((w && x) ≡ false)
both_wait a w x h = ground arith

expire-Rests :
    (cx : Context) (s : Socket)
    → seq_to_transmit cx s ≡ some false
    → Rests cx.now s
    → expire cx s ≡ some s
unfolding expire
expire-Rests cx s pending r = rw (r.in_time, pending, r.timer.0) refl

decide-Rests :
    (cx : Context) (s : Socket)
    → seq_to_transmit cx s ≡ some false
    → is_closed s.state ≡ false
    → Rests cx.now s
    → decide cx s ≡ some Decision.rest
unfolding decide decide_idle
decide-Rests cx s pending alive r =
    let (no_reply, no_update) =
      both_wait r.acknowledge (window_to_update s) (delayed_ack_expired s cx.now) r.no_ack in
    rw (pending, r.acknowledge_lem, no_reply, no_update, alive, r.timer.1, r.timer.2) refl

dispatch-Rests :
    {E : Type 0} (cx : Context) (emit : Reply → Result E (Unit {0})) (o : Option Tuple) (s : Socket)
    → is_none s.remote_last_ts ≡ false
    → is_closed s.state ≡ false
    → seq_to_transmit cx s ≡ some false
    → Rests cx.now s
    → dispatch_to cx emit o s ≡ some (none, ok tt, s)
unfolding dispatch_to act
dispatch-Rests cx emit none s clock alive pending r = refl
dispatch-Rests cx emit (some tuple) s clock alive pending r =
    ap (λ m. m >>= λ s'. decide cx s' >>= λ d. act cx emit tuple d s')
      (ap (expire cx) (start_clock-some cx s clock) ∙ expire-Rests cx s pending r)
    ∙ ap (λ m. m >>= λ d. act cx emit tuple d s) (decide-Rests cx s pending alive r)

abbrev Later : Context → Checked PollAt → Type 0
Later cx = Returns (λ p. is_later cx.now p ≡ true)

now-is_later : (now : ℕ) → is_later now PollAt.now ≡ true → false ≡ true
unfolding is_later
now-is_later now h = h

-- The ways to ask for a later call.
poll_at-cases :
    (cx : Context) (s : Socket)
    → is_none s.tuple ≡ false
    → (at : PollAt) → poll_at cx s ≡ some at
    → is_later cx.now at ≡ true
    → (is_none s.remote_last_ts ≡ false)
      × (is_closed s.state ≡ false)
      × (seq_to_transmit cx s ≡ some false)
      × Rests cx.now s
unfolding poll_at
poll_at-cases cx s linked at e h = elim (Bool-cases (is_none s.remote_last_ts)) [
  | inl t ↦ absurd (at_once (rw (linked, t) refl))
  | inr t ↦ elim (Bool-cases (is_closed s.state)) [
    | inl c ↦ absurd (at_once (rw (linked, t, c) refl))
    | inr c ↦ elim (Option-cases (seq_to_transmit cx s)) [
      | inl panics ↦ let stuck : poll_at cx s ≡ none = rw (linked, t, c, panics) refl in cc
      | inr (true, p) ↦ absurd (at_once (rw (linked, t, c, p) refl))
      | inr (false, p) ↦
          (t, c, p, poll_timers-Rests cx.now s at (sym (rw (linked, t, c, p) refl) ∙ e) h)
    ]
  ]
]
  where
    at_once : poll_at cx s ≡ some PollAt.now → ⊥
    at_once q =
        let same : false ≡ true =
          now-is_later cx.now (subst (Later cx) q (subst (Later cx) (sym e) h)) in
        cc

-- Unless `poll_at` asks for a call at once or at a time that has come, a call of `dispatch` hands
-- nothing to `emit`, succeeds, and leaves the socket as it is.
pub dispatch-poll_at :
    {E : Type 0} (cx : Context) (emit : Reply → Result E (Unit {0})) (s : Socket) (at : PollAt)
    → poll_at cx s ≡ some at
    → is_later cx.now at ≡ true
    → dispatch cx emit s ≡ some (none, ok tt, s)
unfolding dispatch dispatch_to
dispatch-poll_at cx emit s at e h = by_tuple s.tuple refl
  where
    by_tuple : (o : Option Tuple) → s.tuple ≡ o → dispatch_to cx emit o s ≡ some (none, ok tt, s)
    by_tuple none q = refl
    by_tuple (some tuple) q =
        let (clock, alive, pending, r) = poll_at-cases cx s (ap is_none q) at e h in
        dispatch-Rests cx emit (some tuple) s clock alive pending r
