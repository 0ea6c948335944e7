-- ===== src/Tcp/Process/AckBounds.antt =====
-- `Socket::process`: an acceptable acknowledgement is for octets that are in the send queue.
use smoltcp.Prelude.{
  ◌+◌, ◌-◌, ◌%◌, ◌^◌, ◌≤◌, ◌<◌, ◌≡◌, refl, inl, inr, Bool, true, false, ◌&&◌, ltb, leb, ◌==◌, some,
  none, Option, drop, ap, if◌then◌else◌, sym, arith, Bool-cases,
}
use smoltcp.Tcp.State.{State}
use smoltcp.Tcp.Socket.{Socket}
use smoltcp.Tcp.Process.Ack.{
  Verdict, Acked, sent_syn, sent_fin, in_ack_range, acked_by, counting_ack, exactly_syn,
  ack_verdict, nothing_acked, acked_number, acked,
}
use smoltcp.Tcp.Process.Update.{dequeue_acked}
use smoltcp.Storage.RingBuffer.Order.{IsValid, contents}
use smoltcp.Storage.RingBuffer.Dequeue.{dequeue_allocated_lem}
use smoltcp.Wire.TcpRepr.{Control, TcpRepr}
use smoltcp.Wire.SeqNumber.{SeqNumber, add, distance, wrapping_sub, seq_ge}
use smoltcp.Tcp.Process.AckRange.{in_ack_range-bound, acked_by-bound}

accept-in_range :
    (s : Socket) (st : State) (k : Control) (ack : SeqNumber)
    → sent_syn st ≡ false
    → counting_ack k (some ack) ≡ some ack
    → ack_verdict s st k (some ack) ≡ some Verdict.accept
    → in_ack_range s ack ≡ some Verdict.accept
unfolding ack_verdict
accept-in_range s st Control.rst ack q c h = absurd (ground arith)
accept-in_range s State.listen k ack q c h = absurd (ground arith)
accept-in_range s State.syn_sent k ack q c h = absurd (ground arith)
accept-in_range s State.syn_received k ack q c h = absurd (ground arith)
accept-in_range s st k ack q c h = h

is_accept : Verdict → Bool
is_accept Verdict.accept = true
is_accept _ = false

chosen-same :
    (b : Bool) (same other : Verdict)
    → is_accept other ≡ false
    → some (if b then same else other) ≡ some Verdict.accept
    → b ≡ true
unfolding is_accept
chosen-same b same other n h = ground arith

exactly_syn-accept :
    (s : Socket) (ack : SeqNumber) (same other : Verdict)
    → is_accept other ≡ false
    → exactly_syn s ack same other ≡ some Verdict.accept
    → (s.local_seq_no + 1) % 2 ^ 32 ≡ ack
unfolding exactly_syn add
exactly_syn-accept s ack same other n h =
    let e : (ack == (s.local_seq_no + 1) % 2 ^ 32) ≡ true = chosen-same _ same other n h in
    ground arith

accept-syn :
    (s : Socket) (st : State) (k : Control) (ack : SeqNumber)
    → sent_syn st ≡ true
    → counting_ack k (some ack) ≡ some ack
    → ack_verdict s st k (some ack) ≡ some Verdict.accept
    → (s.local_seq_no + 1) % 2 ^ 32 ≡ ack
unfolding ack_verdict is_accept
accept-syn s st Control.rst ack q c h = absurd (ground arith)
accept-syn s State.syn_sent Control.syn ack q c h = exactly_syn-accept s ack _ _ refl h
accept-syn s State.syn_sent Control.plain ack q c h = exactly_syn-accept s ack _ _ refl h
accept-syn s State.syn_sent k ack q c h = absurd (ground arith)
accept-syn s State.syn_received k ack q c h = exactly_syn-accept s ack _ _ refl h
accept-syn s st k ack q c h = absurd (ground arith)

acked_by-syn :
    (s : Socket) (ack : SeqNumber)
    → sent_syn s.state ≡ true
    → (s.local_seq_no + 1) % 2 ^ 32 ≡ ack
    → (a : Acked) × (acked_by s ack ≡ some a) × (a.ack_len ≤ s.tx_buffer.length)
unfolding acked_by add distance
acked_by-syn s ack e h = (
  record {
    ack_len = if of_fin then 0 - 1 else 0;
    ack_of_fin = of_fin;
    ack_all = s.remote_last_seq == ack;
  },
  rw (e, h, after, near, nothing) refl,
  no_bound (sent_fin s.state),
)
  where
    of_fin : Bool
    of_fin = sent_fin s.state && (s.tx_buffer.length + 1 == 0)

    nothing : wrapping_sub ack ack ≡ 0
    nothing = omega arith

    after : seq_ge ack ack ≡ true
    after = ground arith

    near : leb (2 ^ 31) (wrapping_sub ack ack) ≡ false
    near = ground arith

    no_bound :
        (fin : Bool)
        → (if fin && (s.tx_buffer.length + 1 == 0) then 0 - 1 else 0) ≤ s.tx_buffer.length
    no_bound true = ground arith
    no_bound false = ground arith

acceptable-bound :
    (s : Socket) (k : Control) (ack : SeqNumber)
    → s.local_seq_no < 2 ^ 32
    → ack < 2 ^ 32
    → s.tx_buffer.length + 1 < 2 ^ 31
    → counting_ack k (some ack) ≡ some ack
    → ack_verdict s s.state k (some ack) ≡ some Verdict.accept
    → (a : Acked) × (acked_by s ack ≡ some a) × (a.ack_len ≤ s.tx_buffer.length)
acceptable-bound s k ack l p t c h = elim (Bool-cases (sent_syn s.state)) [
  | inl syn ↦ acked_by-syn s ack syn (accept-syn s s.state k ack syn c h)
  | inr e ↦
      let (near, bound) =
        in_ack_range-bound s ack e l p t (accept-in_range s s.state k ack e c h) in
      acked_by-bound s ack e l near bound
]

counted-bound :
    (s : Socket) (k : Control) (o : Option SeqNumber)
    → s.local_seq_no < 2 ^ 32
    → ((ack : SeqNumber) → o ≡ some ack → ack < 2 ^ 32)
    → s.tx_buffer.length + 1 < 2 ^ 31
    → ack_verdict s s.state k o ≡ some Verdict.accept
    → (a : Acked) × (acked_number (counting_ack k o) s ≡ some a) × (a.ack_len ≤ s.tx_buffer.length)
unfolding acked_number
counted-bound s Control.rst o l p t h = (nothing_acked, refl, omega arith)
counted-bound s Control.plain none l p t h = (nothing_acked, refl, omega arith)
counted-bound s Control.plain (some ack) l p t h =
    acceptable-bound s Control.plain ack l (p ack refl) t refl h
counted-bound s Control.psh none l p t h = (nothing_acked, refl, omega arith)
counted-bound s Control.psh (some ack) l p t h =
    acceptable-bound s Control.psh ack l (p ack refl) t refl h
counted-bound s Control.syn none l p t h = (nothing_acked, refl, omega arith)
counted-bound s Control.syn (some ack) l p t h =
    acceptable-bound s Control.syn ack l (p ack refl) t refl h
counted-bound s Control.fin none l p t h = (nothing_acked, refl, omega arith)
counted-bound s Control.fin (some ack) l p t h =
    acceptable-bound s Control.fin ack l (p ack refl) t refl h

-- For a segment whose acknowledgement is accepted, with sequence numbers below 2 ^ 32 and fewer than
-- 2 ^ 31 - 1 octets in a well-formed send queue, neither the computation of the acknowledged octets
-- nor their removal from the send queue panics, and exactly so many octets leave its front.
pub acked-dequeued :
    (repr : TcpRepr) (s : Socket)
    → IsValid s.tx_buffer
    → s.local_seq_no < 2 ^ 32
    → ((ack : SeqNumber) → repr.ack_number ≡ some ack → ack < 2 ^ 32)
    → s.tx_buffer.length + 1 < 2 ^ 31
    → ack_verdict s s.state repr.control repr.ack_number ≡ some Verdict.accept
    → (a : Acked) × (s' : Socket) × (acked repr s ≡ some a)
      × (dequeue_acked a.ack_len s ≡ some s')
      × (contents s'.tx_buffer ≡ drop a.ack_len (contents s.tx_buffer))
unfolding acked dequeue_acked
acked-dequeued repr s v l p t h =
    let (a, e, bound) = counted-bound s repr.control repr.ack_number l p t h in
    elim (Bool-cases (ltb 0 a.ack_len)) [
      | inr none_acked ↦
          let z : a.ack_len ≡ 0 = ground arith in
          (a, s, e, rw none_acked refl, ap (λ n. drop n (contents s.tx_buffer)) (sym z))
      | inl some_acked ↦ elim (dequeue_allocated_lem s.tx_buffer a.ack_len v) [
        | inl (short, _) ↦ absurd (omega arith)
        | inr (r, q, _, rest, _) ↦ (a, record s { tx_buffer = r }, e, rw (some_acked, q) refl, rest)
      ]
    ]
