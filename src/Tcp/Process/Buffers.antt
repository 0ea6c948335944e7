-- ===== src/Tcp/Process/Buffers.antt =====
-- `Socket::process` keeps the send queue, the receive queue and the assembler well formed.
use smoltcp.Prelude.{
  ℕ, ◌+◌, ◌≡◌, refl, sym, subst, inl, inr, Bool, true, false, Option, none, some, List, ltb, ◌==◌,
  if◌then◌else◌, Option-cases, ok, Returns, Returns-bind, Returns-then, Returns-if,
}
use smoltcp.Wire.SeqNumber.{SeqNumber, add}
use smoltcp.Wire.Ip.{IpRepr}
use smoltcp.Wire.TcpRepr.{TcpRepr}
use smoltcp.Storage.Assembler
use smoltcp.Storage.Assembler.{Contigs, TooManyHoles}
use smoltcp.Storage.Assembler.Invariant as Chain
use smoltcp.Storage.Assembler.Front.{AddsRemoves, add_then_remove_front-AddsRemoves}
use smoltcp.Storage.RingBuffer.{
  RingBuffer, write_unallocated, enqueue_unallocated, dequeue_allocated,
}
use smoltcp.Storage.RingBuffer.Order.{IsValid}
use smoltcp.Storage.RingBuffer.Validity.{
  write_unallocated-IsValid, enqueue_unallocated-IsValid, dequeue_allocated-IsValid,
}
use smoltcp.Tcp.Socket.{Socket, Context}
use smoltcp.Tcp.Segment.{Reply, ack_reply, challenge_ack_reply}
use smoltcp.Tcp.Process.Ack.{Acked, note_ack, counting_ack}
use smoltcp.Tcp.Process.Update.{
  update_window, dequeue_acked, note_duplicate, is_duplicate, advance_local, handle_ack,
  update_remote,
}
use smoltcp.Tcp.Process.Payload.{place}

-- The buffers of a socket.
pub record BuffersValid (s : Socket) : Type 0 where
  pub tx : IsValid s.tx_buffer
  pub rx : IsValid s.rx_buffer
  pub segments : Chain.IsValid s.assembler

pub add_then_remove_front-IsValid :
    (cs : Contigs) (offset size n : ℕ) (cs' : Contigs)
    → Chain.IsValid cs
    → Assembler.add_then_remove_front cs offset size ≡ ok (n, cs')
    → Chain.IsValid cs'
add_then_remove_front-IsValid cs offset size n cs' v e =
    (subst (AddsRemoves cs offset size) e
      (add_then_remove_front-AddsRemoves cs offset size v)).valid

-- A part of `process` that leaves the three buffers as they are.
abbrev pub SameBuffers : Socket → Socket → Type 0
SameBuffers s s' =
    (s'.tx_buffer ≡ s.tx_buffer) × (s'.rx_buffer ≡ s.rx_buffer) × (s'.assembler ≡ s.assembler)

pub same_buffers : (s s' : Socket) → SameBuffers s s' → BuffersValid s → BuffersValid s'
same_buffers s s' (t, r, a) v = record {
  tx = subst IsValid (sym t) v.tx;
  rx = subst IsValid (sym r) v.rx;
  segments = subst Chain.IsValid (sym a) v.segments;
}

pub if-BuffersValid :
    (b : Bool) (x y : Socket) → BuffersValid x → BuffersValid y → BuffersValid (if b then x else y)
if-BuffersValid true x y p q = p
if-BuffersValid false x y p q = q

abbrev pub OutValid : Option Reply × Socket → Type 0
OutValid out = BuffersValid out.1

pub ack_reply-BuffersValid :
    (ip_repr : IpRepr) (repr : TcpRepr) (s : Socket)
    → BuffersValid s
    → Returns (λ (out : Reply × Socket). BuffersValid out.1) (ack_reply ip_repr repr s)
unfolding ack_reply
ack_reply-BuffersValid ip_repr repr s v =
    Returns-then (λ (out : Reply × Socket). BuffersValid out.1)
      (add s.remote_seq_no s.rx_buffer.length) _ (λ ack. same_buffers s _ (refl, refl, refl) v)

pub challenge_ack_reply-BuffersValid :
    (cx : Context) (ip_repr : IpRepr) (repr : TcpRepr) (s : Socket)
    → BuffersValid s
    → Returns OutValid (challenge_ack_reply cx ip_repr repr s)
unfolding challenge_ack_reply
challenge_ack_reply-BuffersValid cx ip_repr repr s v =
    Returns-if OutValid (ltb cx.now s.challenge_ack_timer) _ _ v (
      Returns-bind (λ (out : Reply × Socket). BuffersValid out.1) OutValid
        (ack_reply ip_repr repr waiting) _
        (ack_reply-BuffersValid ip_repr repr waiting (same_buffers s waiting (refl, refl, refl) v))
        (λ out k. k))
  where
    waiting : Socket
    waiting = record s { challenge_ack_timer = cx.now + 1000000 }

pub note_ack-BuffersValid :
    (cx : Context) (repr : TcpRepr) (ack : Acked) (s : Socket)
    → BuffersValid s
    → BuffersValid (note_ack cx repr ack s)
unfolding note_ack
note_ack-BuffersValid cx repr ack s v =
    elim (Option-cases (counting_ack repr.control repr.ack_number)) [
      | inl e ↦ rw (note_ack, e) v
      | inr (a, e) ↦ rw (note_ack, e) (same_buffers s _ (refl, refl, refl) v)
    ]

dequeue_acked-BuffersValid :
    (ack_len : ℕ) (s : Socket) → BuffersValid s → Returns BuffersValid (dequeue_acked ack_len s)
unfolding dequeue_acked
dequeue_acked-BuffersValid ack_len s v =
    Returns-if BuffersValid (ltb 0 ack_len) _ _
      (Returns-bind IsValid BuffersValid (dequeue_allocated s.tx_buffer ack_len) _
        (dequeue_allocated-IsValid s.tx_buffer ack_len v.tx)
        (λ r valid. record { tx = valid; rx = v.rx; segments = v.segments }))
      v

handle_ack-BuffersValid :
    (repr : TcpRepr) (ack_number : Option SeqNumber) (old_window : ℕ) (s : Socket)
    → BuffersValid s
    → BuffersValid (handle_ack repr ack_number old_window s)
unfolding handle_ack advance_local note_duplicate
handle_ack-BuffersValid repr none old_window s v = v
handle_ack-BuffersValid repr (some ack_number) old_window s v =
    let kept =
      if-BuffersValid (is_duplicate repr ack_number old_window s) _ _
        (same_buffers s _ (refl, refl, refl) v) (same_buffers s _ (refl, refl, refl) v) in
    record { tx = kept.tx; rx = kept.rx; segments = kept.segments }

pub update_remote-BuffersValid :
    (cx : Context) (repr : TcpRepr) (ack : Acked) (s : Socket)
    → BuffersValid s
    → Returns BuffersValid (update_remote cx repr ack s)
unfolding update_remote update_window
update_remote-BuffersValid cx repr ack s v =
    Returns-bind BuffersValid BuffersValid (dequeue_acked ack.ack_len (update_window cx repr s)) _
      (dequeue_acked-BuffersValid ack.ack_len (update_window cx repr s)
        (same_buffers s _ (refl, refl, refl) v))
      (λ a k. handle_ack-BuffersValid repr repr.ack_number s.remote_win_len a k)

pub place-BuffersValid :
    (payload : List ℕ) (offset contig_len : ℕ) (s : Socket)
    → BuffersValid s
    → Returns BuffersValid (place payload offset contig_len s)
unfolding place
place-BuffersValid payload offset contig_len s v =
    Returns-bind IsValid BuffersValid
      (if contig_len == 0 then some written else enqueue_unallocated written contig_len) _
      (Returns-if IsValid (contig_len == 0) (some written) (enqueue_unallocated written contig_len)
        written_valid (enqueue_unallocated-IsValid written contig_len written_valid))
      (λ r valid. record { tx = v.tx; rx = valid; segments = v.segments })
  where
    written : RingBuffer ℕ
    written = (write_unallocated s.rx_buffer offset payload).1

    written_valid : IsValid (write_unallocated s.rx_buffer offset payload).1
    written_valid = write_unallocated-IsValid s.rx_buffer offset payload v.rx
