-- ===== src/Tcp/Process/Frame.antt =====
-- `Socket::process`: the parts that change neither the state nor the endpoints of the connection.
use smoltcp.Prelude.{
  ℕ, ◌+◌, ◌>>=◌, ◌≡◌, refl, ◌∙◌, inl, inr, Bool, ◌||◌, not, Option, none, some, List, ltb, ◌==◌,
  if◌then◌else◌, Bool-cases, Option-cases, Result, ok, err, length, Returns, Returns-bind,
  Returns-then, Returns-if, Returns-weaken,
}
use smoltcp.Wire.SeqNumber.{SeqNumber, add}
use smoltcp.Wire.Ip.{IpRepr}
use smoltcp.Wire.TcpRepr.{TcpRepr}
use smoltcp.Storage.Assembler
use smoltcp.Storage.Assembler.{Contigs, TooManyHoles}
use smoltcp.Storage.RingBuffer
use smoltcp.Tcp.Socket.{Socket, Context}
use smoltcp.Tcp.Segment.{Reply, ack_reply, challenge_ack_reply, ack_to_transmit, window_to_update}
use smoltcp.Tcp.Process.Ack.{Acked, note_ack, counting_ack}
use smoltcp.Tcp.Process.Update.{
  update_window, dequeue_acked, note_duplicate, is_duplicate, advance_local, handle_ack,
  update_remote,
}
use smoltcp.Tcp.Process.Payload.{place, next_delay, delay_ack, immediate_ack, receive}

-- The second socket has the state and the endpoints of the first.
pub record Keeps (s s' : Socket) : Type 0 where
  pub state : s'.state ≡ s.state
  pub tuple : s'.tuple ≡ s.tuple

pub Keeps-refl : (s : Socket) → Keeps s s
Keeps-refl s = record { state = refl; tuple = refl }

Keeps-trans : (s s' s'' : Socket) → Keeps s s' → Keeps s' s'' → Keeps s s''
Keeps-trans s s' s'' a b = record { state = b.state ∙ a.state; tuple = b.tuple ∙ a.tuple }

pub ack_reply-Keeps :
    (ip_repr : IpRepr) (repr : TcpRepr) (s : Socket)
    → Returns (λ out. Keeps s out.1) (ack_reply ip_repr repr s)
unfolding ack_reply
ack_reply-Keeps ip_repr repr s =
    Returns-then (λ out. Keeps s out.1) (add s.remote_seq_no s.rx_buffer.length) _
      (λ ack. record { state = refl; tuple = refl })

pub challenge_ack_reply-Keeps :
    (cx : Context) (ip_repr : IpRepr) (repr : TcpRepr) (s : Socket)
    → Returns (λ out. Keeps s out.1) (challenge_ack_reply cx ip_repr repr s)
unfolding challenge_ack_reply
challenge_ack_reply-Keeps cx ip_repr repr s =
    Returns-if (λ out. Keeps s out.1) (ltb cx.now s.challenge_ack_timer) _ _ (Keeps-refl s)
      (Returns-bind (λ out. Keeps s' out.1) (λ out. Keeps s out.1) (ack_reply ip_repr repr s') _
        (ack_reply-Keeps ip_repr repr s') (λ out k. record { state = k.state; tuple = k.tuple }))
  where
    s' : Socket
    s' = record s { challenge_ack_timer = cx.now + 1000000 }

pub note_ack-Keeps :
    (cx : Context) (repr : TcpRepr) (ack : Acked) (s : Socket) → Keeps s (note_ack cx repr ack s)
unfolding note_ack
note_ack-Keeps cx repr ack s = elim (Option-cases (counting_ack repr.control repr.ack_number)) [
  | inl e ↦ rw (note_ack, e) (Keeps-refl s)
  | inr (a, e) ↦ rw (note_ack, e) (record { state = refl; tuple = refl })
]

dequeue_acked-Keeps : (ack_len : ℕ) (s : Socket) → Returns (Keeps s) (dequeue_acked ack_len s)
unfolding dequeue_acked
dequeue_acked-Keeps ack_len s =
    Returns-if (Keeps s) (ltb 0 ack_len) _ _
      (Returns-then (Keeps s) (RingBuffer.dequeue_allocated s.tx_buffer ack_len) _
        (λ r. record { state = refl; tuple = refl }))
      (Keeps-refl s)

note_duplicate-Keeps :
    (repr : TcpRepr) (ack_number : SeqNumber) (old_window : ℕ) (s : Socket)
    → Keeps s (note_duplicate repr ack_number old_window s)
unfolding note_duplicate
note_duplicate-Keeps repr ack_number old_window s =
    elim (Bool-cases (is_duplicate repr ack_number old_window s)) [
      | inl e ↦ rw e (record { state = refl; tuple = refl })
      | inr e ↦ rw e (record { state = refl; tuple = refl })
    ]

handle_ack-Keeps :
    (repr : TcpRepr) (ack_number : Option SeqNumber) (old_window : ℕ) (s : Socket)
    → Keeps s (handle_ack repr ack_number old_window s)
unfolding handle_ack advance_local
handle_ack-Keeps repr none old_window s = Keeps-refl s
handle_ack-Keeps repr (some ack_number) old_window s =
    let k = note_duplicate-Keeps repr ack_number old_window s in
    record { state = k.state; tuple = k.tuple }

pub update_remote-Keeps :
    (cx : Context) (repr : TcpRepr) (ack : Acked) (s : Socket)
    → Returns (Keeps s) (update_remote cx repr ack s)
unfolding update_remote update_window
update_remote-Keeps cx repr ack s =
    Returns-bind (Keeps s') (Keeps s) (dequeue_acked ack.ack_len s') _
      (dequeue_acked-Keeps ack.ack_len s')
      (λ a k.
        let h = handle_ack-Keeps repr repr.ack_number s.remote_win_len a in
        record { state = h.state ∙ k.state; tuple = h.tuple ∙ k.tuple })
  where
    s' : Socket
    s' = update_window cx repr s

place-Keeps :
    (payload : List ℕ) (offset contig_len : ℕ) (s : Socket)
    → Returns (Keeps s) (place payload offset contig_len s)
unfolding place
place-Keeps payload offset contig_len s =
    Returns-then (Keeps s)
      (if contig_len == 0
        then some (RingBuffer.write_unallocated s.rx_buffer offset payload).1
        else RingBuffer.enqueue_unallocated
            (RingBuffer.write_unallocated s.rx_buffer offset payload).1 contig_len)
      _ (λ r. record { state = refl; tuple = refl })

delay_ack-Keeps : (cx : Context) (s : Socket) → Returns (Keeps s) (delay_ack cx s)
unfolding delay_ack
delay_ack-Keeps cx s = delayed s.ack_delay
  where
    delayed :
        (d : Option ℕ)
        → Returns (Keeps s) (elim d [
          | none ↦ some s
          | some ack_delay ↦ do
            to_transmit ← ack_to_transmit s
            some (
                if to_transmit || window_to_update s
                then record s { ack_delay_timer = next_delay cx ack_delay s.ack_delay_timer }
                else s)
        ])
    delayed none = Keeps-refl s
    delayed (some d) = Returns-then (Keeps s) (ack_to_transmit s) _ (λ b.
        elim (Bool-cases (b || window_to_update s)) [
          | inl t ↦ rw t (record { state = refl; tuple = refl })
          | inr t ↦ rw t (Keeps-refl s)
        ])

immediate_ack-Keeps :
    (ip_repr : IpRepr) (repr : TcpRepr) (was_empty : Bool) (s : Socket)
    → Returns (λ out. Keeps s out.1) (immediate_ack ip_repr repr was_empty s)
unfolding immediate_ack
immediate_ack-Keeps ip_repr repr was_empty s =
    Returns-if (λ out. Keeps s out.1) (not (Assembler.is_empty s.assembler) || not was_empty) _ _
      (Returns-bind (λ out. Keeps s out.1) (λ out. Keeps s out.1) (ack_reply ip_repr repr s) _
        (ack_reply-Keeps ip_repr repr s) (λ out k. k))
      (Keeps-refl s)

pub receive-Keeps :
    (cx : Context) (ip_repr : IpRepr) (repr : TcpRepr) (payload : List ℕ) (offset : ℕ) (s : Socket)
    → Returns (λ out. Keeps s out.1) (receive cx ip_repr repr payload offset s)
unfolding receive
receive-Keeps cx ip_repr repr payload offset s =
    Returns-if (λ out. Keeps s out.1) (length payload == 0) _ _ (Keeps-refl s)
      (placed (Assembler.add_then_remove_front s.assembler offset (length payload)))
  where
    placed :
        (r : Result TooManyHoles (ℕ × Contigs))
        → Returns
            (λ (out : Option Reply × Socket). Keeps s out.1)
            (elim r [
              | err _ ↦ some (none, s)
              | ok (contig_len, assembler) ↦ (do
                s1 ← place payload offset contig_len (record s { assembler = assembler })
                s2 ← delay_ack cx s1
                immediate_ack ip_repr repr (Assembler.is_empty s.assembler) s2)
            ])
    placed (err e) = Keeps-refl s
    placed (ok (n, a)) =
        Returns-bind (Keeps (record s { assembler = a })) (λ out. Keeps s out.1)
          (place payload offset n (record s { assembler = a })) _
          (place-Keeps payload offset n (record s { assembler = a }))
          (λ s1 k1.
            Returns-bind (Keeps s1) (λ out. Keeps s out.1) (delay_ack cx s1) _
              (delay_ack-Keeps cx s1)
              (λ s2 k2.
                Returns-weaken (λ out. Keeps s2 out.1) (λ out. Keeps s out.1)
                  (immediate_ack ip_repr repr (Assembler.is_empty s.assembler) s2)
                  (immediate_ack-Keeps ip_repr repr _ s2)
                  (λ out k3. record {
                    state = k3.state ∙ k2.state ∙ k1.state;
                    tuple = k3.tuple ∙ k2.tuple ∙ k1.tuple;
                  })))
