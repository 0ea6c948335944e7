-- ===== src/Tcp/Process/BuffersKept.antt =====
-- `Socket::process`: the change of state and the reception of the payload keep the buffers well formed.
use smoltcp.Prelude.{
  ℕ, ◌≡◌, refl, Bool, ◌||◌, not, Option, none, some, List, ◌==◌, if◌then◌else◌, Result, ok, err,
  length, Checked, ◌>>=◌, Returns, Returns-bind, Returns-then, Returns-if,
}
use smoltcp.Wire.SeqNumber.{add}
use smoltcp.Wire.Ip.{IpRepr}
use smoltcp.Wire.TcpRepr.{Control, TcpRepr}
use smoltcp.Storage.Assembler
use smoltcp.Storage.Assembler.{Contigs, TooManyHoles}
use smoltcp.Tcp.State.{State}
use smoltcp.Tcp.Socket.{Socket, Context}
use smoltcp.Tcp.Timer.{is_retransmit}
use smoltcp.Tcp.Segment.{Reply, ack_reply, ack_to_transmit, window_to_update}
use smoltcp.Tcp.Process.Ack.{Acked}
use smoltcp.Tcp.Process.Transition.{
  Flow, rearm, await_close, set_mss, syn_in_listen, syn_in_syn_sent, with_mss, take_fin, step,
}
use smoltcp.Tcp.Process.Payload.{place, next_delay, delay_ack, immediate_ack, receive}
use smoltcp.Tcp.Process.Edges.{socket_of}
use smoltcp.Tcp.Process.Buffers.{
  BuffersValid, OutValid, same_buffers, if-BuffersValid, ack_reply-BuffersValid, place-BuffersValid,
  add_then_remove_front-IsValid,
}

delay_ack-BuffersValid :
    (cx : Context) (s : Socket) → BuffersValid s → Returns BuffersValid (delay_ack cx s)
unfolding delay_ack
delay_ack-BuffersValid cx s v = delayed s.ack_delay
  where
    delayed :
        (d : Option ℕ)
        → Returns BuffersValid (elim d [
          | none ↦ some s
          | some ack_delay ↦ do
            to_transmit ← ack_to_transmit s
            some (
                if to_transmit || window_to_update s
                then record s { ack_delay_timer = next_delay cx ack_delay s.ack_delay_timer }
                else s)
        ])
    delayed none = v
    delayed (some d) = Returns-then BuffersValid (ack_to_transmit s) _ (λ b.
        if-BuffersValid (b || window_to_update s) _ _ (same_buffers s _ (refl, refl, refl) v) v)

immediate_ack-BuffersValid :
    (ip_repr : IpRepr) (repr : TcpRepr) (was_empty : Bool) (s : Socket)
    → BuffersValid s
    → Returns OutValid (immediate_ack ip_repr repr was_empty s)
unfolding immediate_ack
immediate_ack-BuffersValid ip_repr repr was_empty s v =
    Returns-if OutValid (not (Assembler.is_empty s.assembler) || not was_empty) _ _
      (Returns-bind (λ (out : Reply × Socket). BuffersValid out.1) OutValid
        (ack_reply ip_repr repr s) _ (ack_reply-BuffersValid ip_repr repr s v) (λ out k. k))
      v

pub receive-BuffersValid :
    (cx : Context) (ip_repr : IpRepr) (repr : TcpRepr) (payload : List ℕ) (offset : ℕ) (s : Socket)
    → BuffersValid s
    → Returns OutValid (receive cx ip_repr repr payload offset s)
unfolding receive
receive-BuffersValid cx ip_repr repr payload offset s v =
    Returns-if OutValid (length payload == 0) _ _ v
      (placed (Assembler.add_then_remove_front s.assembler offset (length payload)) refl)
  where
    placed :
        (r : Result TooManyHoles (ℕ × Contigs))
        → Assembler.add_then_remove_front s.assembler offset (length payload) ≡ r
        → Returns OutValid (elim r [
          | err _ ↦ some (none, s)
          | ok (contig_len, assembler) ↦ (do
            s1 ← place payload offset contig_len (record s { assembler = assembler })
            s2 ← delay_ack cx s1
            immediate_ack ip_repr repr (Assembler.is_empty s.assembler) s2)
        ])
    placed (err e) q = v
    placed (ok (n, a)) q =
        Returns-bind BuffersValid OutValid (place payload offset n (record s { assembler = a })) _
          (place-BuffersValid payload offset n (record s { assembler = a })
            (record {
              tx = v.tx;
              rx = v.rx;
              segments =
                  add_then_remove_front-IsValid s.assembler offset (length payload) n a v.segments
                    q;
            }))
          (λ s1 v1.
            Returns-bind BuffersValid OutValid (delay_ack cx s1) _ (delay_ack-BuffersValid cx s1 v1)
              (λ s2 v2. immediate_ack-BuffersValid ip_repr repr _ s2 v2))

abbrev pub FlowValid : Flow → Type 0
FlowValid flow = BuffersValid (socket_of flow)

module _ (cx : Context) (ip_repr : IpRepr) (repr : TcpRepr) where
  syn_in_listen-BuffersValid :
      (s : Socket) → BuffersValid s → Returns FlowValid (syn_in_listen cx ip_repr repr s)
  unfolding syn_in_listen
  syn_in_listen-BuffersValid s v =
      Returns-then FlowValid (add repr.seq_number 1) _
        (λ seq. same_buffers s _ (refl, refl, refl) v)

  syn_in_syn_sent-BuffersValid :
      (s : Socket) → BuffersValid s → Returns FlowValid (syn_in_syn_sent cx ip_repr repr s)
  unfolding syn_in_syn_sent
  syn_in_syn_sent-BuffersValid s v = Returns-then FlowValid (add repr.seq_number 1) _ (λ seq.
      Returns-then FlowValid (add s.local_seq_no 1) _
        (λ last. same_buffers s _ (refl, refl, refl) v))

  with_mss-BuffersValid :
      (next : Socket → Checked Flow) (mss : Option ℕ) (s : Socket)
      → ((s' : Socket) → BuffersValid s' → Returns FlowValid (next s'))
      → BuffersValid s
      → Returns FlowValid (with_mss cx ip_repr repr next mss s)
  unfolding with_mss set_mss
  with_mss-BuffersValid next none s h v = h s v
  with_mss-BuffersValid next (some mss) s h v =
      Returns-if FlowValid (mss == 0) (some (Flow.stop s)) (next (set_mss mss s)) v
        (h (set_mss mss s) (same_buffers s _ (refl, refl, refl) v))

  take_fin-rearm :
      (st : State) (s : Socket)
      → BuffersValid s
      → Returns FlowValid (take_fin cx ip_repr repr st (rearm cx ip_repr repr) s)
  unfolding take_fin
  take_fin-rearm st s v =
      Returns-then FlowValid (add s.remote_seq_no 1) _
        (λ seq. same_buffers s _ (refl, refl, refl) v)

  take_fin-await_close :
      (st : State) (s : Socket)
      → BuffersValid s
      → Returns FlowValid (take_fin cx ip_repr repr st (await_close cx ip_repr repr) s)
  unfolding take_fin
  take_fin-await_close st s v =
      Returns-then FlowValid (add s.remote_seq_no 1) _
        (λ seq. same_buffers s _ (refl, refl, refl) v)

  pub step-BuffersValid :
      (ack : Acked) (st : State) (k : Control) (s : Socket)
      → BuffersValid s
      → Returns FlowValid (step cx ip_repr repr ack st k s)
  unfolding step
  step-BuffersValid ack State.listen Control.rst s v = v
  step-BuffersValid ack State.syn_received Control.rst s v = same_buffers s _ (refl, refl, refl) v
  step-BuffersValid ack st Control.rst s v = same_buffers s _ (refl, refl, refl) v
  step-BuffersValid ack State.listen Control.syn s v =
      with_mss-BuffersValid _ repr.max_seg_size s syn_in_listen-BuffersValid v
  step-BuffersValid ack State.syn_received Control.plain s v = same_buffers s _ (refl, refl, refl) v
  step-BuffersValid ack State.syn_received Control.fin s v = take_fin-rearm _ s v
  step-BuffersValid ack State.syn_sent Control.syn s v =
      with_mss-BuffersValid _ repr.max_seg_size s syn_in_syn_sent-BuffersValid v
  step-BuffersValid ack State.established Control.plain s v =
      if-BuffersValid (not (is_retransmit s.timer) || ack.ack_all) _ _
        (same_buffers s _ (refl, refl, refl) v) v
  step-BuffersValid ack State.established Control.fin s v = take_fin-rearm _ s v
  step-BuffersValid ack State.fin_wait_1 Control.plain s v =
      let kept = if-BuffersValid ack.ack_of_fin _ s (same_buffers s _ (refl, refl, refl) v) v in
      if-BuffersValid ack.ack_all _ _ (same_buffers _ _ (refl, refl, refl) kept) kept
  step-BuffersValid ack State.fin_wait_1 Control.fin s v =
      Returns-if FlowValid ack.ack_of_fin _ _ (take_fin-await_close _ s v) (take_fin-rearm _ s v)
  step-BuffersValid ack State.fin_wait_2 Control.plain s v = same_buffers s _ (refl, refl, refl) v
  step-BuffersValid ack State.fin_wait_2 Control.fin s v = take_fin-await_close _ s v
  step-BuffersValid ack State.closing Control.plain s v =
      if-BuffersValid ack.ack_of_fin _ _ (same_buffers s _ (refl, refl, refl) v)
        (same_buffers s _ (refl, refl, refl) v)
  step-BuffersValid ack State.close_wait Control.plain s v = same_buffers s _ (refl, refl, refl) v
  step-BuffersValid ack State.last_ack Control.plain s v =
      if-BuffersValid ack.ack_of_fin _ _ (same_buffers s _ (refl, refl, refl) v)
        (same_buffers s _ (refl, refl, refl) v)
  step-BuffersValid ack st k s v = v
