-- ===== src/Tcp/Process/Ack.antt =====
-- `Socket::process`: which acknowledgements are acceptable, and how much they acknowledge.
use smoltcp.Prelude.{
  ℕ, ◌+◌, ◌-◌, Bool, true, false, ◌&&◌, Option, none, some, ◌==◌, if◌then◌else◌, Checked, ◌>>=◌,
}
use smoltcp.Wire.SeqNumber.{SeqNumber, add, distance, seq_lt, seq_gt, seq_ge}
use smoltcp.Wire.TcpRepr.{Control, TcpRepr}
use smoltcp.Tcp.State.{State}
use smoltcp.Tcp.RttEstimator
use smoltcp.Tcp.Congestion
use smoltcp.Tcp.Socket.{Socket, Context}

-- "In SYN-SENT or SYN-RECEIVED, we've just sent a SYN."
abbrev pub sent_syn : State → Bool
sent_syn State.syn_sent = true
sent_syn State.syn_received = true
sent_syn _ = false

-- "In FIN-WAIT-1, LAST-ACK, or CLOSING, we've just sent a FIN."
abbrev pub sent_fin : State → Bool
sent_fin State.fin_wait_1 = true
sent_fin State.last_ack = true
sent_fin State.closing = true
sent_fin _ = false

abbrev pub as_usize : Bool → ℕ
as_usize true = 1
as_usize false = 0

pub data Verdict : Type 0 where
  accept drop send_rst challenge : Verdict

-- The last case: "every acknowledgement must be for transmitted but unacknowledged data".
unfoldable pub in_ack_range : Socket → SeqNumber → Checked Verdict
in_ack_range s ack_number = do
  ack_max ←
      add s.local_seq_no
        (s.tx_buffer.length + (as_usize (sent_syn s.state) + as_usize (sent_fin s.state)))
  ack_min ← (if sent_syn s.state then add s.local_seq_no 1 else some s.local_seq_no)
  some (
      if seq_lt ack_number ack_min
      then Verdict.drop
      else if seq_gt ack_number ack_max
      then Verdict.challenge
      else Verdict.accept)

-- The acknowledgement of our SYN, or else `other`.
unfoldable pub exactly_syn : Socket → SeqNumber → Verdict → Verdict → Checked Verdict
exactly_syn s ack_number same other = do
  expected ← add s.local_seq_no 1
  some (if ack_number == expected then same else other)

-- "Reject unacceptable acknowledgements."
unfoldable pub ack_verdict : Socket → State → Control → Option SeqNumber → Checked Verdict
unfolding in_ack_range exactly_syn
ack_verdict s State.syn_sent Control.rst none = some Verdict.drop
ack_verdict s State.syn_sent Control.rst (some ack) = exactly_syn s ack Verdict.accept Verdict.drop
ack_verdict s _ Control.rst ack = some Verdict.accept
ack_verdict s State.listen control none = some Verdict.accept
ack_verdict s State.listen control (some ack) = none
ack_verdict s _ control none = some Verdict.drop
ack_verdict s State.syn_sent Control.syn (some ack) =
    exactly_syn s ack Verdict.accept Verdict.send_rst
ack_verdict s State.syn_sent Control.plain (some ack) =
    exactly_syn s ack Verdict.drop Verdict.send_rst
ack_verdict s State.syn_sent control (some ack) = some Verdict.drop
ack_verdict s State.syn_received control (some ack) =
    exactly_syn s ack Verdict.accept Verdict.send_rst
ack_verdict s _ control (some ack) = in_ack_range s ack

-- The octets that are acknowledged, "removing the SYN and FIN bits from the sequence space".
pub record Acked : Type 0 where
  pub ack_len : ℕ
  pub ack_of_fin : Bool
  pub ack_all : Bool

abbrev pub nothing_acked : Acked
nothing_acked = record { ack_len = 0; ack_of_fin = false; ack_all = false }

unfoldable pub acked_by : Socket → SeqNumber → Checked Acked
acked_by s ack_number = do
  tx_buffer_start_seq ← add s.local_seq_no (as_usize (sent_syn s.state))
  if seq_ge ack_number tx_buffer_start_seq
      then (do
        ack_len ← distance ack_number tx_buffer_start_seq
        let ack_of_fin = sent_fin s.state && (s.tx_buffer.length + 1 == ack_len)
        some (record {
          ack_len = if ack_of_fin then ack_len - 1 else ack_len;
          ack_of_fin = ack_of_fin;
          ack_all = s.remote_last_seq == ack_number;
        }))
      else some nothing_acked

-- The acknowledgement that counts: none on an RST.
abbrev pub counting_ack : Control → Option SeqNumber → Option SeqNumber
counting_ack Control.rst ack = none
counting_ack Control.plain ack = ack
counting_ack Control.psh ack = ack
counting_ack Control.syn ack = ack
counting_ack Control.fin ack = ack

unfoldable pub acked_number : Option SeqNumber → Socket → Checked Acked
unfolding acked_by
acked_number none s = some nothing_acked
acked_number (some ack_number) s = acked_by s ack_number

unfoldable pub acked : TcpRepr → Socket → Checked Acked
unfolding acked_number
acked repr s = acked_number (counting_ack repr.control repr.ack_number) s

-- The estimator and the congestion controller hear of the acknowledgement.
unfoldable pub note_ack : Context → TcpRepr → Acked → Socket → Socket
note_ack cx repr ack s = elim (counting_ack repr.control repr.ack_number) [
  | none ↦ s
  | some ack_number ↦ record s {
    rtte = RttEstimator.on_ack cx.now ack_number s.rtte;
    congestion_controller = Congestion.on_ack ack.ack_len s.congestion_controller;
  }
]
