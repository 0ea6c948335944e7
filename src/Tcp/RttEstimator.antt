-- ===== src/Tcp/RttEstimator.antt =====
-- socket/tcp.rs: the round-trip estimator. Times and durations are in microseconds, as in time.rs;
-- the estimator's own numbers are `u32` milliseconds.
pub mod Bounds
use smoltcp.Prelude.{
  ℕ, ◌+◌, ◌-◌, ◌*◌, ◌/◌, ◌%◌, ◌^◌, min, max, Bool, Option, none, some, ltb, leb, if◌then◌else◌,
}
use smoltcp.Wire.SeqNumber.{SeqNumber, seq_gt, seq_ge}

abbrev pub Instant : Type 0
Instant = ℕ

abbrev pub Duration : Type 0
Duration = ℕ

abbrev pub from_millis : ℕ → Duration
from_millis millis = millis * 1000

abbrev pub total_millis : Duration → ℕ
total_millis micros = micros / 1000

-- `Instant - Instant`: the absolute difference.
abbrev pub elapsed : Instant → Instant → Duration
elapsed a b = if ltb a b then b - a else a - b

pub record RttEstimator : Type 0 where
  pub rtt : ℕ
  pub deviation : ℕ
  pub timestamp : Option (Instant × SeqNumber)
  pub max_seq_sent : Option SeqNumber
  pub rto_count : ℕ

abbrev pub initial : RttEstimator
initial = record {
  rtt = 300;
  deviation = 100;
  timestamp = none;
  max_seq_sent = none;
  rto_count = 0;
}

-- `RTTE_MIN_RTO`, `RTTE_MAX_RTO` and `RTTE_MIN_MARGIN`
abbrev pub min_rto : ℕ
min_rto = 10

abbrev pub max_rto : ℕ
max_rto = 10000

abbrev min_margin : ℕ
min_margin = 5

unfoldable pub retransmission_timeout : RttEstimator → Duration
retransmission_timeout e = from_millis (min (max ((e.rtt + margin) % 2 ^ 32) min_rto) max_rto)
  where
    margin : ℕ
    margin = max min_margin ((e.deviation * 4) % 2 ^ 32)

-- `(a as i32 - b as i32).unsigned_abs()`
abbrev i32_distance : ℕ → ℕ → ℕ
i32_distance a b = let d = (a + 2 ^ 32 - b) % 2 ^ 32 in if ltb d (2 ^ 31) then d else 2 ^ 32 - d

unfoldable pub sample : ℕ → RttEstimator → RttEstimator
sample new_rtt e = record e { rtt = rtt'; deviation = deviation'; rto_count = 0 }
  where
    rtt' : ℕ
    rtt' = ((e.rtt * 7 + new_rtt + 7) % 2 ^ 32) / 8

    deviation' : ℕ
    deviation' = ((e.deviation * 3 + i32_distance rtt' new_rtt + 3) % 2 ^ 32) / 4

unfoldable pub on_send : Instant → SeqNumber → RttEstimator → RttEstimator
on_send now seq e =
    if newer e.max_seq_sent
    then record e { max_seq_sent = some seq; timestamp = start e.timestamp }
    else e
  where
    newer : Option SeqNumber → Bool
    newer none = Bool.true
    newer (some max_seq_sent) = seq_gt seq max_seq_sent

    start : Option (Instant × SeqNumber) → Option (Instant × SeqNumber)
    start none = some (now, seq)
    start (some t) = some t

unfoldable pub on_ack : Instant → SeqNumber → RttEstimator → RttEstimator
unfolding sample
on_ack now seq e = elim e.timestamp [
  | none ↦ e
  | some (sent_timestamp, sent_seq) ↦
      if seq_ge seq sent_seq
      then (let sampled = sample (total_millis (elapsed now sent_timestamp) % 2 ^ 32) e in
          record sampled { timestamp = none })
      else e
]

-- `rto_count.saturating_add(1)` of a `u8`.
abbrev saturating_inc : ℕ → ℕ
saturating_inc n = min (n + 1) 255

unfoldable pub on_retransmit : RttEstimator → RttEstimator
on_retransmit e =
    if leb 3 (saturating_inc e.rto_count)
    then record e { timestamp = none; rto_count = 0; rtt = min max_rto ((e.rtt * 2) % 2 ^ 32) }
    else record e { timestamp = none; rto_count = saturating_inc e.rto_count }
