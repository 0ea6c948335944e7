-- ===== src/Tcp/Congestion.antt =====
-- socket/tcp/congestion.rs and its children no_control.rs and reno.rs: `AnyController` of a build
-- with the feature `socket-tcp-reno` and without `socket-tcp-cubic`, and Reno itself.
use smoltcp.Prelude.{ℕ, ◌+◌, ◌-◌, ◌*◌, ◌/◌, ◌^◌, min, max, ltb, if◌then◌else◌}

abbrev pub usize_max : ℕ
usize_max = 2 ^ 64 - 1

pub record Reno : Type 0 where
  pub cwnd : ℕ
  pub min_cwnd : ℕ
  pub ssthresh : ℕ
  pub rwnd : ℕ

abbrev pub reno_new : Reno
reno_new = record { cwnd = 1024 * 2; min_cwnd = 1024 * 2; ssthresh = usize_max; rwnd = 64 * 1024 }

-- `.saturating_add(len).min(self.rwnd).max(self.min_cwnd)`
abbrev grow : Reno → ℕ → ℕ
grow r len = max (min (min (r.cwnd + len) usize_max) r.rwnd) r.min_cwnd

unfoldable pub reno_on_ack : ℕ → Reno → Reno
reno_on_ack len r =
    if ltb r.cwnd r.ssthresh
    then record r { cwnd = grow r len }
    else record r { ssthresh = r.cwnd; cwnd = grow r r.min_cwnd }

unfoldable pub reno_on_duplicate_ack : Reno → Reno
reno_on_duplicate_ack r = record r { ssthresh = max (r.cwnd / 2) r.min_cwnd }

unfoldable pub reno_on_retransmit : Reno → Reno
reno_on_retransmit r = record r { cwnd = max (r.cwnd / 2) r.min_cwnd }

unfoldable pub reno_set_mss : ℕ → Reno → Reno
reno_set_mss mss r = record r { min_cwnd = mss }

unfoldable pub reno_set_remote_window : ℕ → Reno → Reno
reno_set_remote_window remote_window r =
    if ltb r.rwnd remote_window then record r { rwnd = remote_window } else r

pub data AnyController : Type 0 where
  no_control : AnyController
  reno : Reno → AnyController

-- The methods of `dyn Controller`; `NoControl` has the trait's default ones, and neither controller
-- overrides `pre_transmit` and `post_transmit`.
unfoldable pub window : AnyController → ℕ
window no_control = usize_max
window (reno r) = r.cwnd

abbrev with_reno : (Reno → Reno) → AnyController → AnyController
with_reno f no_control = no_control
with_reno f (reno r) = reno (f r)

unfoldable pub on_ack : ℕ → AnyController → AnyController
on_ack len = with_reno (reno_on_ack len)

unfoldable pub on_duplicate_ack : AnyController → AnyController
on_duplicate_ack = with_reno reno_on_duplicate_ack

unfoldable pub on_retransmit : AnyController → AnyController
on_retransmit = with_reno reno_on_retransmit

unfoldable pub set_mss : ℕ → AnyController → AnyController
set_mss mss = with_reno (reno_set_mss mss)

unfoldable pub set_remote_window : ℕ → AnyController → AnyController
set_remote_window remote_window = with_reno (reno_set_remote_window remote_window)
