-- ===== src/Tcp/RttEstimator/Bounds.antt =====
-- socket/tcp.rs: the bounds of the retransmission timeout.
use smoltcp.Prelude.{◌≤◌, arith}
use smoltcp.Tcp.RttEstimator.{RttEstimator, retransmission_timeout, from_millis, min_rto, max_rto}

-- Whatever has been measured, the retransmission timeout lies between RTTE_MIN_RTO and RTTE_MAX_RTO,
-- also where the 32-bit sums wrap around.
pub retransmission_timeout-bounds :
    (e : RttEstimator)
    → (from_millis min_rto ≤ retransmission_timeout e)
      × (retransmission_timeout e ≤ from_millis max_rto)
unfolding retransmission_timeout
retransmission_timeout-bounds e = (ground arith, ground arith)
