-- ===== src/Tcp.antt =====
-- The TCP socket.
pub mod RttEstimator
pub mod Timer
pub mod Congestion
pub mod State
pub mod Socket
pub mod Segment
pub mod Process
pub mod Calls
pub mod Dispatch
pub mod Run
mod Tests
