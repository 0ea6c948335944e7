-- ===== src/Tcp/Timer.antt =====
-- socket/tcp.rs: the timer of a connection, and the delayed acknowledgement timer's state.
use smoltcp.Prelude.{◌+◌, ◌*◌, Bool, true, false, Option, none, some, leb, if◌then◌else◌}
use smoltcp.Tcp.RttEstimator.{Instant, Duration, from_millis, elapsed}

-- `PollAt` of socket/mod.rs, in the order of its derived `Ord`.
pub data PollAt : Type 0 where
  now : PollAt
  time : Instant → PollAt
  ingress : PollAt

-- The earlier of two.
unfoldable pub earlier : PollAt → PollAt → PollAt
earlier now _ = now
earlier (time a) now = now
earlier (time a) (time b) = if leb a b then time a else time b
earlier (time a) ingress = time a
earlier ingress b = b

pub data Timer : Type 0 where
  idle : Option Instant → Timer
  retransmit : Instant → Duration → Timer
  fast_retransmit : Timer
  close : Instant → Timer

pub data AckDelayTimer : Type 0 where
  idle : AckDelayTimer
  waiting : Instant → AckDelayTimer
  immediate : AckDelayTimer

abbrev pub ack_delay_default : Duration
ack_delay_default = from_millis 10

abbrev pub close_delay : Duration
close_delay = from_millis 10000

abbrev pub new : Timer
new = Timer.idle none

unfoldable pub should_keep_alive : Timer → Instant → Bool
should_keep_alive (Timer.idle (some keep_alive_at)) timestamp = leb keep_alive_at timestamp
should_keep_alive _ timestamp = false

unfoldable pub should_retransmit : Timer → Instant → Option Duration
should_retransmit (retransmit expires_at delay) timestamp =
    if leb expires_at timestamp then some (elapsed timestamp expires_at + delay) else none
should_retransmit fast_retransmit timestamp = some 0
should_retransmit _ timestamp = none

unfoldable pub should_close : Timer → Instant → Bool
should_close (close expires_at) timestamp = leb expires_at timestamp
should_close _ timestamp = false

unfoldable pub poll_at : Timer → PollAt
poll_at (Timer.idle (some keep_alive_at)) = time keep_alive_at
poll_at (Timer.idle none) = ingress
poll_at (retransmit expires_at delay) = time expires_at
poll_at fast_retransmit = now
poll_at (close expires_at) = time expires_at

-- `interval.map(|interval| timestamp + interval)`
abbrev after_interval : Instant → Option Duration → Option Instant
after_interval timestamp none = none
after_interval timestamp (some interval) = some (timestamp + interval)

unfoldable pub set_for_idle : Instant → Option Duration → Timer
set_for_idle timestamp interval = Timer.idle (after_interval timestamp interval)

unfoldable pub set_keep_alive : Timer → Timer
set_keep_alive (Timer.idle none) = Timer.idle (some 0)
set_keep_alive t = t

unfoldable pub rewind_keep_alive : Timer → Instant → Option Duration → Timer
rewind_keep_alive (Timer.idle _) timestamp interval = Timer.idle (after_interval timestamp interval)
rewind_keep_alive (retransmit e d) timestamp interval = retransmit e d
rewind_keep_alive fast_retransmit timestamp interval = fast_retransmit
rewind_keep_alive (close e) timestamp interval = close e

unfoldable pub set_for_retransmit : Timer → Instant → Duration → Timer
set_for_retransmit (Timer.idle _) timestamp delay = retransmit (timestamp + delay) delay
set_for_retransmit fast_retransmit timestamp delay = retransmit (timestamp + delay) delay
set_for_retransmit (retransmit expires_at old) timestamp delay =
    if leb expires_at timestamp
    then retransmit (timestamp + old) (old * 2)
    else retransmit expires_at old
set_for_retransmit (close expires_at) timestamp delay = close expires_at

abbrev pub set_for_fast_retransmit : Timer
set_for_fast_retransmit = fast_retransmit

unfoldable pub set_for_close : Instant → Timer
set_for_close timestamp = close (timestamp + close_delay)

unfoldable pub is_retransmit : Timer → Bool
is_retransmit (retransmit e d) = true
is_retransmit fast_retransmit = true
is_retransmit (Timer.idle _) = false
is_retransmit (close e) = false
