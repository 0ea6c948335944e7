-- ===== src/Tcp/Process/Window.antt =====
-- `Socket::process`: the segment acceptability tests of RFC 9293, and the part of the payload that
-- lies in the receive window.
use smoltcp.Prelude.{
  ℕ, ◌-◌, Bool, true, false, ◌&&◌, ◌||◌, not, none, some, List, leb, ◌==◌, if◌then◌else◌, Checked,
  ◌>>=◌, length,
}
use smoltcp.Prelude.Slices.{slice}
use smoltcp.Storage.RingBuffer
use smoltcp.Wire.SeqNumber.{SeqNumber, add, sub, distance, seq_lt, seq_le, seq_max, seq_min}
use smoltcp.Wire.TcpRepr.{TcpRepr}
use smoltcp.Tcp.State.{State}
use smoltcp.Tcp.Socket.{Socket}

-- `segment_in_window`
unfoldable pub segment_in_window : SeqNumber → SeqNumber → SeqNumber → SeqNumber → Checked Bool
segment_in_window window_start window_end segment_start segment_end = do
  before_window ← sub window_start 1
  some (
      if (segment_start == segment_end) && (segment_end == before_window)
      then false
      else if segment_start == segment_end
      then if window_start == window_end
        then window_start == segment_start
        else seq_le window_start segment_start && seq_lt segment_start window_end
      else if window_start == window_end
      then false
      else (seq_le window_start segment_start && seq_lt segment_start window_end)
        || (seq_lt window_start segment_end && seq_le segment_end window_end))

-- The payload from `from` up to `to`; a slice index out of range panics.
unfoldable pub payload_slice : List ℕ → ℕ → ℕ → Checked (List ℕ)
payload_slice payload from to =
    if leb from to && leb to (length payload) then some (slice payload from (to - from)) else none

-- What of a segment is for us. Each case but the first says whether it starts at the window's start.
pub data Segment : Type 0 where
  outside : Segment
  inside : List ℕ → ℕ → Bool → Segment
  unsynchronized : Bool → Segment

-- The overlap of the segment and the window.
unfoldable pub overlap : List ℕ → SeqNumber → SeqNumber → SeqNumber → SeqNumber → Checked Segment
unfolding payload_slice
overlap payload window_start window_end segment_start segment_end = do
  let overlap_start = seq_max window_start segment_start
  let overlap_end = seq_min window_end segment_end
  from ← distance overlap_start segment_start
  to ← distance overlap_end segment_start
  part ← payload_slice payload from to
  offset ← distance overlap_start window_start
  some (Segment.inside part offset (window_start == segment_start))

-- "In LISTEN and SYN-SENT states, we have not yet synchronized with the remote end."
abbrev pub is_synchronized : State → Bool
is_synchronized State.listen = false
is_synchronized State.syn_sent = false
is_synchronized _ = true

unfoldable pub segment : TcpRepr → Socket → Checked Segment
unfolding segment_in_window overlap
segment repr s = do
  window_start ← add s.remote_seq_no s.rx_buffer.length
  window_end ← add s.remote_seq_no (RingBuffer.capacity s.rx_buffer)
  segment_end ← add repr.seq_number (length repr.payload)
  let segment_start = repr.seq_number
  if not (is_synchronized s.state)
      then some (Segment.unsynchronized (window_start == segment_start))
      else (do
        in_window ← segment_in_window window_start window_end segment_start segment_end
        if in_window
            then overlap repr.payload window_start window_end segment_start segment_end
            else some Segment.outside)
