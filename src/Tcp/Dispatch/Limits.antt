-- ===== src/Tcp/Dispatch/Limits.antt =====
-- `Socket::dispatch`: which octets a data segment carries.
use smoltcp.Prelude.{
  ℕ, ◌+◌, ◌-◌, ◌%◌, ◌^◌, ◌≤◌, ◌<◌, ◌≡◌, ap, some, min, length, arith, >>=-eq-some, subst,
}
use smoltcp.Prelude.Slices.{slice}
use smoltcp.Storage.RingBuffer.{get_allocated}
use smoltcp.Storage.RingBuffer.Order.{IsValid, contents}
use smoltcp.Storage.RingBuffer.Parts.{get_allocated-part}
use smoltcp.Wire.SeqNumber.{distance, add}
use smoltcp.Wire.TcpRepr.{TcpRepr}
use smoltcp.Tcp.Socket.{Socket, Tuple, Context}
use smoltcp.Tcp.Segment.{local_mss}
use smoltcp.Tcp.Dispatch.{win_limit, data_repr}

-- Behind an offset the remote window leaves what it has beyond it; a window that has shrunk to less
-- leaves nothing.
win_limit_lem :
    (s : Socket) (offset limit : ℕ)
    → s.local_seq_no < 2 ^ 32
    → s.remote_last_seq < 2 ^ 32
    → distance s.remote_last_seq s.local_seq_no ≡ some offset
    → win_limit s ≡ some limit
    → (limit ≡ s.remote_win_len - offset) × ((s.local_seq_no + offset) % 2 ^ 32 ≡ s.remote_last_seq)
unfolding win_limit distance add
win_limit_lem s offset limit a b d e = (ground arith, ground arith)

-- What a data segment that was built for a socket carries: octets of the send queue from `offset`
-- on, which is how far the next sequence number to send is behind the oldest unacknowledged one.
pub record Carries (cx : Context) (tuple : Tuple) (s : Socket) (repr : TcpRepr) : Type 0 where
  pub offset : ℕ
  pub mss : ℕ
  pub mss_lem : local_mss cx tuple.local.addr ≡ some mss
  pub in_flight : (s.local_seq_no + offset) % 2 ^ 32 ≡ s.remote_last_seq
  pub octets : repr.payload ≡ slice (contents s.tx_buffer) offset (length repr.payload)
  pub in_window : length repr.payload ≤ s.remote_win_len - offset
  pub in_remote_mss : length repr.payload ≤ s.remote_mss
  pub in_local_mss : length repr.payload ≤ mss

-- For sequence numbers below 2 ^ 32 and a well-formed transmit buffer: a data segment carries octets of the send queue that follow those in flight, no
-- more than the remote window has beyond those in flight, than the remote's maximum segment size and
-- than the own MTU allows.
pub data_repr-Carries :
    (cx : Context) (tuple : Tuple) (s : Socket) (basic repr : TcpRepr)
    → IsValid s.tx_buffer
    → s.local_seq_no < 2 ^ 32
    → s.remote_last_seq < 2 ^ 32
    → data_repr cx tuple s basic ≡ some repr
    → Carries cx tuple s repr
unfolding data_repr
data_repr-Carries cx tuple s basic repr v a b h =
    let (limit, limit_lem, h1) = >>=-eq-some (win_limit s) _ h in
    let (mss, mss_lem, h2) = >>=-eq-some (local_mss cx tuple.local.addr) _ h1 in
    let (offset, offset_lem, h3) = >>=-eq-some (distance s.remote_last_seq s.local_seq_no) _ h2 in
    let (left, sent) = win_limit_lem s offset limit a b offset_lem limit_lem in
    let size = min (min limit s.remote_mss) mss in
    let (part, bound) = get_allocated-part s.tx_buffer offset size v in
    let e : get_allocated s.tx_buffer offset size ≡ repr.payload = cc in
    record {
      offset = offset;
      mss = mss;
      mss_lem = mss_lem;
      in_flight = sent;
      octets = subst (λ p. p ≡ slice (contents s.tx_buffer) offset (length p)) e part;
      in_window = omega (arith, ap length e);
      in_remote_mss = omega (arith, ap length e);
      in_local_mss = omega (arith, ap length e);
    }
