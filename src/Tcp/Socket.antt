-- ===== src/Tcp/Socket.antt =====
-- socket/tcp.rs: the state of a TCP socket, its constructor, and the calls of its user.
--
-- The wakers of the feature `async` are left out: they hold no protocol state. A call that may
-- panic returns `none` for the panic.
pub mod Queues
pub mod Streams
use smoltcp.Prelude.{
  ℕ, ◌+◌, ◌-◌, ◌*◌, ◌/◌, ◌%◌, ◌^◌, min, Bool, true, false, ◌&&◌, ◌||◌, not, Option, none, some,
  List, [], ltb, leb, ◌==◌, if◌then◌else◌, Result, ok, err, Checked, length, ◌>>=◌,
}
use smoltcp.Storage.Assembler.{Contigs}
use smoltcp.Storage.Assembler
use smoltcp.Storage.RingBuffer
use smoltcp.Storage.RingBuffer.{RingBuffer}
use smoltcp.Wire.SeqNumber.{SeqNumber, add}
use smoltcp.Wire.Ip.{
  IpAddress, IpEndpoint, IpListenEndpoint, IpRepr, is_unspecified, same_version, addr_eq,
  listen_endpoint_eq,
}
use smoltcp.Wire.TcpRepr.{TcpRepr}
use smoltcp.Tcp.State.{State, is_closed, is_listen, is_open, may_send}
use smoltcp.Tcp.RttEstimator.{RttEstimator, Instant, Duration, initial}
use smoltcp.Tcp.Timer.{Timer, AckDelayTimer, ack_delay_default}
use smoltcp.Tcp.Timer
use smoltcp.Tcp.Congestion.{AnyController}

pub record Tuple : Type 0 where
  pub local : IpEndpoint
  pub remote : IpEndpoint

pub record Socket : Type 0 where
  pub state : State
  pub timer : Timer
  pub rtte : RttEstimator
  pub assembler : Contigs
  pub rx_buffer : RingBuffer ℕ
  pub rx_fin_received : Bool
  pub tx_buffer : RingBuffer ℕ
  pub timeout : Option Duration
  pub keep_alive : Option Duration
  pub hop_limit : Option ℕ
  pub listen_endpoint : IpListenEndpoint
  pub bound_endpoint : IpListenEndpoint
  pub tuple : Option Tuple
  pub local_seq_no : SeqNumber
  pub remote_seq_no : SeqNumber
  pub remote_last_seq : SeqNumber
  pub remote_last_ack : Option SeqNumber
  pub remote_last_win : ℕ
  pub remote_win_shift : ℕ
  pub remote_win_len : ℕ
  pub remote_win_scale : Option ℕ
  pub remote_has_sack : Bool
  pub remote_mss : ℕ
  pub remote_last_ts : Option Instant
  pub local_rx_last_seq : Option SeqNumber
  pub local_rx_last_ack : Option SeqNumber
  pub local_rx_dup_acks : ℕ
  pub ack_delay : Option Duration
  pub ack_delay_timer : AckDelayTimer
  pub challenge_ack_timer : Instant
  pub nagle : Bool
  pub congestion_controller : AnyController

-- What a call reads of the interface's context. `rand_u32` is the next random number.
pub record Context : Type 0 where
  pub now : Instant
  pub ip_mtu : ℕ
  pub rand_u32 : ℕ
  pub get_source_address : IpAddress → Option IpAddress

abbrev pub default_mss : ℕ
default_mss = 536

abbrev pub no_listen_endpoint : IpListenEndpoint
no_listen_endpoint = record { addr = none; port = 0 }

-- `mem::size_of::<usize>() * 8 - capacity.leading_zeros()`: the number of binary digits of a
-- capacity, which is at most 2 ^ 30, so that 64 rounds find all of them.
abbrev bit_length_of : ℕ → ℕ → ℕ
bit_length_of ℕ.zero n = 0
bit_length_of (ℕ.suc fuel) n = (if n == 0 then 0 else 1) + bit_length_of fuel (n / 2)

pub bit_length : ℕ → ℕ
bit_length n = bit_length_of 64 n

-- `rx_cap_log2.saturating_sub(16) as u8`
unfoldable pub window_shift : RingBuffer ℕ → ℕ
unfolding bit_length
window_shift rx = (bit_length (RingBuffer.capacity rx) - 16) % 2 ^ 8

-- `Socket::new`, for a build whose `Assembler` has `segment_count` entries and whose default
-- controller is `controller`. It panics on a receive buffer of more than 1 GiB.
unfoldable pub new : ℕ → AnyController → RingBuffer ℕ → RingBuffer ℕ → Checked Socket
new segment_count controller rx_buffer tx_buffer =
    if ltb (2 ^ 30) (RingBuffer.capacity rx_buffer)
    then none
    else some (record {
      state = State.closed;
      timer = Timer.new;
      rtte = initial;
      assembler = Assembler.new segment_count;
      rx_buffer = rx_buffer;
      rx_fin_received = false;
      tx_buffer = tx_buffer;
      timeout = none;
      keep_alive = none;
      hop_limit = none;
      listen_endpoint = no_listen_endpoint;
      bound_endpoint = no_listen_endpoint;
      tuple = none;
      local_seq_no = 0;
      remote_seq_no = 0;
      remote_last_seq = 0;
      remote_last_ack = none;
      remote_last_win = 0;
      remote_win_shift = window_shift rx_buffer;
      remote_win_len = 0;
      remote_win_scale = none;
      remote_has_sack = false;
      remote_mss = default_mss;
      remote_last_ts = none;
      local_rx_last_seq = none;
      local_rx_last_ack = none;
      local_rx_dup_acks = 0;
      ack_delay = some ack_delay_default;
      ack_delay_timer = AckDelayTimer.idle;
      challenge_ack_timer = 0;
      nagle = true;
      congestion_controller = controller;
    })

-- `Socket::reset`; `Assembler::new` is an array of the same length.
unfoldable pub reset : Socket → Socket
reset s = record s {
  state = State.closed;
  timer = Timer.new;
  rtte = initial;
  assembler = Assembler.new (length s.assembler);
  tx_buffer = RingBuffer.clear s.tx_buffer;
  rx_buffer = RingBuffer.clear s.rx_buffer;
  rx_fin_received = false;
  listen_endpoint = no_listen_endpoint;
  tuple = none;
  local_seq_no = 0;
  remote_seq_no = 0;
  remote_last_seq = 0;
  remote_last_ack = none;
  remote_last_win = 0;
  remote_win_len = 0;
  remote_win_scale = none;
  remote_win_shift = window_shift s.rx_buffer;
  remote_mss = default_mss;
  remote_last_ts = none;
  ack_delay_timer = AckDelayTimer.idle;
  challenge_ack_timer = 0;
}

abbrev pub set_state : State → Socket → Socket
set_state state s = record s { state = state }

-- `Socket::may_recv`
unfoldable pub may_recv : Socket → Bool
may_recv s = by_state s.state
  where
    by_state : State → Bool
    by_state State.established = true
    by_state State.fin_wait_1 = true
    by_state State.fin_wait_2 = true
    by_state _ = not (RingBuffer.is_empty s.rx_buffer)

unfoldable pub can_send : Socket → Bool
can_send s = if not (may_send s.state) then false else not (RingBuffer.is_full s.tx_buffer)

unfoldable pub can_recv : Socket → Bool
unfolding may_recv
can_recv s = if not (may_recv s) then false else not (RingBuffer.is_empty s.rx_buffer)

-- `ListenError` and `ConnectError` have the same cases.
pub data OpenError : Type 0 where
  invalid_state unaddressable : OpenError

unfoldable pub listen : IpListenEndpoint → Socket → Result OpenError (Unit {0}) × Socket
unfolding reset
listen endpoint s =
    if endpoint.port == 0
    then (err unaddressable, s)
    else if is_open s.state
    then if is_listen s.state && listen_endpoint_eq s.listen_endpoint endpoint
      then (ok tt, s)
      else (err invalid_state, s)
    else (
      ok tt,
      set_state State.listen (record (reset s) { listen_endpoint = endpoint; tuple = none }),
    )

-- "If local address is not provided, choose it automatically."
unfoldable pub choose_address : Context → Option IpAddress → IpAddress → Option IpAddress
choose_address cx (some addr) remote = if is_unspecified addr then none else some addr
choose_address cx none remote = cx.get_source_address remote

unfoldable pub connect :
    Context → IpEndpoint → IpListenEndpoint → Socket → Result OpenError (Unit {0}) × Socket
unfolding choose_address reset
connect cx remote local s =
    if is_open s.state
    then (err invalid_state, s)
    else if (remote.port == 0) || is_unspecified remote.addr
    then (err unaddressable, s)
    else if local.port == 0
    then (err unaddressable, s)
    else elim (choose_address cx local.addr remote.addr) [
      | none ↦ (err unaddressable, s)
      | some addr ↦ if not (same_version addr remote.addr) then (err unaddressable, s) else (
        ok tt,
        record (set_state State.syn_sent (reset s)) {
          tuple =
              some (record { local = record { addr = addr; port = local.port }; remote = remote });
          local_seq_no = cx.rand_u32 % 2 ^ 32;
          remote_last_seq = cx.rand_u32 % 2 ^ 32;
        },
      )
    ]

abbrev pub close_in : State → Socket → Socket
close_in State.listen s = set_state State.closed s
close_in State.syn_sent s = set_state State.closed s
close_in State.syn_received s = set_state State.fin_wait_1 s
close_in State.established s = set_state State.fin_wait_1 s
close_in State.close_wait s = set_state State.last_ack s
close_in _ s = s

unfoldable pub close : Socket → Socket
close s = close_in s.state s

abbrev pub abort : Socket → Socket
abort s = set_state State.closed s

-- `Socket::accepts`
unfoldable pub accepts : IpRepr → TcpRepr → Socket → Bool
accepts ip_repr repr s =
    if is_closed s.state
    then false
    else if is_listen s.state && has_ack repr.ack_number
    then false
    else matches s.tuple
  where
    has_ack : Option SeqNumber → Bool
    has_ack none = false
    has_ack (some ack) = true

    addr_ok : Option IpAddress → Bool
    addr_ok (some addr) = addr_eq ip_repr.dst_addr addr
    addr_ok none = true

    matches : Option Tuple → Bool
    matches (some tuple) =
        addr_eq ip_repr.dst_addr tuple.local.addr
        && (repr.dst_port == tuple.local.port)
        && addr_eq ip_repr.src_addr tuple.remote.addr
        && (repr.src_port == tuple.remote.port)
    matches none =
        addr_ok s.listen_endpoint.addr
        && not (repr.dst_port == 0)
        && (repr.dst_port == s.listen_endpoint.port)
