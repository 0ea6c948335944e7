-- ===== src/Tcp/Tests.antt =====
-- socket/tcp.rs on concrete inputs.
use smoltcp.Prelude.{
  ◌==◌, ◌%◌, ◌+◌, ap, ℕ, ◌-◌, ◌^◌, ◌≤◌, ◌<◌, ◌++◌, min, length, take, drop, ◌≡◌, refl, true, false,
  none, some, List, [], ◌∷◌, ok, Checked, arith, Result,
}
use smoltcp.Wire.Ip.{IpAddress, IpListenEndpoint, IpRepr}
use smoltcp.Wire.SeqNumber.{SeqNumber, add, sub, distance, seq_ge}
use smoltcp.Wire.SeqNumber.Laws.{distance-add}
use smoltcp.Wire.TcpRepr.{Control, TcpRepr, quash_psh}
use smoltcp.Storage.RingBuffer
use smoltcp.Storage.RingBuffer.{RingBuffer, window, len}
use smoltcp.Storage.RingBuffer.Order.{IsValid, contents}
use smoltcp.Storage.Assembler.{new}
use smoltcp.Tcp.Congestion
use smoltcp.Tcp.Congestion.{AnyController}
use smoltcp.Tcp.State.{State}
use smoltcp.Tcp.Timer as Timer
use smoltcp.Tcp.RttEstimator.{initial, from_millis, min_rto, max_rto, retransmission_timeout}
use smoltcp.Tcp.RttEstimator.Bounds.{retransmission_timeout-bounds}
use smoltcp.Tcp.Socket.Queues.{send_slice, recv_slice}
use smoltcp.Tcp.Socket.Streams.{send_slice_lem, recv_slice_lem}
use smoltcp.Tcp.Socket.{Socket, Tuple, Context, listen, reset, window_shift, may_recv}
use smoltcp.Tcp.Socket
use smoltcp.Tcp.Process.{process, check_window, accept_segment}
use smoltcp.Tcp.Process.Ack.{
  Acked, Verdict, ack_verdict, in_ack_range, acked_number, acked, note_ack,
}
use smoltcp.Tcp.Process.AckBounds.{acked-dequeued}
use smoltcp.Tcp.Process.Window.{Segment, segment_in_window, overlap, segment}
use smoltcp.Tcp.Process.InWindow.{Overlaps, overlap-in_window}
use smoltcp.Tcp.Process.Transition.{step, transition, with_mss, syn_in_listen, set_mss}
use smoltcp.Tcp.Process.Update.{update_remote, update_window, dequeue_acked, handle_ack}
use smoltcp.Tcp.Process.Payload.{receive}
use smoltcp.Tcp.Process.Edges.{Edge, taken, HasEndpoints}
use smoltcp.Tcp.Process.Arrival.{starts_window, process-Edge, process-HasEndpoints}
use smoltcp.Tcp.Calls.{WellFormed}
use smoltcp.Tcp.Run.{Event, Run, new-Run-WellFormed}
use smoltcp.Tcp.Segment.{Reply, local_mss, seq_to_transmit, ack_to_transmit, window_to_update}
use smoltcp.Tcp.Dispatch.{
  dispatch, poll_at, poll_timers, delayed_ack_poll_at, timeout_poll_at, data_repr, win_limit,
}
use smoltcp.Tcp.Dispatch.Quiet.{is_later, dispatch-poll_at}
use smoltcp.Tcp.Dispatch.Limits.{Carries, data_repr-Carries}

abbrev context : Context
context = record { now = 5; ip_mtu = 1500; rand_u32 = 1000; get_source_address = λ a. some a }

abbrev ring : RingBuffer ℕ
ring = record { storage = 0 ∷ 0 ∷ 0 ∷ 0 ∷ []; read_at = 0; length = 0 }

ring-IsValid : IsValid ring
ring-IsValid = record { length_in = omega arith; read_in = omega arith }

abbrev from_some : {A : Type 0} → A → Checked A → A
from_some a none = a
from_some a (some b) = b

abbrev ip_repr : IpRepr
ip_repr = record {
  src_addr = IpAddress.ipv4 1;
  dst_addr = IpAddress.ipv4 2;
  payload_len = 20;
  hop_limit = 64;
}

abbrev syn_segment : TcpRepr
syn_segment = record {
  src_port = 1234;
  dst_port = 80;
  control = Control.syn;
  seq_number = 500;
  ack_number = none;
  window_len = 100;
  window_scale = some 2;
  max_seg_size = some 1400;
  sack_permitted = true;
  sack_ranges = none ∷ none ∷ none ∷ [];
  payload = [];
}

abbrev endpoint : IpListenEndpoint
endpoint = record { addr = none; port = 80 }

-- The sockets of a passive opening: created, listening, and after a SYN.
abbrev created : Socket
created = record {
  state = State.closed;
  timer = Timer.new;
  rtte = initial;
  assembler = new 4;
  rx_buffer = ring;
  rx_fin_received = false;
  tx_buffer = ring;
  timeout = none;
  keep_alive = none;
  hop_limit = none;
  listen_endpoint = Socket.no_listen_endpoint;
  bound_endpoint = Socket.no_listen_endpoint;
  tuple = none;
  local_seq_no = 0;
  remote_seq_no = 0;
  remote_last_seq = 0;
  remote_last_ack = none;
  remote_last_win = 0;
  remote_win_shift = window_shift ring;
  remote_win_len = 0;
  remote_win_scale = none;
  remote_has_sack = false;
  remote_mss = Socket.default_mss;
  remote_last_ts = none;
  local_rx_last_seq = none;
  local_rx_last_ack = none;
  local_rx_dup_acks = 0;
  ack_delay = some Timer.ack_delay_default;
  ack_delay_timer = Timer.AckDelayTimer.idle;
  challenge_ack_timer = 0;
  nagle = true;
  congestion_controller = AnyController.no_control;
}

abbrev listening : Socket
listening = (listen endpoint created).1

abbrev synchronizing : Socket
synchronizing = (from_some (none, listening) (process context ip_repr syn_segment listening)).1

listening-process : process context ip_repr syn_segment listening ≡ some (none, synchronizing)
unfolding process check_window accept_segment ack_verdict acked note_ack segment step transition
    with_mss syn_in_listen set_mss update_remote update_window dequeue_acked handle_ack receive
    listen reset add RingBuffer.clear quash_psh acked_number
listening-process = refl

listening-HasEndpoints : HasEndpoints listening.state listening.tuple
unfolding listen
listening-HasEndpoints = refl

process-Edge_example :
    Edge
      (taken (starts_window syn_segment listening) Control.syn)
      listening.state
      synchronizing.state
process-Edge_example =
    process-Edge context ip_repr syn_segment listening synchronizing none listening-process

process-HasEndpoints_example : HasEndpoints synchronizing.state synchronizing.tuple
process-HasEndpoints_example =
    process-HasEndpoints context ip_repr syn_segment listening synchronizing none
      listening-HasEndpoints listening-process

created_lem : Socket.new 4 AnyController.no_control ring ring ≡ some created
unfolding Socket.new
created_lem = refl

opening : Run ℕ created synchronizing
opening =
    Run.then listening _ (Run.then created _ Run.started (Event.listened endpoint created))
      (Event.arrived context ip_repr syn_segment listening _ none listening-process)

new-Run-WellFormed_example : WellFormed synchronizing
new-Run-WellFormed_example =
    new-Run-WellFormed 4 AnyController.no_control ring ring created synchronizing ring-IsValid
      ring-IsValid created_lem opening

-- A connection with three octets to read and two to send.
abbrev connected : Socket
connected = record created {
  state = State.established;
  tuple = some (record {
    local = record { addr = IpAddress.ipv4 2; port = 80 };
    remote = record { addr = IpAddress.ipv4 1; port = 1234 };
  });
  rx_buffer = record { storage = 7 ∷ 0 ∷ 5 ∷ 6 ∷ []; read_at = 2; length = 3 };
  tx_buffer = record { storage = 8 ∷ 9 ∷ 0 ∷ 0 ∷ []; read_at = 0; length = 2 };
  remote_seq_no = 2 ^ 32 - 2;
}

abbrev octets : List ℕ
octets = 1 ∷ 2 ∷ 3 ∷ []

send_slice_example :
    (s' : Socket) × (send_slice octets connected
      ≡ some (ok (min (length octets) (window connected.tx_buffer)), s'))
    × (contents s'.tx_buffer
        ≡ contents connected.tx_buffer ++ take (window connected.tx_buffer) octets)
    × IsValid s'.tx_buffer
send_slice_example =
    send_slice_lem octets connected (record { length_in = omega arith; read_in = omega arith }) refl

recv_slice_example :
    (s' : Socket) × (recv_slice 2 connected ≡ some (ok (take 2 (contents connected.rx_buffer)), s'))
    × (contents s'.rx_buffer ≡ drop 2 (contents connected.rx_buffer))
    × (add connected.remote_seq_no (min 2 (len connected.rx_buffer)) ≡ some s'.remote_seq_no)
    × IsValid s'.rx_buffer
unfolding may_recv
recv_slice_example =
    recv_slice_lem 2 connected (record { length_in = omega arith; read_in = omega arith }) refl
      (omega arith) (omega arith)

retransmission_timeout_example :
    (from_millis min_rto ≤ retransmission_timeout initial)
    × (retransmission_timeout initial ≤ from_millis max_rto)
retransmission_timeout_example = retransmission_timeout-bounds initial

distance_example :
    (b : SeqNumber) × (add (2 ^ 32 - 2) 5 ≡ some b)
    × (distance b (2 ^ 32 - 2) ≡ some 5)
    × (seq_ge b (2 ^ 32 - 2) ≡ true)
    × (b < 2 ^ 32)
distance_example = distance-add (2 ^ 32 - 2) 5 (omega arith) (omega arith)

-- A segment that acknowledges the two octets.
abbrev ack_segment : TcpRepr
ack_segment = record syn_segment { control = Control.plain; ack_number = some 2 }

ack_segment-accepted :
    ack_verdict connected connected.state ack_segment.control ack_segment.ack_number
    ≡ some Verdict.accept
unfolding ack_verdict in_ack_range add
ack_segment-accepted = refl

acked-dequeued_example :
    (a : Acked) × (s' : Socket) × (acked ack_segment connected ≡ some a)
    × (dequeue_acked a.ack_len connected ≡ some s')
    × (contents s'.tx_buffer ≡ drop a.ack_len (contents connected.tx_buffer))
acked-dequeued_example =
    acked-dequeued ack_segment connected (record { length_in = omega arith; read_in = omega arith })
      (omega arith) (λ ack e. omega (arith, ap (from_some {A = ℕ} 0) e)) (omega arith)
      ack_segment-accepted

-- A segment that starts two octets before a window of four octets, which wraps around.
abbrev arriving : List ℕ
arriving = 1 ∷ 2 ∷ 3 ∷ 4 ∷ 5 ∷ []

arriving-in_window :
    segment_in_window
      (2 ^ 32 - 2)
      ((2 ^ 32 - 2 + 4) % 2 ^ 32)
      (2 ^ 32 - 4)
      ((2 ^ 32 - 4 + length arriving) % 2 ^ 32)
    ≡ some true
unfolding segment_in_window sub
arriving-in_window = refl

overlap-in_window_example :
    (part : List ℕ) × (offset : ℕ) × (overlap arriving
        (2 ^ 32 - 2)
        ((2 ^ 32 - 2 + 4) % 2 ^ 32)
        (2 ^ 32 - 4)
        ((2 ^ 32 - 4 + length arriving) % 2 ^ 32)
      ≡ some (Segment.inside part offset (2 ^ 32 - 2 == 2 ^ 32 - 4)))
    × Overlaps arriving 4 (2 ^ 32 - 2) (2 ^ 32 - 4) part offset
overlap-in_window_example =
    overlap-in_window arriving 4 (2 ^ 32 - 2) (2 ^ 32 - 4) (omega arith) (omega arith) (omega arith)
      (omega arith) arriving-in_window

-- A device that takes every segment.
abbrev accepting : Reply → Result ℕ (Unit {0})
accepting reply = ok tt

abbrev endpoints : Tuple
endpoints = record {
  local = record { addr = IpAddress.ipv4 2; port = 80 };
  remote = record { addr = IpAddress.ipv4 1; port = 1234 };
}

-- A connection without anything to send, whose timeout is due at 9.
abbrev waiting : Socket
waiting = record connected {
  tx_buffer = ring;
  rx_buffer = ring;
  remote_last_ts = some 3;
  timeout = some 6;
  remote_seq_no = 10;
  remote_last_ack = some 10;
  remote_last_win = 4;
}

waiting-poll_at : poll_at context waiting ≡ some (Timer.PollAt.time 9)
unfolding poll_at poll_timers delayed_ack_poll_at timeout_poll_at seq_to_transmit ack_to_transmit
    window_to_update Timer.poll_at Timer.earlier add distance Congestion.window window_shift
waiting-poll_at = refl

waiting-is_later : is_later context.now (Timer.PollAt.time 9) ≡ true
unfolding is_later
waiting-is_later = refl

dispatch-poll_at_example : dispatch context accepting waiting ≡ some (none, ok tt, waiting)
dispatch-poll_at_example =
    dispatch-poll_at context accepting waiting (Timer.PollAt.time 9) waiting-poll_at
      waiting-is_later

-- A segment of the three octets of a send queue, of which the window takes two.
abbrev sending : Socket
sending = record connected {
  tx_buffer = record { storage = 7 ∷ 0 ∷ 5 ∷ 6 ∷ []; read_at = 2; length = 3 };
  remote_win_len = 2;
}

abbrev sent_segment : TcpRepr
sent_segment = from_some syn_segment (data_repr context endpoints sending ack_segment)

sending-data_repr : data_repr context endpoints sending ack_segment ≡ some sent_segment
unfolding data_repr win_limit add distance RingBuffer.get_allocated local_mss
sending-data_repr = refl

data_repr-Carries_example : Carries context endpoints sending sent_segment
data_repr-Carries_example =
    data_repr-Carries context endpoints sending ack_segment sent_segment
      (record { length_in = omega arith; read_in = omega arith }) (omega arith) (omega arith)
      sending-data_repr
