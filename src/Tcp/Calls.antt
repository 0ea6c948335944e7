-- ===== src/Tcp/Calls.antt =====
-- socket/tcp.rs: the calls of the user keep a socket well formed.
use smoltcp.Prelude.{
  ℕ, ◌≡◌, refl, sym, subst, inl, inr, ◌&&◌, ◌||◌, not, Option, none, some, List, ◌==◌, ◌^◌, ◌%◌,
  if◌then◌else◌, Bool-cases, Result, ok, err, length, ◌>>=◌, arith, Returns, Returns-bind,
  Returns-then, Returns-if,
}
use smoltcp.Wire.SeqNumber.{add}
use smoltcp.Wire.Ip.{
  IpAddress, IpEndpoint, IpListenEndpoint, is_unspecified, same_version, listen_endpoint_eq,
}
use smoltcp.Storage.Assembler.Invariant as Chain
use smoltcp.Storage.RingBuffer
use smoltcp.Storage.RingBuffer.{RingBuffer, capacity}
use smoltcp.Storage.RingBuffer.Order.{IsValid}
use smoltcp.Storage.RingBuffer.Validity.{enqueue_slice-IsValid, dequeue_slice-IsValid}
use smoltcp.Tcp.State.{State, may_send, is_open, is_listen}
use smoltcp.Tcp.Socket.{
  Socket, Context, reset, set_state, OpenError, listen, choose_address, connect, close_in, close,
  abort,
}
use smoltcp.Tcp.Socket.Queues.{SendError, RecvError, send_slice, recv_error_check, recv_slice}
use smoltcp.Tcp.Process.Edges.{HasEndpoints}
use smoltcp.Tcp.Process.Buffers.{BuffersValid, same_buffers}

-- The endpoints that the state wants, and well-formed buffers.
pub record WellFormed (s : Socket) : Type 0 where
  pub endpoints : HasEndpoints s.state s.tuple
  pub buffers : BuffersValid s

pub reset-BuffersValid : (s : Socket) → BuffersValid (reset s)
unfolding reset RingBuffer.clear
reset-BuffersValid s = record {
  tx = record { length_in = omega arith; read_in = omega arith };
  rx = record { length_in = omega arith; read_in = omega arith };
  segments = Chain.AllEmpty-IsChain 0 _ (Chain.new-AllEmpty (length s.assembler));
}

pub listen-WellFormed :
    (endpoint : IpListenEndpoint) (s : Socket) → WellFormed s → WellFormed (listen endpoint s).1
unfolding listen
listen-WellFormed endpoint s w = elim (Bool-cases (endpoint.port == 0)) [
  | inl e ↦ rw e w
  | inr e ↦ elim (Bool-cases (is_open s.state)) [
    | inl o ↦
        elim (Bool-cases (is_listen s.state && listen_endpoint_eq s.listen_endpoint endpoint)) [
          | inl l ↦ rw (e, o, l) w
          | inr l ↦ rw (e, o, l) w
        ]
    | inr o ↦
        rw (e, o)
          (record {
            endpoints = refl;
            buffers = same_buffers (reset s) _ (refl, refl, refl) (reset-BuffersValid s);
          })
  ]
]

pub connect-WellFormed :
    (cx : Context) (remote : IpEndpoint) (local : IpListenEndpoint) (s : Socket)
    → WellFormed s
    → WellFormed (connect cx remote local s).1
unfolding connect
connect-WellFormed cx remote local s w = elim (Bool-cases (is_open s.state)) [
  | inl e ↦ rw e w
  | inr e ↦ elim (Bool-cases ((remote.port == 0) || is_unspecified remote.addr)) [
    | inl r ↦ rw (e, r) w
    | inr r ↦ elim (Bool-cases (local.port == 0)) [
      | inl l ↦ rw (e, r, l) w
      | inr l ↦ rw (e, r, l) (chosen (choose_address cx local.addr remote.addr))
    ]
  ]
]
  where
    opened : (addr : IpAddress) → Socket
    opened addr = record (set_state State.syn_sent (reset s)) {
      tuple = some (record { local = record { addr = addr; port = local.port }; remote = remote });
      local_seq_no = cx.rand_u32 % 2 ^ 32;
      remote_last_seq = cx.rand_u32 % 2 ^ 32;
    }

    chosen :
        (a : Option IpAddress)
        → WellFormed
            (elim a as (λ _. Result OpenError (Unit {0}) × Socket) [
              | none ↦ (err OpenError.unaddressable, s)
              | some addr ↦
                  if not (same_version addr remote.addr)
                  then (err OpenError.unaddressable, s)
                  else (ok tt, opened addr)
            ]).1
    chosen none = w
    chosen (some addr) = elim (Bool-cases (not (same_version addr remote.addr))) [
      | inl e ↦ rw e w
      | inr e ↦ rw e (record {
        endpoints = (_, refl);
        buffers = same_buffers (reset s) (opened addr) (refl, refl, refl) (reset-BuffersValid s);
      })
    ]

close_in-HasEndpoints :
    (st : State) (s : Socket)
    → s.state ≡ st
    → HasEndpoints st s.tuple
    → HasEndpoints (close_in st s).state (close_in st s).tuple
close_in-HasEndpoints State.listen s e h = tt
close_in-HasEndpoints State.syn_sent s e h = tt
close_in-HasEndpoints State.syn_received s e h = h
close_in-HasEndpoints State.established s e h = h
close_in-HasEndpoints State.close_wait s e h = h
close_in-HasEndpoints st s e h = subst (λ x. HasEndpoints x s.tuple) (sym e) h

close_in-BuffersValid : (st : State) (s : Socket) → BuffersValid s → BuffersValid (close_in st s)
close_in-BuffersValid State.listen s v = same_buffers s _ (refl, refl, refl) v
close_in-BuffersValid State.syn_sent s v = same_buffers s _ (refl, refl, refl) v
close_in-BuffersValid State.syn_received s v = same_buffers s _ (refl, refl, refl) v
close_in-BuffersValid State.established s v = same_buffers s _ (refl, refl, refl) v
close_in-BuffersValid State.close_wait s v = same_buffers s _ (refl, refl, refl) v
close_in-BuffersValid st s v = v

pub close-WellFormed : (s : Socket) → WellFormed s → WellFormed (close s)
unfolding close
close-WellFormed s w = record {
  endpoints = close_in-HasEndpoints s.state s refl w.endpoints;
  buffers = close_in-BuffersValid s.state s w.buffers;
}

pub abort-WellFormed : (s : Socket) → WellFormed s → WellFormed (abort s)
abort-WellFormed s w = record {
  endpoints = tt;
  buffers = same_buffers s _ (refl, refl, refl) w.buffers;
}

pub send_slice-WellFormed :
    (octets : List ℕ) (s : Socket)
    → WellFormed s
    → Returns (λ (out : Result SendError ℕ × Socket). WellFormed out.1) (send_slice octets s)
unfolding send_slice
send_slice-WellFormed octets s w =
    Returns-if (λ (out : Result SendError ℕ × Socket). WellFormed out.1) (not (may_send s.state)) _
      _ w
      (Returns-bind (λ (out : ℕ × RingBuffer ℕ). IsValid out.1)
        (λ (out : Result SendError ℕ × Socket). WellFormed out.1)
        (RingBuffer.enqueue_slice octets s.tx_buffer) _
        (enqueue_slice-IsValid octets s.tx_buffer w.buffers.tx)
        (λ out valid. record {
          endpoints = w.endpoints;
          buffers = record { tx = valid; rx = w.buffers.rx; segments = w.buffers.segments };
        }))

pub recv_slice-WellFormed :
    (size : ℕ) (s : Socket)
    → WellFormed s
    → Returns (λ (out : Result RecvError (List ℕ) × Socket). WellFormed out.1) (recv_slice size s)
unfolding recv_slice
recv_slice-WellFormed size s w = checked (recv_error_check s)
  where
    checked :
        (r : Result RecvError (Unit {0}))
        → Returns
            (λ (out : Result RecvError (List ℕ) × Socket). WellFormed out.1)
            (elim r [
              | err e ↦ some (err e, s)
              | ok _ ↦ do
                (count, octets, rx_buffer) ← RingBuffer.dequeue_slice size s.rx_buffer
                remote_seq_no ← add s.remote_seq_no count
                some (ok octets, record s { rx_buffer = rx_buffer; remote_seq_no = remote_seq_no })
            ])
    checked (err e) = w
    checked (ok u) =
        Returns-bind (λ (out : ℕ × List ℕ × RingBuffer ℕ). IsValid out.2)
          (λ (out : Result RecvError (List ℕ) × Socket). WellFormed out.1)
          (RingBuffer.dequeue_slice size s.rx_buffer) _
          (dequeue_slice-IsValid size s.rx_buffer w.buffers.rx)
          (λ out valid.
            Returns-then (λ (o : Result RecvError (List ℕ) × Socket). WellFormed o.1)
              (add s.remote_seq_no out.0) _
              (λ seq. record {
                endpoints = w.endpoints;
                buffers = record { tx = w.buffers.tx; rx = valid; segments = w.buffers.segments };
              }))
