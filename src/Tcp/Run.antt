-- ===== src/Tcp/Run.antt =====
-- socket/tcp.rs: what holds of a socket after any sequence of calls of its user and of arriving
-- segments, in any order.
use smoltcp.Prelude.{
  ℕ, ◌≡◌, Option, none, some, List, ltb, ◌^◌, Result, Returns, Returns-if, Returns-elim,
}
use smoltcp.Wire.Ip.{IpEndpoint, IpListenEndpoint, IpRepr}
use smoltcp.Wire.TcpRepr.{TcpRepr}
use smoltcp.Storage.Assembler.Invariant as Chain
use smoltcp.Storage.RingBuffer.{RingBuffer, capacity}
use smoltcp.Storage.RingBuffer.Order.{IsValid}
use smoltcp.Tcp.Congestion.{AnyController}
use smoltcp.Tcp.Socket.{Socket, Context, new, listen, connect, close, abort}
use smoltcp.Tcp.Socket.Queues.{SendError, RecvError, send_slice, recv_slice}
use smoltcp.Tcp.Segment.{Reply}
use smoltcp.Tcp.Process.{process}
use smoltcp.Tcp.Process.Arrival.{process-HasEndpoints}
use smoltcp.Tcp.Process.Buffers.{OutValid}
use smoltcp.Tcp.Process.Validity.{process-BuffersValid}
use smoltcp.Tcp.Dispatch.{dispatch}
use smoltcp.Tcp.Dispatch.Frame.{OutcomeWellFormed, dispatch-WellFormed}
use smoltcp.Tcp.Calls.{
  WellFormed, listen-WellFormed, connect-WellFormed, close-WellFormed, abort-WellFormed,
  send_slice-WellFormed, recv_slice-WellFormed,
}

-- One call of the user, one arriving segment, or one call of `dispatch`, whose `emit` fails with an
-- error of some type or succeeds.
pub data Event (E : Type 0) : Socket → Socket → Type 0 where
  listened : (endpoint : IpListenEndpoint) (s : Socket) → Event E s (listen endpoint s).1
  connected :
      (cx : Context) (remote : IpEndpoint) (local : IpListenEndpoint) (s : Socket)
      → Event E s (connect cx remote local s).1
  closed : (s : Socket) → Event E s (close s)
  aborted : (s : Socket) → Event E s (abort s)
  sent :
      (octets : List ℕ) (s s' : Socket) (r : Result SendError ℕ)
      → send_slice octets s ≡ some (r, s')
      → Event E s s'
  received :
      (size : ℕ) (s s' : Socket) (r : Result RecvError (List ℕ))
      → recv_slice size s ≡ some (r, s')
      → Event E s s'
  arrived :
      (cx : Context) (ip_repr : IpRepr) (repr : TcpRepr) (s s' : Socket) (answer : Option Reply)
      → process cx ip_repr repr s ≡ some (answer, s')
      → Event E s s'
  dispatched :
      (cx : Context) (emit : Reply → Result E (Unit {0})) (s s' : Socket) (segment : Option Reply)
      (r : Result E (Unit {0}))
      → dispatch cx emit s ≡ some (segment, r, s')
      → Event E s s'

-- The sockets that a socket may become.
pub data Run (E : Type 0) (start : Socket) : Socket → Type 0 where
  started : Run E start start
  then : (s s' : Socket) → Run E start s → Event E s s' → Run E start s'

Event-WellFormed : {E : Type 0} (s s' : Socket) → Event E s s' → WellFormed s → WellFormed s'
Event-WellFormed s s' (Event.listened endpoint _) w = listen-WellFormed endpoint s w
Event-WellFormed s s' (Event.connected cx remote local _) w = connect-WellFormed cx remote local s w
Event-WellFormed s s' (Event.closed _) w = close-WellFormed s w
Event-WellFormed s s' (Event.aborted _) w = abort-WellFormed s w
Event-WellFormed s s' (Event.sent octets _ _ r e) w =
    Returns-elim (λ (out : Result SendError ℕ × Socket). WellFormed out.1) _ (r, s')
      (send_slice-WellFormed octets s w) e
Event-WellFormed s s' (Event.received size _ _ r e) w =
    Returns-elim (λ (out : Result RecvError (List ℕ) × Socket). WellFormed out.1) _ (r, s')
      (recv_slice-WellFormed size s w) e
Event-WellFormed s s' (Event.arrived cx ip_repr repr _ _ answer e) w = record {
  endpoints = process-HasEndpoints cx ip_repr repr s s' answer w.endpoints e;
  buffers =
      Returns-elim OutValid _ (answer, s') (process-BuffersValid cx ip_repr repr s w.buffers) e;
}
Event-WellFormed s s' (Event.dispatched cx emit _ _ segment r e) w =
    Returns-elim (OutcomeWellFormed cx emit) _ (segment, r, s') (dispatch-WellFormed cx emit s w) e

Run-WellFormed : {E : Type 0} (start s : Socket) → WellFormed start → Run E start s → WellFormed s
Run-WellFormed start s w Run.started = w
Run-WellFormed start s w (Run.then s1 _ run event) =
    Event-WellFormed s1 s event (Run-WellFormed start s1 w run)

new-WellFormed :
    (segment_count : ℕ) (controller : AnyController) (rx tx : RingBuffer ℕ)
    → IsValid rx
    → IsValid tx
    → Returns WellFormed (new segment_count controller rx tx)
unfolding new
new-WellFormed segment_count controller rx tx r t =
    Returns-if WellFormed (ltb (2 ^ 30) (capacity rx)) none _ tt (record {
      endpoints = tt;
      buffers = record {
        tx = t;
        rx = r;
        segments = Chain.AllEmpty-IsChain 0 _ (Chain.new-AllEmpty segment_count);
      };
    })

-- After any sequence of calls of listen, connect, close, abort, send, recv and dispatch and of
-- arriving segments, a socket that was created with well-formed buffers has the endpoints that its state
-- wants, a well-formed send queue, a well-formed receive queue and a well-formed assembler.
pub new-Run-WellFormed :
    {E : Type 0} (segment_count : ℕ) (controller : AnyController) (rx tx : RingBuffer ℕ)
    (start s : Socket)
    → IsValid rx
    → IsValid tx
    → new segment_count controller rx tx ≡ some start
    → Run E start s
    → WellFormed s
new-Run-WellFormed segment_count controller rx tx start s r t e run =
    Run-WellFormed start s
      (Returns-elim WellFormed _ start (new-WellFormed segment_count controller rx tx r t) e) run
