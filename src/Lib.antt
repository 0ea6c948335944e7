-- ===== src/Lib.antt =====
-- A model of smoltcp's TCP: the data structures below the socket, the socket's state machine, and
-- what they are proved to do.
--
-- The parts, bottom up:
--
-- * Storage/Assembler (src/storage/assembler.rs, `Assembler`): which octets of the receive window
--   have arrived. Storage/Assembler.antt has the operations; its children have the invariant and the
--   set of recorded octets (Invariant), the part of `add` that merges entries (Coalesce), `add`
--   (Add), the removal from the front (Front) and the outcomes with their errors (Outcome).
-- * Storage/RingBuffer (src/storage/ring_buffer.rs, `RingBuffer`): the send and receive queues.
--   The children have the queue that a ring buffer holds (Order) and the operations as operations
--   on that queue (Enqueue, Dequeue, RandomAccess with its children Writing and
--   Reading).
-- * Storage/PacketBuffer (src/storage/packet_buffer.rs, `PacketBuffer`): the packet queue of the
--   datagram sockets, with the operations that take packets out in Dequeue; Enqueue and Fifo are about
--   the queue that the two rings hold.
-- * Wire (src/wire/tcp.rs, src/wire/ip.rs): sequence numbers, the representations of segments and of
--   IP packets as far as the socket reads them, octets in network order (Bytes), the Internet
--   checksum (Checksum), and TCP packets (TcpPacket): Fields has the accessors and setters, Options
--   the options, TcpPacket.antt `Repr::parse` and `Repr::emit`; Words, Header, OptionLaws,
--   EmittedOptions, Lengths, Sum and Emitted are about the parts that RoundTrip puts together.
-- * Tcp (src/socket/tcp.rs, src/socket/tcp/congestion.rs): the socket. RttEstimator, Timer and
--   Congestion are the parts of its state that have operations of their own; State and Socket are
--   the state machine's states, the socket's record and the calls of the user; Socket/Queues the
--   calls that move octets; Segment the replies and tests; Process `Socket::process`, cut into the
--   parts that its comments name: acknowledgement (Process/Ack), window (Process/Window), state
--   (Process/Transition), remote state (Process/Update) and payload (Process/Payload). Process/Frame,
--   Process/Edges and Process/Arrival are about the state and the endpoints; Process/Buffers,
--   Process/BuffersKept and Process/Validity about the buffers; Process/AckRange and
--   Process/AckBounds about what an acknowledgement removes; Process/InWindow about the part of a
--   payload that is accepted; Dispatch is `Socket::dispatch` and `Socket::poll_at`, with its children
--   Quiet (the two agree), Frame (what it keeps) and Limits (what a data segment carries); Calls is about the user's calls, and Run
--   about sequences of calls, arriving and departing segments. Socket/Streams, RttEstimator/Bounds and
--   Wire/SeqNumber/Laws are
--   about the parts that their names say.
-- * Iface (src/iface): the neighbor cache (Neighbor, src/iface/neighbor.rs), the routing table (Route,
--   src/iface/route.rs) and the sequence counters of RPL (Rpl/Lollipop, src/iface/rpl/lollipop.rs).
--
-- How they interact: `process` reads a segment's representation, dequeues what it acknowledges from
-- the send queue, and passes its payload through the assembler to the receive queue; `send_slice` and
-- `recv_slice` are the other ends of these queues.
--
-- Conventions. A function that changes `self` takes the state and returns the new one, last. A
-- panic is `none`, an error is `err`. A sequence number is its bit pattern below 2 ^ 32; instants
-- and durations are microseconds; a length is a natural number, and a wrap-around is written out
-- where the source's type can reach it. Loops over the array are recursions on the list, so that
-- there is no fuel. An IP address is the number that its octets spell. The random number of
-- `process` and `connect`, the interface's source address selection, the MTU and the time are
-- fields of the context, as they are in the source. The device is the `emit` argument of `dispatch`.
-- The crate `byteorder` is the parameter `ByteOrder`, and of the crate `heapless` the map and the
-- vector are the parameters `LinearMapOps` and `BoundedVec`, with what their documentation says as
-- hypotheses. The loops over a packet's options and over the chunks of a checksum have the
-- number of octets as fuel, of which a round takes one at least; the former have no result where the
-- fuel does not reach to the end.
--
-- Not modelled: the setters of the socket's options, Cubic (floating-point numbers), wakers and trace output, the sockets of the other
-- protocols, the rest of the interface, the packets of the other protocols, and the physical layer.
pub mod Iface
pub mod Prelude
pub mod Storage
pub mod Tcp
pub mod Wire
