-- ===== src/Storage.antt =====
-- storage/: the data structures that the sockets are built on.
pub mod Assembler
pub mod RingBuffer
pub mod PacketBuffer
mod Tests
