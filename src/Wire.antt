-- ===== src/Wire.antt =====
-- The wire module: the packet representations that the sockets work with.
pub mod SeqNumber
pub mod Ip
pub mod TcpRepr
pub mod Bytes
pub mod Checksum
pub mod TcpPacket
pub mod Tests
