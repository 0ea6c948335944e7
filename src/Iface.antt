-- ===== src/Iface.antt =====
-- The interface layer: what it knows about its neighbors.
pub mod Neighbor
pub mod Route
pub mod Rpl
mod Tests
