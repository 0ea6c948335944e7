-- ===== src/Iface/Rpl.antt =====
-- iface/rpl/: the routing protocol RPL.
pub mod Lollipop
