-- ===== src/Packet.antt =====
-- The layers of src/packet.
pub mod Tcp
pub mod Ipv4
pub mod Icmpv4
pub mod Defrag
