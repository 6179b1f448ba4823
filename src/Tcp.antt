-- ===== src/Tcp.antt =====
-- The two halves of a connection's state in src/lib.rs.
pub mod Tx
pub mod Rx
