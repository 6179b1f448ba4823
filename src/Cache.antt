-- ===== src/Cache.antt =====
-- src/cache/mod.rs: the send window (`Queue`) and the receive window (`Window`) of a connection.
pub mod Ring
pub mod Queue
pub mod Window
