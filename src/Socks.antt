-- ===== src/Socks.antt =====
-- src/socks/mod.rs: the workers that carry traffic over the proxy.
pub mod Datagram
pub mod Stream
pub mod Client
