-- ===== src/Redirector.antt =====
-- `Redirector` of src/lib.rs: what comes from the source.
pub mod Udp
pub mod Tcp
pub mod Icmp
pub mod Dispatch
pub mod Open
