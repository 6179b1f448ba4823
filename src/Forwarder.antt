-- ===== src/Forwarder.antt =====
-- `Forwarder` of src/lib.rs: what is sent to the source.
pub mod Ranges
pub mod Segments
pub mod Fragments
pub mod Packet
pub mod Resend
pub mod Send
pub mod Selective
pub mod Timeout
pub mod State
pub mod Streams
