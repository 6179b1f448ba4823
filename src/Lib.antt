-- ===== src/Lib.antt =====
-- A model of pcap2socks, which redirects the traffic that a device captures to a SOCKS5 proxy, and
-- answers the source in the names of the remote hosts.
--
-- The program takes its flags, opens an interface and starts a `Redirector` on it. A frame from
-- the source comes to `Redirector`, which acknowledges TCP segments through
-- `Forwarder` and hands payloads to a worker per connection. What a worker receives from the proxy
-- goes back through `Forwarder`. A TCP connection has a state on either side: `TcpTxState` with a
-- `Queue` of the bytes in flight towards the source, and `TcpRxState` with a `Window` for the
-- bytes that arrive, in or out of order.
--
--   Base           panics and results, machine words, maps, lists
--   Sequence       the arithmetic on sequence numbers that src/cache/mod.rs and src/lib.rs repeat
--   Timer          `Timer` of src/lib.rs
--   Cache.Ring     the copies on ring buffers that `Queue` and `Window` of src/cache/mod.rs share
--   Cache.Queue    `Queue`: append, invalidate_to, get, get_all, get_timed_out_and_update
--   Cache.Window   `Window`: append, filled; Edges has its map of filled ranges
--   Tcp.Tx         `TcpTxState` of src/lib.rs
--   Tcp.Rx         `TcpRxState` of src/lib.rs
--   Forwarder      `Forwarder` of src/lib.rs: Ranges has `disjoint_u32_range` and the loop that
--                  calls it, for what is sent again after selective acknowledgements; Segments
--                  has send_tcp_ack_raw, Send has send_tcp_ack, Packet the packets without data,
--                  Resend, Selective and Timeout the retransmissions, and Fragments has send_udp.
--                  State has the record of the maps and what is sent through it, and Streams the
--                  calls for a connection and what a worker forwards
--   Socks          the workers of src/socks/mod.rs: `StreamWorker` and `DatagramWorker`; and Client
--                  with the datagrams of src/socks/socks/mod.rs
--   Redirector.Udp of `Redirector` in src/lib.rs: handle_udp, bind_local_udp_port,
--                  unbind_local_udp_port
--   Redirector.Tcp the record of `Redirector` in src/lib.rs and handle_arp, with handle_tcp and the
--                  handlers it selects in Ack, Syn, Fin and Handle; Deliver follows data in order
--   Redirector.Icmp handle_icmpv4
--   Redirector.Dispatch handle_ipv4, and `Fragmentation::concatenate` of src/packet/mod.rs
--   Redirector.Open the loop of `Redirector::open`, with `Indicator::parse` of src/packet/mod.rs;
--                  Delivery follows a datagram from its frame to its worker
--   Pcap           the interfaces of src/pcap/mod.rs, and `interfaces` and `interface` of src/lib.rs
--   Main           the setup of src/main.rs; Mask has the mask between a source and a gateway, and
--                  Resolve the addresses of a proxy, with what the flags say of it
--   Packet         the layers of src/packet/layer: Tcp, Ipv4, Icmpv4; and `Defraggler` of
--                  src/packet/mod.rs in Defrag
--
-- An operation that may panic returns a `Run`: a panic is an overflow, as in a debug build, a
-- slice out of bounds or an `unwrap` of nothing, and `out_of_fuel`, a
-- value of its own, is a loop that was cut off. An `io::Result` is a value beside the new state.
-- Machine integers are natural numbers whose range is a hypothesis or a field of an invariant, and
-- casts are written out. `usize` has 64 bits. The clock is an argument `now`, in nanoseconds.
--
-- Loops are structural, but for three that run on fuel. The one that merges ranges in
-- `Window::append` has one round more than there are ranges, and each round but the last takes one
-- out. Those over segments and over fragments have one round more than there are bytes, which is
-- enough where each round sends a byte; cut off, they are `out_of_fuel`, so that a result is a proof
-- of their end.
--
-- A `BTreeMap` is an association list in the order of its keys, a `HashMap` a function. The crate
-- `lru` is an interface with what its documentation says, filled by a list for the examples.
--
-- The crate pnet, which parses and serializes packets, is an interface with the encoding of TCP
-- options that its documentation names, and what it parses of a frame is an argument. So are what
-- libpcap says of the interfaces of a system, what the proxy answers, the lookup of a host, and the
-- readings of addresses and numbers by the crates that the flags go through.
--
-- Not modelled: serialization, which is pnet's, the channels of libpcap in src/pcap, what the crate
-- async-socks5 exchanges with a proxy, the runtime, the logger and the printed lines of
-- src/main.rs, and log lines, with the arithmetic in their arguments.
pub mod Base
pub mod Sequence
pub mod Timer
pub mod Cache
pub mod Net
pub mod Tcp
pub mod Socks
pub mod Forwarder
pub mod Redirector
pub mod Packet
pub mod Pcap
pub mod Main
