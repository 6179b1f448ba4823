-- ===== src/Redirector/Dispatch.antt =====
-- `handle_ipv4` of src/lib.rs, with `Fragmentation::concatenate` and the lengths of `Indicator` of
-- src/packet/mod.rs: a frame goes to the handler of its transport layer, a fragment once its
-- datagram is complete. What pnet parses is an interface.
pub mod Keeps
pub mod Laws
use pcap2socks.Base.{
  ℕ, ◌+◌, if◌then◌else◌, Bool, not, Option, none, some, List, length, Run, done, ◌>>=◌, slice,
  Result, ok,
}
use pcap2socks.Net.{Ipv4Addr, HardwareAddr, SocketAddr}
use pcap2socks.Packet.Ipv4
use pcap2socks.Packet.Ipv4.{Ipv4, icmp_protocol, tcp_protocol, udp_protocol, other_protocol}
use pcap2socks.Packet.Icmpv4.{Icmpv4, Parsers}
use pcap2socks.Packet.Defrag.{Fragmentation, Defraggler, defrag}
use pcap2socks.Redirector.Tcp.{Redirector, Tcp, is_from_source, join}
use pcap2socks.Redirector.Tcp.Handle.{Surroundings, handle_tcp}
use pcap2socks.Redirector.Udp.{UdpState, Sent, handle_udp}
use pcap2socks.Redirector.Udp.Lru.{LruCache}
use pcap2socks.Redirector.Icmp.{handle_icmpv4}

-- `Layers`, those of a transport.
pub data Layers : Type 0 where
  icmpv4_layer : Icmpv4 → Layers
  tcp_layer : Tcp → Layers
  udp_layer : SocketAddr → SocketAddr → Layers

-- The layer at the start of some bytes, with its length.
pub record LayerParsers : Type 0 where
  pub icmp_packet : List ℕ → Option (Icmpv4 × ℕ)
  pub tcp_packet : Ipv4 → List ℕ → Option (Tcp × ℕ)
  pub udp_packet : Ipv4 → List ℕ → Option ((SocketAddr × SocketAddr) × ℕ)
  pub within : Parsers

-- `Indicator`, of a frame with an Ethernet layer, with the lengths in the layers.
pub record Indicator : Type 0 where
  pub src_hardware_addr : HardwareAddr
  pub ipv4 : Option Ipv4
  pub ipv4_len : ℕ
  pub total_length : ℕ
  pub transport : Option Layers
  pub transport_len : ℕ

-- `Ethernet::minimum_len`
abbrev ethernet_len : ℕ
ethernet_len = 14

-- `len` and `content_len`, of a frame with an IPv4 layer.
unfoldable pub len : Indicator → ℕ
len indicator = ethernet_len + indicator.ipv4_len + indicator.transport_len

unfoldable pub content_len : Indicator → ℕ
content_len indicator = ethernet_len + indicator.total_length

abbrev as_icmpv4 : Option (Icmpv4 × ℕ) → Option Layers × ℕ
as_icmpv4 none = (none, 0)
as_icmpv4 (some (icmpv4, n)) = (some (icmpv4_layer icmpv4), n)

abbrev as_tcp : Option (Tcp × ℕ) → Option Layers × ℕ
as_tcp none = (none, 0)
as_tcp (some (tcp, n)) = (some (tcp_layer tcp), n)

abbrev as_udp : Option ((SocketAddr × SocketAddr) × ℕ) → Option Layers × ℕ
as_udp none = (none, 0)
as_udp (some ((src, dst), n)) = (some (udp_layer src dst), n)

-- The layer, and the size of its header.
unfoldable pub parse_buffer : LayerParsers → Ipv4 → List ℕ → Option Layers × ℕ
parse_buffer p ipv4 bytes = elim ipv4.next_level_protocol [
  | icmp_protocol ↦ as_icmpv4 (p.icmp_packet bytes)
  | tcp_protocol ↦ as_tcp (p.tcp_packet ipv4 bytes)
  | udp_protocol ↦ as_udp (p.udp_packet ipv4 bytes)
  | other_protocol n ↦ (none, 0)
]

unfoldable pub concatenate : LayerParsers → Fragmentation → Run (Option Layers × List ℕ)
unfolding parse_buffer
concatenate p f = do
  bytes ← slice f.buffer 0 f.length
  let (transport, header_size) = parse_buffer p f.ipv4 bytes
  payload ← slice f.buffer header_size f.length
  done (transport, payload)

-- What the surroundings give the handler of a frame: for UDP, the results of binding a worker and
-- of sending.
pub record FrameSurroundings : Type 0 where
  pub streams : Surroundings
  pub bound : Result ℕ
  pub sent : Result ℕ

-- `Redirector` with its local ports and its fragments.
pub record Whole (L : LruCache) : Type 0 where
  pub redirector : Redirector
  pub udp : UdpState L
  pub frags : Defraggler

-- The state, what a worker is told to send, and the result.
abbrev pub Served : LruCache → Type 0
Served L = Run (Whole L × Option Sent × Result (Unit {0}))

module _ {L : LruCache} where
  -- The handler of a transport layer.
  unfoldable pub handle_transport :
      LayerParsers → Whole L → Option Layers → List ℕ → FrameSurroundings → Served L
  unfolding handle_icmpv4 handle_tcp handle_udp
  handle_transport p w none payload e = done (w, none, ok tt)
  handle_transport p w (some (icmpv4_layer icmpv4)) payload e = do
    ((tx, udp), result) ← handle_icmpv4 p.within (w.redirector.tx, w.udp) icmpv4
    done (record w { redirector = record w.redirector { tx = tx }; udp = udp }, none, result)
  handle_transport p w (some (tcp_layer tcp)) payload e = do
    (redirector, result) ← handle_tcp w.redirector tcp payload e.streams
    done (record w { redirector = redirector }, none, result)
  handle_transport p w (some (udp_layer src dst)) payload e = do
    (udp, call, result) ← handle_udp w.udp src dst payload e.bound e.sent
    done (record w { udp = udp }, call, result)

  unfoldable pub serve_completed :
      LayerParsers → Whole L → Option Fragmentation → FrameSurroundings → Served L
  unfolding concatenate handle_transport
  serve_completed p w none e = done (w, none, ok tt)
  serve_completed p w (some frag) e = do
    (transport, payload) ← concatenate p frag
    handle_transport p w transport payload e

  -- A fragment, or a whole packet, without the padding of its frame.
  unfoldable pub serve_frame :
      LayerParsers → Whole L → Ipv4 → Indicator → List ℕ → FrameSurroundings → Served L
  unfolding serve_completed handle_transport Ipv4.is_fragment defrag len content_len
  serve_frame p w ipv4 indicator frame e = do
    content ← slice frame 0 (content_len indicator)
    if Ipv4.is_fragment ipv4
        then (do
          payload ← slice content (ethernet_len + indicator.ipv4_len) (length content)
          (frags, completed) ← defrag w.frags ipv4 payload e.streams.now
          serve_completed p (record w { frags = frags }) completed e)
        else (do
          payload ← slice content (len indicator) (length content)
          handle_transport p w indicator.transport payload e)

  unfoldable pub handle_ipv4 :
      LayerParsers → Whole L → Indicator → List ℕ → FrameSurroundings → Served L
  unfolding serve_frame is_from_source join
  handle_ipv4 p w indicator frame e = elim indicator.ipv4 [
    | none ↦ done (w, none, ok tt)
    | some ipv4 ↦
        if is_from_source w.redirector ipv4.source
        then serve_frame p
            (record w { redirector = join w.redirector ipv4.source indicator.src_hardware_addr })
            ipv4 indicator frame e
        else done (w, none, ok tt)
  ]
