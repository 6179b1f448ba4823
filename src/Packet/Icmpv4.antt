-- ===== src/Packet/Icmpv4.antt =====
-- `Icmpv4` of src/packet/layer/icmpv4.rs: the messages that the program knows, and the packet that a
-- message is about. What pnet parses is an interface.
use pcap2socks.Base.{
  ℕ, ◌+◌, ◌*◌, ltb, if◌then◌else◌, Bool, true, false, ◌||◌, Option, none, some, List, length, drop,
  Run, done, ◌>>=◌, unwrap, slice, get_or,
}
use pcap2socks.Net.{Ipv4Addr, SocketAddr}
use pcap2socks.Packet.Ipv4
use pcap2socks.Packet.Ipv4.{
  Ipv4, LayerKind, icmp_protocol, tcp_protocol, udp_protocol, other_protocol,
}

-- The type with the code, by pnet's names.
pub data IcmpKind : Type 0 where
  echo_reply destination_port_unreachable : IcmpKind
  fragmentation_required_and_df_flag_set echo_request : IcmpKind
  other_kind : ℕ → ℕ → IcmpKind

-- The payload starts with the second word of the header.
pub record Icmpv4 : Type 0 where
  pub kind : IcmpKind
  pub payload : List ℕ

-- An IPv4 packet with what it holds, whether bytes are an ICMP message, and the source and
-- destination port of a TCP or UDP packet.
pub record Parsers : Type 0 where
  pub ipv4_packet : List ℕ → Option (Ipv4 × List ℕ)
  pub icmp_packet : List ℕ → Bool
  pub tcp_packet : List ℕ → Option (ℕ × ℕ)
  pub udp_packet : List ℕ → Option (ℕ × ℕ)

-- `Layers`, those of a transport, with the ends of the connection.
pub data Transport : Type 0 where
  icmp_layer : Transport
  tcp_layer udp_layer : SocketAddr → SocketAddr → Transport

unfoldable pub is_destination_port_unreachable : Icmpv4 → Bool
is_destination_port_unreachable icmp = elim icmp.kind [
  | destination_port_unreachable ↦ true
  | _ ↦ false
]

unfoldable pub is_fragmentation_required_and_df_flag_set : Icmpv4 → Bool
is_fragmentation_required_and_df_flag_set icmp = elim icmp.kind [
  | fragmentation_required_and_df_flag_set ↦ true
  | _ ↦ false
]

-- The messages that are about a packet.
unfoldable pub is_about_packet : Icmpv4 → Bool
unfolding is_destination_port_unreachable is_fragmentation_required_and_df_flag_set
is_about_packet icmp =
    is_destination_port_unreachable icmp || is_fragmentation_required_and_df_flag_set icmp

unfoldable pub next_hop_mtu : Icmpv4 → Run (Option ℕ)
unfolding is_fragmentation_required_and_df_flag_set
next_hop_mtu icmp =
    if is_fragmentation_required_and_df_flag_set icmp
    then (do
      bytes ← slice icmp.payload 2 4
      done (some (get_or bytes 0 0 * 256 + get_or bytes 1 0)))
    else done none

abbrev ends_with : (SocketAddr → SocketAddr → Transport) → Ipv4 → Option (ℕ × ℕ) → Option Transport
ends_with layer ipv4 none = none
ends_with layer ipv4 (some (source, destination)) = some (
    layer (record { ip = ipv4.source; port = source })
      (record { ip = ipv4.destination; port = destination }))

unfoldable pub parse_transport : Parsers → Ipv4 → List ℕ → Option Transport
parse_transport p ipv4 bytes = elim ipv4.next_level_protocol [
  | icmp_protocol ↦ if p.icmp_packet bytes then some icmp_layer else none
  | tcp_protocol ↦ ends_with tcp_layer ipv4 (p.tcp_packet bytes)
  | udp_protocol ↦ ends_with udp_layer ipv4 (p.udp_packet bytes)
  | other_protocol n ↦ none
]

-- The transport of a fragment is not parsed.
unfoldable pub parse_payload : Parsers → Icmpv4 → Option (Ipv4 × Option Transport)
unfolding parse_transport Ipv4.is_fragment
parse_payload p icmp =
    if ltb (length icmp.payload) 4 then none else (elim (p.ipv4_packet (drop 4 icmp.payload)) [
      | none ↦ none
      | some (ipv4, bytes) ↦
          some (ipv4, if Ipv4.is_fragment ipv4 then none else parse_transport p ipv4 bytes)
    ])

unfoldable pub dst_ip_addr : Parsers → Icmpv4 → Run (Option Ipv4Addr)
unfolding is_about_packet parse_payload
dst_ip_addr p icmp =
    if is_about_packet icmp
    then (do (ipv4, transport) ← unwrap (parse_payload p icmp); done (some ipv4.destination))
    else done none

unfoldable pub next_level_layer_kind : Parsers → Icmpv4 → Run (Option LayerKind)
unfolding is_about_packet parse_payload Ipv4.next_level_layer_kind
next_level_layer_kind p icmp =
    if is_about_packet icmp
    then (do
      (ipv4, transport) ← unwrap (parse_payload p icmp)
      done (Ipv4.next_level_layer_kind ipv4))
    else done none

abbrev destination_of : Option Transport → Option SocketAddr
destination_of none = none
destination_of (some icmp_layer) = none
destination_of (some (tcp_layer src dst)) = some dst
destination_of (some (udp_layer src dst)) = some dst

unfoldable pub dst : Parsers → Icmpv4 → Run (Option SocketAddr)
unfolding is_about_packet parse_payload
dst p icmp =
    if is_about_packet icmp
    then (do (ipv4, transport) ← unwrap (parse_payload p icmp); done (destination_of transport))
    else done none
