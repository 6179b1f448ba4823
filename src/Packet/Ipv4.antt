-- ===== src/Packet/Ipv4.antt =====
-- `Ipv4` of src/packet/layer/ipv4.rs: the IPv4 layer. The fields that do not vary are left out, and
-- so is the serialization, which is pnet's. Of the flags, only `MoreFragments` is used.
use pcap2socks.Base.{ℕ, Bool, true, false, ◌||◌, ltb, Option, none, some}
use pcap2socks.Net.{Ipv4Addr}

-- `LayerKinds`, those of the layers here.
pub data LayerKind : Type 0 where
  ethernet_kind arp_kind ipv4_kind icmpv4_kind tcp_kind udp_kind : LayerKind

-- `IpNextHeaderProtocols`, by its names.
pub data Protocol : Type 0 where
  icmp_protocol tcp_protocol udp_protocol : Protocol
  other_protocol : ℕ → Protocol

pub record Ipv4 : Type 0 where
  pub identification : ℕ
  pub more_fragments : Bool
  pub fragment_offset : ℕ
  pub next_level_protocol : Protocol
  pub source : Ipv4Addr
  pub destination : Ipv4Addr

abbrev pub protocol_of : LayerKind → Option Protocol
protocol_of icmpv4_kind = some icmp_protocol
protocol_of tcp_kind = some tcp_protocol
protocol_of udp_kind = some udp_protocol
protocol_of ethernet_kind = none
protocol_of arp_kind = none
protocol_of ipv4_kind = none

unfoldable pub new : ℕ → LayerKind → Ipv4Addr → Ipv4Addr → Option Ipv4
new identification kind src dst = elim (protocol_of kind) [
  | none ↦ none
  | some protocol ↦ some (record {
    identification = identification;
    more_fragments = false;
    fragment_offset = 0;
    next_level_protocol = protocol;
    source = src;
    destination = dst;
  })
]

unfoldable pub new_more_fragment : ℕ → LayerKind → ℕ → Ipv4Addr → Ipv4Addr → Option Ipv4
unfolding new
new_more_fragment identification kind fragment_offset src dst =
    elim (new identification kind src dst) [
      | none ↦ none
      | some ipv4 ↦ some (record ipv4 { more_fragments = true; fragment_offset = fragment_offset })
    ]

unfoldable pub new_last_fragment : ℕ → LayerKind → ℕ → Ipv4Addr → Ipv4Addr → Option Ipv4
unfolding new
new_last_fragment identification kind fragment_offset src dst =
    elim (new identification kind src dst) [
      | none ↦ none
      | some ipv4 ↦ some (record ipv4 { fragment_offset = fragment_offset })
    ]

unfoldable pub is_more_fragment : Ipv4 → Bool
is_more_fragment ipv4 = ipv4.more_fragments

unfoldable pub is_fragment : Ipv4 → Bool
unfolding is_more_fragment
is_fragment ipv4 = is_more_fragment ipv4 || ltb 0 ipv4.fragment_offset

unfoldable pub next_level_layer_kind : Ipv4 → Option LayerKind
next_level_layer_kind ipv4 = elim ipv4.next_level_protocol [
  | icmp_protocol ↦ some icmpv4_kind
  | tcp_protocol ↦ some tcp_kind
  | udp_protocol ↦ some udp_kind
  | other_protocol n ↦ none
]
