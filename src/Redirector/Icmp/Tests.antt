-- ===== src/Redirector/Icmp/Tests.antt =====
-- Examples for ICMP messages: one about a fragment of a UDP datagram, and one with an MTU of 1,400.
use pcap2socks.Base.{
  ℕ, ◌+◌, ◌*◌, ◌≡◌, refl, min, true, false, none, some, List, [], ◌∷◌, take, drop, get_or, done,
  panic, ok, empty_map, arith,
}
use pcap2socks.Packet.Ipv4
use pcap2socks.Packet.Ipv4.{Ipv4, udp_protocol}
use pcap2socks.Packet.Icmpv4.{
  Parsers, destination_port_unreachable, fragmentation_required_and_df_flag_set,
}
use pcap2socks.Forwarder.State
use pcap2socks.Forwarder.State.{Forwarder, mtu_to}
use pcap2socks.Redirector.Udp.{UdpState}
use pcap2socks.Redirector.Udp.Listed.{listed}
use pcap2socks.Redirector.Icmp.{handle_icmpv4}
use pcap2socks.Redirector.Icmp.Laws.{handle_icmpv4-panics, handle_icmpv4_mtu}

abbrev ipv4 : Ipv4
ipv4 = record {
  identification = 7;
  more_fragments = true;
  fragment_offset = 0;
  next_level_protocol = udp_protocol;
  source = 168430081;
  destination = 16843009;
}

-- Bytes that are any fragment.
abbrev parsers : Parsers
parsers = record {
  ipv4_packet = λ bytes. some (ipv4, bytes);
  icmp_packet = λ bytes. false;
  tcp_packet = λ bytes. none;
  udp_packet = λ bytes. none;
}

abbrev tx : Forwarder
tx = State.new (λ n. ok tt) 1500 1 168430082

abbrev udp : UdpState listed
udp = record { datagrams = empty_map; datagram_map = empty_map; udp_lru = (2, []) }

abbrev payload : List ℕ
payload = 0 ∷ 0 ∷ 5 ∷ 120 ∷ 69 ∷ []

handle_icmpv4-panics_example :
    handle_icmpv4 parsers
      (tx, udp)
      (record { kind = destination_port_unreachable; payload = payload })
    ≡ panic
unfolding Ipv4.is_fragment
handle_icmpv4-panics_example =
    handle_icmpv4-panics parsers tx udp payload ipv4 (69 ∷ []) (omega arith) refl refl refl

handle_icmpv4_mtu_example :
    (tx' : Forwarder) × (handle_icmpv4 parsers
        (tx, udp)
        (record { kind = fragmentation_required_and_df_flag_set; payload = payload })
      ≡ done ((tx', udp), ok tt))
    × (mtu_to tx' 16843009
        ≡ min tx.local_mtu
            (get_or (take 2 (drop 2 payload)) 0 0 * 256 + get_or (take 2 (drop 2 payload)) 1 0))
    × (tx'.states ≡ tx.states)
handle_icmpv4_mtu_example =
    handle_icmpv4_mtu parsers tx udp payload ipv4 (69 ∷ []) (omega arith) refl
