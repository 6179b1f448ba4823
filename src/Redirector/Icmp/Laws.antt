-- ===== src/Redirector/Icmp/Laws.antt =====
-- What an ICMP message does to the redirector.
use pcap2socks.Base.{
  ℕ, ◌+◌, ◌*◌, ◌≤◌, ◌≡◌, refl, ap, ==_self, min, true, none, some, List, length, take, drop, done,
  panic, slice-eq-done, get_or, ok, arith, le→ltb, nat_key,
}
use pcap2socks.Packet.Ipv4
use pcap2socks.Packet.Ipv4.{Ipv4, udp_protocol, udp_kind}
use pcap2socks.Packet.Icmpv4
use pcap2socks.Packet.Icmpv4.{
  Icmpv4, Parsers, destination_port_unreachable, fragmentation_required_and_df_flag_set,
}
use pcap2socks.Forwarder.State
use pcap2socks.Forwarder.State.{Forwarder, mtu_to}
use pcap2socks.Forwarder.Segments.{mtu_of}
use pcap2socks.Redirector.Udp.{UdpState}
use pcap2socks.Redirector.Udp.Lru.{LruCache}
use pcap2socks.Redirector.Icmp.{handle_icmpv4, unbind_unreachable, take_mtu}

module _ {L : LruCache} (p : Parsers) (tx : Forwarder) (udp : UdpState L) (payload : List ℕ)
    (ipv4 : Ipv4) (bytes : List ℕ) (full : 4 ≤ length payload)
    (parsed : p.ipv4_packet (drop 4 payload) ≡ some (ipv4, bytes)) where
  abbrev unreachable : Icmpv4
  unreachable = record { kind = destination_port_unreachable; payload = payload }

  parse_fragment :
      Ipv4.is_fragment ipv4 ≡ true → Icmpv4.parse_payload p unreachable ≡ some (ipv4, none)
  unfolding Icmpv4.parse_payload
  parse_fragment fragment = rw (le→ltb (length payload) 4 full, parsed, fragment) refl

  kind_of_udp :
      ipv4.next_level_protocol ≡ udp_protocol → Ipv4.next_level_layer_kind ipv4 ≡ some udp_kind
  unfolding Ipv4.next_level_layer_kind
  kind_of_udp udp_inside = rw udp_inside refl

  kind_of_fragment :
      ipv4.next_level_protocol ≡ udp_protocol
      → Ipv4.is_fragment ipv4 ≡ true
      → Icmpv4.next_level_layer_kind p unreachable ≡ done (some udp_kind)
  unfolding Icmpv4.next_level_layer_kind Icmpv4.is_about_packet
      Icmpv4.is_destination_port_unreachable
  kind_of_fragment udp_inside fragment =
      rw (parse_fragment fragment) (ap done (kind_of_udp udp_inside))

  dst_of_fragment : Ipv4.is_fragment ipv4 ≡ true → Icmpv4.dst p unreachable ≡ done none
  unfolding Icmpv4.dst Icmpv4.is_about_packet Icmpv4.is_destination_port_unreachable
  dst_of_fragment fragment = rw (parse_fragment fragment) refl

  -- A message that a port is unreachable panics the handler if it is about a fragment of a UDP
  -- datagram, whose ports are not parsed.
  pub handle_icmpv4-panics :
      ipv4.next_level_protocol ≡ udp_protocol
      → Ipv4.is_fragment ipv4 ≡ true
      → handle_icmpv4 p
          (tx, udp)
          (record { kind = destination_port_unreachable; payload = payload })
        ≡ panic
  unfolding handle_icmpv4 unbind_unreachable Icmpv4.is_destination_port_unreachable
  handle_icmpv4-panics udp_inside fragment =
      rw (kind_of_fragment udp_inside fragment, dst_of_fragment fragment) refl

  -- A message that a fragment is required sets the MTU towards the destination of the packet that
  -- it is about to the one that it names, if that is smaller than the local one. The connections
  -- and the local ports stay as they are.
  pub handle_icmpv4_mtu :
      (tx' : Forwarder) × (handle_icmpv4 p
          (tx, udp)
          (record { kind = fragmentation_required_and_df_flag_set; payload = payload })
        ≡ done ((tx', udp), ok tt))
      × (mtu_to tx' ipv4.destination
          ≡ min tx.local_mtu
              (get_or (take 2 (drop 2 payload)) 0 0 * 256 + get_or (take 2 (drop 2 payload)) 1 0))
      × (tx'.states ≡ tx.states)
  unfolding handle_icmpv4 take_mtu Icmpv4.is_destination_port_unreachable
      Icmpv4.is_fragmentation_required_and_df_flag_set Icmpv4.next_hop_mtu Icmpv4.dst_ip_addr
      Icmpv4.is_about_packet Icmpv4.parse_payload State.set_src_mtu mtu_to mtu_of
  handle_icmpv4_mtu = (
    (State.set_src_mtu tx ipv4.destination
        (get_or (take 2 (drop 2 payload)) 0 0 * 256 + get_or (take 2 (drop 2 payload)) 1 0)).0,
    rw (slice-eq-done payload 2 4 (omega arith) full, le→ltb (length payload) 4 full, parsed) refl,
    rw (==_self ipv4.destination) refl,
    refl,
  )
