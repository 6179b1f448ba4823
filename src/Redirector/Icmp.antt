-- ===== src/Redirector/Icmp.antt =====
-- `handle_icmpv4` of src/lib.rs: a port that is not there is let go, and a smaller MTU is taken over.
pub mod Keeps
mod Laws
mod Tests
use pcap2socks.Base.{
  ℕ, if◌then◌else◌, Bool, Option, none, some, Run, done, ◌>>=◌, unwrap, Result, ok,
}
use pcap2socks.Net.{SocketAddr}
use pcap2socks.Packet.Ipv4.{LayerKind, udp_kind}
use pcap2socks.Packet.Icmpv4
use pcap2socks.Packet.Icmpv4.{Icmpv4, Parsers}
use pcap2socks.Forwarder.State
use pcap2socks.Forwarder.State.{Forwarder}
use pcap2socks.Redirector.Udp
use pcap2socks.Redirector.Udp.{UdpState}
use pcap2socks.Redirector.Udp.Lru.{LruCache}

-- The parts of the redirector that a message changes: the forwarder and the local ports.
abbrev pub Parts : LruCache → Type 0
Parts L = Forwarder × UdpState L

module _ {L : LruCache} where
  unfoldable pub unbind_unreachable : Parsers → Parts L → Icmpv4 → Option LayerKind → Run (Parts L)
  unbind_unreachable p (tx, udp) icmp (some udp_kind) = do
    found ← Icmpv4.dst p icmp
    dst ← unwrap found
    done (tx, Udp.unbind_local_udp_port udp dst)
  unbind_unreachable p parts icmp kind = done parts

  unfoldable pub take_mtu : Parsers → Parts L → Icmpv4 → Run (Parts L)
  take_mtu p (tx, udp) icmp = do
    hop ← Icmpv4.next_hop_mtu icmp
    mtu ← unwrap hop
    found ← Icmpv4.dst_ip_addr p icmp
    ip_addr ← unwrap found
    done ((State.set_src_mtu tx ip_addr mtu).0, udp)

  unfoldable pub handle_icmpv4 : Parsers → Parts L → Icmpv4 → Run (Parts L × Result (Unit {0}))
  unfolding unbind_unreachable take_mtu
  handle_icmpv4 p parts icmp =
      if Icmpv4.is_destination_port_unreachable icmp
      then (do
        kind ← Icmpv4.next_level_layer_kind p icmp
        parts' ← unbind_unreachable p parts icmp kind
        done (parts', ok tt))
      else (if Icmpv4.is_fragmentation_required_and_df_flag_set icmp
          then (do parts' ← take_mtu p parts icmp; done (parts', ok tt))
          else done (parts, ok tt))
