-- ===== src/Redirector/Icmp/Keeps.antt =====
-- An ICMP message leaves the connections as they are, and the local ports valid.
use pcap2socks.Base.{
  ◌≡◌, refl, ◌>>=◌, Option, none, some, inl, inr, Run, done, panic, out_of_fuel, Run-cases, unwrap,
  Result, ok, All, if_both,
}
use pcap2socks.Packet.Ipv4
use pcap2socks.Packet.Ipv4.{Ipv4}
use pcap2socks.Packet.Icmpv4
use pcap2socks.Packet.Icmpv4.{Icmpv4, Parsers}
use pcap2socks.Forwarder.State
use pcap2socks.Forwarder.State.{Forwarder}
use pcap2socks.Redirector.Udp.{UdpState}
use pcap2socks.Redirector.Udp.Lru.{LruCache}
use pcap2socks.Redirector.Icmp.{Parts, handle_icmpv4, unbind_unreachable, take_mtu}
use pcap2socks.Redirector.Udp.Laws.{IsValid, unbind_local_udp_port-IsValid}

module _ {L : LruCache} where
  -- The connections of the forwarder are as before, and the local ports stay valid.
  abbrev pub Kept : Forwarder → UdpState L → Parts L → Type 0
  Kept tx udp (tx', udp') = (tx'.states ≡ tx.states) × (IsValid udp → IsValid udp')

  unbind_unreachable-Kept :
      (p : Parsers) (tx : Forwarder) (udp : UdpState L) (icmp : Icmpv4)
      (kind : Option Ipv4.LayerKind)
      → All (Kept tx udp) (unbind_unreachable p (tx, udp) icmp kind)
  unfolding unbind_unreachable
  unbind_unreachable-Kept p tx udp icmp (some Ipv4.udp_kind) =
      elim (Run-cases (Icmpv4.dst p icmp)) [
        | inl (inl e) ↦ rw e tt
        | inl (inr e) ↦ rw e tt
        | inr (found, e) ↦ rw e (elim (Run-cases (unwrap found)) [
          | inl (inl e2) ↦ rw e2 tt
          | inl (inr e2) ↦ rw e2 tt
          | inr (dst, e2) ↦ rw e2 (refl, λ v. (unbind_local_udp_port-IsValid dst v).0)
        ])
      ]
  unbind_unreachable-Kept p tx udp icmp none = (refl, λ v. v)
  unbind_unreachable-Kept p tx udp icmp (some Ipv4.ethernet_kind) = (refl, λ v. v)
  unbind_unreachable-Kept p tx udp icmp (some Ipv4.arp_kind) = (refl, λ v. v)
  unbind_unreachable-Kept p tx udp icmp (some Ipv4.ipv4_kind) = (refl, λ v. v)
  unbind_unreachable-Kept p tx udp icmp (some Ipv4.icmpv4_kind) = (refl, λ v. v)
  unbind_unreachable-Kept p tx udp icmp (some Ipv4.tcp_kind) = (refl, λ v. v)

  take_mtu-Kept :
      (p : Parsers) (tx : Forwarder) (udp : UdpState L) (icmp : Icmpv4)
      → All (Kept tx udp) (take_mtu p (tx, udp) icmp)
  unfolding take_mtu State.set_src_mtu
  take_mtu-Kept p tx udp icmp = elim (Run-cases (Icmpv4.next_hop_mtu icmp)) [
    | inl (inl e) ↦ rw e tt
    | inl (inr e) ↦ rw e tt
    | inr (hop, e) ↦ rw e (elim (Run-cases (unwrap hop)) [
      | inl (inl e) ↦ rw e tt
      | inl (inr e) ↦ rw e tt
      | inr (mtu, e) ↦ rw e (elim (Run-cases (Icmpv4.dst_ip_addr p icmp)) [
        | inl (inl e) ↦ rw e tt
        | inl (inr e) ↦ rw e tt
        | inr (found, e) ↦ rw e (elim (Run-cases (unwrap found)) [
          | inl (inl e) ↦ rw e tt
          | inl (inr e) ↦ rw e tt
          | inr (ip_addr, e) ↦ rw e (refl, λ v. v)
        ])
      ])
    ])
  ]

  answered :
      (tx : Forwarder) (udp : UdpState L) (m : Run (Parts L))
      → All (Kept tx udp) m
      → All {0} {A = Parts L × Result (Unit {0})}
          (λ x. Kept tx udp x.0)
          (m >>= (λ parts. done (parts, ok tt)))
  answered tx udp (done parts) h = h
  answered tx udp panic h = tt
  answered tx udp out_of_fuel h = tt

  pub handle_icmpv4-Kept :
      (p : Parsers) (tx : Forwarder) (udp : UdpState L) (icmp : Icmpv4)
      → All (λ (parts, result). Kept tx udp parts) (handle_icmpv4 p (tx, udp) icmp)
  unfolding handle_icmpv4
  handle_icmpv4-Kept p tx udp icmp =
      if_both (All (λ (parts, result). Kept tx udp parts))
        (Icmpv4.is_destination_port_unreachable icmp) _ _
        (elim (Run-cases (Icmpv4.next_level_layer_kind p icmp)) [
          | inl (inl e) ↦ rw e tt
          | inl (inr e) ↦ rw e tt
          | inr (kind, e) ↦ rw e (
              answered tx udp (unbind_unreachable p (tx, udp) icmp kind)
                (unbind_unreachable-Kept p tx udp icmp kind))
        ])
        (if_both (All (λ (parts, result). Kept tx udp parts))
          (Icmpv4.is_fragmentation_required_and_df_flag_set icmp) _ _
          (answered tx udp (take_mtu p (tx, udp) icmp) (take_mtu-Kept p tx udp icmp))
          (refl, λ v. v))
