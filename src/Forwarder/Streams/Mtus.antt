-- ===== src/Forwarder/Streams/Mtus.antt =====
-- Sending leaves the MTUs of `Forwarder` alone.
use pcap2socks.Base.{
  ◌≡◌, refl, ◌∙◌, List, length, [], pair_key, ◌∷◌, Bool-cases, Result-cases, inl, inr,
}
use pcap2socks.Net.{SocketAddr}
use pcap2socks.Tcp.Tx
use pcap2socks.Forwarder.Packet.{
  Packet, data_segment, ack_0, ack_syn, ack_rst, rst, pure_fin, udp_packet, udp_fragment,
}
use pcap2socks.Forwarder.State
use pcap2socks.Forwarder.State.{Forwarder, send_packets}

-- The same MTUs.
abbrev pub SameMtus : Forwarder → Forwarder → Type 0
SameMtus f f' = (f'.local_mtu ≡ f.local_mtu) × (f'.src_mtu ≡ f.src_mtu)

identify-SameMtus :
    (f : Forwarder) (dst src : SocketAddr) (packet : Packet)
    → SameMtus f (State.identify f dst src packet)
unfolding State.identify State.increase_ipv4_identification
identify-SameMtus f dst src (udp_fragment frag) = elim (Bool-cases frag.more) [
  | inl e ↦ rw e (refl, refl)
  | inr e ↦ rw e (refl, refl)
]
identify-SameMtus f dst src (data_segment _) = (refl, refl)
identify-SameMtus f dst src (ack_0 _ _ _ _) = (refl, refl)
identify-SameMtus f dst src (ack_syn _ _ _ _ _ _) = (refl, refl)
identify-SameMtus f dst src (ack_rst _ _ _) = (refl, refl)
identify-SameMtus f dst src (rst _ _ _) = (refl, refl)
identify-SameMtus f dst src (pure_fin _ _ _) = (refl, refl)
identify-SameMtus f dst src (udp_packet _) = (refl, refl)

send_ipv4-SameMtus :
    (f : Forwarder) (dst src : SocketAddr) (packet : Packet)
    → SameMtus f (State.send_ipv4 f dst src packet).0
unfolding State.send_ipv4 State.send
send_ipv4-SameMtus f dst src packet =
    let frame =
      State.ipv4 f.local_hardware_addr (Tx.or_zero (f.src_hardware_addr src.ip))
        (Tx.or_zero (f.ipv4_identification_map (src.ip, dst.ip))) dst src packet in
    elim (Result-cases (f.outcome (length f.frames))) [
      | inl (_, sent_ok) ↦ rw sent_ok (identify-SameMtus (State.send f frame).0 dst src packet)
      | inr (e, failed) ↦ rw failed (refl, refl)
    ]

pub send_packets-SameMtus :
    (f : Forwarder) (dst src : SocketAddr) (packets : List Packet)
    → SameMtus f (send_packets f dst src packets)
unfolding send_packets
send_packets-SameMtus f dst src [] = (refl, refl)
send_packets-SameMtus f dst src (packet ∷ packets) =
    let (a, b) = send_ipv4-SameMtus f dst src packet in
    let (c, d) = send_packets-SameMtus (State.send_ipv4 f dst src packet).0 dst src packets in
    (c ∙ a, d ∙ b)
