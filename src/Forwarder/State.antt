-- ===== src/Forwarder/State.antt =====
-- The state of `Forwarder` of src/lib.rs, and the frames it writes. What serializing the n-th frame
-- and writing it to the channel gives is a field, `outcome n`.
use pcap2socks.Base.{
  ℕ, ◌+◌, ltb, ◌==◌, if◌then◌else◌, min, Bool, not, Option, List, [], ◌∷◌, ◌++◌, length, Run, done,
  ◌>>=◌, unwrap, Result, ok, err, u16_max, Map, empty_map, insert, remove, nat_key, pair_key,
}
use pcap2socks.Net.{Ipv4Addr, HardwareAddr, SocketAddr, addr_key}
use pcap2socks.Tcp.Tx.{TcpTxState, or_zero}
use pcap2socks.Forwarder.Segments.{mtu_of}
use pcap2socks.Forwarder.Packet.{Packet, udp_fragment, sent_from}

-- An ARP reply, by the addresses of its sender and its target; a packet, by the hardware addresses
-- of the source and the destination, the identification, the two ends and what it holds.
pub data Frame : Type 0 where
  arp_reply : HardwareAddr → Ipv4Addr → HardwareAddr → Ipv4Addr → Frame
  ipv4 : HardwareAddr → HardwareAddr → ℕ → SocketAddr → SocketAddr → Packet → Frame

-- A connection, its source first.
abbrev pub Connection : Type 0
Connection = SocketAddr × SocketAddr

pub record Forwarder : Type 0 where
  pub frames : List Frame
  pub outcome : ℕ → Result (Unit {0})
  pub src_mtu : Map Ipv4Addr ℕ
  pub local_mtu : ℕ
  pub src_hardware_addr : Map Ipv4Addr HardwareAddr
  pub local_hardware_addr : HardwareAddr
  pub local_ip_addr : Ipv4Addr
  pub ipv4_identification_map : Map (Ipv4Addr × Ipv4Addr) ℕ
  pub states : Map Connection TcpTxState

unfoldable pub new : (ℕ → Result (Unit {0})) → ℕ → HardwareAddr → Ipv4Addr → Forwarder
new outcome mtu local_hardware_addr local_ip_addr = record {
  frames = [];
  outcome = outcome;
  src_mtu = empty_map;
  local_mtu = mtu;
  src_hardware_addr = empty_map;
  local_hardware_addr = local_hardware_addr;
  local_ip_addr = local_ip_addr;
  ipv4_identification_map = empty_map;
  states = empty_map;
}

-- The MTU towards a source.
unfoldable pub mtu_to : Forwarder → Ipv4Addr → ℕ
mtu_to f src_ip_addr = mtu_of f.local_mtu (f.src_mtu src_ip_addr)

-- Whether the MTU changed is returned beside the state.
unfoldable pub set_src_mtu : Forwarder → Ipv4Addr → ℕ → Forwarder × Bool
unfolding mtu_to
set_src_mtu f src_ip_addr mtu =
    let f' : Forwarder = record f {
      src_mtu = insert src_ip_addr (min f.local_mtu mtu) f.src_mtu;
    } in
    (f', not (mtu_to f' src_ip_addr == mtu_to f src_ip_addr))

unfoldable pub set_src_hardware_addr : Forwarder → Ipv4Addr → HardwareAddr → Forwarder
set_src_hardware_addr f src_ip_addr hardware_addr = record f {
  src_hardware_addr = insert src_ip_addr hardware_addr f.src_hardware_addr;
}

unfoldable pub set_local_ip_addr : Forwarder → Ipv4Addr → Forwarder
set_local_ip_addr f ip_addr = record f { local_ip_addr = ip_addr }

-- `checked_add(1)` on `u16`, with 0 for an overflow, of the entry or 0.
unfoldable pub next_identification : Option ℕ → ℕ
next_identification entry = if ltb u16_max (or_zero entry + 1) then 0 else or_zero entry + 1

unfoldable pub increase_ipv4_identification : Forwarder → Ipv4Addr → Ipv4Addr → Forwarder
unfolding next_identification
increase_ipv4_identification f dst_ip_addr src_ip_addr =
    let key : Ipv4Addr × Ipv4Addr = (src_ip_addr, dst_ip_addr) in
    record f {
      ipv4_identification_map =
          insert key (next_identification (f.ipv4_identification_map key))
            f.ipv4_identification_map;
    }

unfoldable pub set_state : Forwarder → SocketAddr → SocketAddr → TcpTxState → Forwarder
set_state f dst src state = record f { states = insert (src, dst) state f.states }

unfoldable pub get_state : Forwarder → SocketAddr → SocketAddr → Option TcpTxState
get_state f dst src = f.states (src, dst)

unfoldable pub clean_up : Forwarder → SocketAddr → SocketAddr → Forwarder
clean_up f dst src = record f { states = remove (src, dst) f.states }

unfoldable pub get_cache_size : Forwarder → SocketAddr → SocketAddr → Run ℕ
get_cache_size f dst src = do s ← unwrap (f.states (src, dst)); done (s.cache.size + length s.queue)

-- `send` and `send_with_payload`: a frame goes to the channel.
unfoldable pub send : Forwarder → Frame → Forwarder × Result (Unit {0})
send f frame = (record f { frames = f.frames ++ (frame ∷ []) }, f.outcome (length f.frames))

-- `HARDWARE_ADDR_UNSPECIFIED` is the address of zeros.
unfoldable pub send_arp_reply : Forwarder → Ipv4Addr → Forwarder × Result (Unit {0})
unfolding send
send_arp_reply f src_ip_addr = send f (
    arp_reply f.local_hardware_addr f.local_ip_addr (or_zero (f.src_hardware_addr src_ip_addr))
      src_ip_addr)

-- The identification moves on behind a packet that was sent, unless it is a fragment with more to
-- come.
unfoldable pub identify : Forwarder → SocketAddr → SocketAddr → Packet → Forwarder
unfolding increase_ipv4_identification
identify f dst src (udp_fragment frag) =
    if frag.more then f else increase_ipv4_identification f dst.ip src.ip
identify f dst src packet = increase_ipv4_identification f dst.ip src.ip

-- `send_ipv4_with_transport`, `send_ipv4_with_fragment` and `send_ipv4_with_last_fragment`, with
-- `send_ethernet`.
unfoldable pub send_ipv4 :
    Forwarder → SocketAddr → SocketAddr → Packet → Forwarder × Result (Unit {0})
unfolding send identify
send_ipv4 f dst src packet =
    let identification = or_zero (f.ipv4_identification_map (src.ip, dst.ip)) in
    let frame =
      ipv4 f.local_hardware_addr (or_zero (f.src_hardware_addr src.ip)) identification dst src
        packet in
    let (f', result) = send f frame in
    elim result [ ok _ ↦ (identify f' dst src packet, ok tt) | err e ↦ (f', err e) ]

-- The packets of one call, which ends with the first that fails.
unfoldable pub send_packets : Forwarder → SocketAddr → SocketAddr → List Packet → Forwarder
unfolding send_ipv4
send_packets f dst src [] = f
send_packets f dst src (packet ∷ packets) =
    send_packets (send_ipv4 f dst src packet).0 dst src packets

-- What the sends of the next call give.
abbrev pub sent : Forwarder → ℕ → Result (Unit {0})
sent f = sent_from (length f.frames) f.outcome
