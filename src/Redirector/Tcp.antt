-- ===== src/Redirector/Tcp.antt =====
-- The TCP and ARP part of `Redirector` of src/lib.rs: the connections, each with a stream to the
-- proxy and a state for each direction. What the proxy and the random numbers give are arguments,
-- and so is the clock. The log lines are left out.
pub mod Linked
pub mod Fin
pub mod Syn
pub mod Ack
pub mod Handle
pub mod Laws
pub mod Reach
mod Deliver
mod Tests
use pcap2socks.Base.{
  ℕ, ◌+◌, ◌/◌, ◌^◌, leb, ◌==◌, if◌then◌else◌, min, Bool, true, false, not, ◌&&◌, Option, none, some,
  List, length, Run, done, panic, ◌>>=◌, unwrap, Result, ok, err, Map, empty_map, insert, remove,
  Key, pair_key,
}
use pcap2socks.Net.{Ipv4Addr, HardwareAddr, SocketAddr, addr_key}
use pcap2socks.Timer.{Instant}
use pcap2socks.Tcp.Tx
use pcap2socks.Tcp.Tx.{TcpTxState, or_zero, is_some}
use pcap2socks.Tcp.Rx
use pcap2socks.Tcp.Rx.{TcpRxState, next_u32}
use pcap2socks.Socks.Stream
use pcap2socks.Socks.Stream.{StreamWorker}
use pcap2socks.Forwarder.Segments.{ipv4_minimum_len, tcp_minimum_len}
use pcap2socks.Forwarder.State
use pcap2socks.Forwarder.State.{Forwarder, Connection}
use pcap2socks.Forwarder.Streams

-- `MAX_RECV_WSCALE`
abbrev pub max_recv_wscale : ℕ
max_recv_wscale = 8

-- `contains` is that of the network of the source, and `tx` what the mutex guards.
pub record Redirector : Type 0 where
  pub tx : Forwarder
  pub is_tx_src_hardware_addr_set : Bool
  pub contains : Ipv4Addr → Bool
  pub local_ip_addr : Ipv4Addr
  pub gw_ip_addr : Option Ipv4Addr
  pub streams : Map Connection StreamWorker
  pub states : Map Connection TcpRxState

-- The gateway's address, if there is one, is the forwarder's own.
unfoldable pub new : Forwarder → (Ipv4Addr → Bool) → Ipv4Addr → Option Ipv4Addr → Redirector
new tx contains local_ip_addr gw_ip_addr = record {
  tx = elim gw_ip_addr [ none ↦ tx | some ip_addr ↦ State.set_local_ip_addr tx ip_addr ];
  is_tx_src_hardware_addr_set = false;
  contains = contains;
  local_ip_addr = local_ip_addr;
  gw_ip_addr = gw_ip_addr;
  streams = empty_map;
  states = empty_map;
}

-- What the handlers ask of an ARP packet.
pub record Arp : Type 0 where
  pub src : Ipv4Addr
  pub dst : Ipv4Addr
  pub src_hardware_addr : HardwareAddr

-- The first hardware address that is seen is the source's.
unfoldable pub join : Redirector → Ipv4Addr → HardwareAddr → Redirector
join r src hardware_addr = if r.is_tx_src_hardware_addr_set then r else record r {
  tx = State.set_src_hardware_addr r.tx src hardware_addr;
  is_tx_src_hardware_addr_set = true;
}

-- Whether a packet comes from the network of the source.
unfoldable pub is_from_source : Redirector → Ipv4Addr → Bool
is_from_source r src = not (src == r.local_ip_addr) && r.contains src

unfoldable pub answer_arp : Redirector → Arp → Redirector × Result (Unit {0})
unfolding join
answer_arp r arp =
    let joined = join r arp.src arp.src_hardware_addr in
    let (tx, result) = State.send_arp_reply joined.tx arp.src in (record joined { tx = tx }, result)

-- Without a gateway, no request is answered.
unfoldable pub serve_arp : Redirector → Arp → Option Ipv4Addr → Redirector × Result (Unit {0})
unfolding is_from_source answer_arp
serve_arp r arp none = (r, ok tt)
serve_arp r arp (some gw) =
    if is_from_source r arp.src && (arp.dst == gw) then answer_arp r arp else (r, ok tt)

unfoldable pub handle_arp : Redirector → Arp → Redirector × Result (Unit {0})
unfolding serve_arp
handle_arp r arp = serve_arp r arp r.gw_ip_addr

-- What the handlers ask of a TCP packet.
pub record Tcp : Type 0 where
  pub src : SocketAddr
  pub dst : SocketAddr
  pub sequence : ℕ
  pub acknowledgement : ℕ
  pub window : ℕ
  pub is_rst : Bool
  pub is_ack : Bool
  pub is_syn : Bool
  pub is_fin : Bool
  pub mss : Option ℕ
  pub wscale : Option ℕ
  pub is_sack_perm : Bool
  pub sack : Option (List (ℕ × ℕ))

abbrev pub key : Tcp → Connection
key tcp = (tcp.src, tcp.dst)

abbrev pub Handled : Type 0
Handled = Run (Redirector × Result (Unit {0}))

unfoldable pub clean_up : Redirector → SocketAddr → SocketAddr → Redirector
clean_up r src dst = record r {
  streams = remove (src, dst) r.streams;
  states = remove (src, dst) r.states;
  tx = State.clean_up r.tx dst src;
}

unfoldable pub handle_tcp_rst : Redirector → Tcp → Redirector
unfolding clean_up
handle_tcp_rst r tcp = clean_up r tcp.src tcp.dst

-- A call of the forwarder.
unfoldable pub on_tx : Redirector → Run (Forwarder × Result (Unit {0})) → Handled
on_tx r call = do (tx, result) ← call; done (record r { tx = tx }, result)

-- What the state towards the source is changed to.
unfoldable pub on_tx_state : Redirector → Tcp → (TcpTxState → TcpTxState) → Run Redirector
on_tx_state r tcp change = do
  s ← unwrap (State.get_state r.tx tcp.dst tcp.src)
  done (record r { tx = State.set_state r.tx tcp.dst tcp.src (change s) })

unfoldable pub send_rst : Redirector → Tcp → Redirector × Result (Unit {0})
send_rst r tcp =
    let (tx, result) = Streams.send_tcp_rst r.tx tcp.dst tcp.src in (record r { tx = tx }, result)

-- ACK/RST for a connection that is given up, and the error.
unfoldable pub refuse : Redirector → Tcp → Result (Unit {0}) → Handled
unfolding on_tx clean_up
refuse r tcp error = do
  (r', result) ← on_tx r (Streams.send_tcp_ack_rst r.tx tcp.dst tcp.src)
  elim result [ err e ↦ done (r', err e) | ok _ ↦ done (clean_up r' tcp.src tcp.dst, error) ]
