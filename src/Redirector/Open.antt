-- ===== src/Redirector/Open.antt =====
-- `Redirector::open` of src/lib.rs and `Indicator::parse` of src/packet/mod.rs: frames are parsed and
-- handled one after the other. What pnet parses is an interface, and what the receiver gives is an
-- argument. Errors of the handlers are only logged.
mod Laws
mod Delivery
mod Tests
use pcap2socks.Base.{
  ℕ, if◌then◌else◌, Bool, not, Option, none, some, List, [], ◌∷◌, Run, done, panic, ◌>>=◌, Result,
  ok, err, ErrorKind, timed_out, other, invalid_input, invalid_data, not_connected, write_zero,
  not_found,
}
use pcap2socks.Net.{HardwareAddr}
use pcap2socks.Packet.Ipv4
use pcap2socks.Packet.Ipv4.{
  Ipv4, LayerKind, ethernet_kind, arp_kind, ipv4_kind, icmpv4_kind, tcp_kind, udp_kind,
}
use pcap2socks.Redirector.Tcp.{Redirector, Arp, handle_arp}
use pcap2socks.Redirector.Udp.{Sent}
use pcap2socks.Redirector.Udp.Lru.{LruCache}
use pcap2socks.Redirector.Dispatch.{
  Layers, LayerParsers, parse_buffer, Indicator, FrameSurroundings, Whole, handle_ipv4,
}

-- `EtherTypes`, by its names.
pub data EtherType : Type 0 where
  arp_type ipv4_type : EtherType
  other_type : ℕ → EtherType

pub record EthernetPacket : Type 0 where
  pub source : HardwareAddr
  pub ethertype : EtherType
  pub payload : List ℕ

-- An IPv4 layer with its length, the total length that it has, and its payload.
pub record Ipv4Packet : Type 0 where
  pub layer : Ipv4
  pub len : ℕ
  pub total_length : ℕ
  pub payload : List ℕ

pub record FrameParsers : Type 0 where
  pub ethernet_packet : List ℕ → Option EthernetPacket
  pub arp_packet : List ℕ → Option Arp
  pub ipv4_packet : List ℕ → Option Ipv4Packet
  pub layers : LayerParsers

-- `Layers`, those of a network.
pub data Network : Type 0 where
  arp_network : Arp → Network
  ipv4_network : Ipv4Packet → Network

-- `Indicator`, with the length of the transport layer.
pub record Parsed : Type 0 where
  pub src_hardware_addr : HardwareAddr
  pub network : Option Network
  pub transport : Option Layers × ℕ

abbrev as_arp : Option Arp → Option Network
as_arp none = none
as_arp (some arp) = some (arp_network arp)

-- The transport of a fragment is not parsed.
unfoldable pub parse_ipv4 : FrameParsers → HardwareAddr → Option Ipv4Packet → Parsed
unfolding Ipv4.is_fragment parse_buffer
parse_ipv4 p addr none = record { src_hardware_addr = addr; network = none; transport = (none, 0) }
parse_ipv4 p addr (some packet) = record {
  src_hardware_addr = addr;
  network = some (ipv4_network packet);
  transport =
      if not (Ipv4.is_fragment packet.layer)
      then parse_buffer p.layers packet.layer packet.payload
      else (none, 0);
}

-- `Indicator::parse`
unfoldable pub parse : FrameParsers → EthernetPacket → Parsed
unfolding parse_ipv4
parse p packet = elim packet.ethertype [
  | arp_type ↦ record {
    src_hardware_addr = packet.source;
    network = as_arp (p.arp_packet packet.payload);
    transport = (none, 0);
  }
  | ipv4_type ↦ parse_ipv4 p packet.source (p.ipv4_packet packet.payload)
  | other_type n ↦ record {
    src_hardware_addr = packet.source;
    network = none;
    transport = (none, 0);
  }
]

unfoldable pub network_kind : Option Network → Option LayerKind
network_kind none = none
network_kind (some (arp_network arp)) = some arp_kind
network_kind (some (ipv4_network packet)) = some ipv4_kind

-- `arp` and `ipv4`, the latter with what the handler asks of the indicator.
abbrev pub arp_of : Option Network → Option Arp
arp_of none = none
arp_of (some (arp_network arp)) = some arp
arp_of (some (ipv4_network packet)) = none

unfoldable pub indicator_of : Parsed → Option Network → Indicator
indicator_of parsed (some (ipv4_network packet)) = record {
  src_hardware_addr = parsed.src_hardware_addr;
  ipv4 = some packet.layer;
  ipv4_len = packet.len;
  total_length = packet.total_length;
  transport = parsed.transport.0;
  transport_len = parsed.transport.1;
}
indicator_of parsed network = record {
  src_hardware_addr = parsed.src_hardware_addr;
  ipv4 = none;
  ipv4_len = 0;
  total_length = 0;
  transport = none;
  transport_len = 0;
}

module _ {L : LruCache} where
  unfoldable pub serve_arp : Whole L → Option Arp → Whole L
  serve_arp w none = w
  serve_arp w (some arp) = record w { redirector = (handle_arp w.redirector arp).0 }

  abbrev drop_result : Run (Whole L × Option Sent × Result (Unit {0})) → Run (Whole L × Option Sent)
  drop_result run = do (w, call, result) ← run; done (w, call)

  -- A layer of a network that is neither ARP nor IPv4 is `unreachable!`.
  unfoldable pub handle_network :
      FrameParsers
      → Whole L
      → Parsed
      → Option LayerKind
      → List ℕ
      → FrameSurroundings
      → Run (Whole L × Option Sent)
  unfolding serve_arp indicator_of
  handle_network p w parsed none frame e = done (w, none)
  handle_network p w parsed (some arp_kind) frame e =
      done (serve_arp w (arp_of parsed.network), none)
  handle_network p w parsed (some ipv4_kind) frame e =
      drop_result (handle_ipv4 p.layers w (indicator_of parsed parsed.network) frame e)
  handle_network p w parsed (some ethernet_kind) frame e = panic
  handle_network p w parsed (some icmpv4_kind) frame e = panic
  handle_network p w parsed (some tcp_kind) frame e = panic
  handle_network p w parsed (some udp_kind) frame e = panic

  -- `Indicator::from` and what the loop does with it.
  unfoldable pub handle_frame :
      FrameParsers → Whole L → List ℕ → FrameSurroundings → Run (Whole L × Option Sent)
  unfolding parse network_kind handle_network
  handle_frame p w frame e = elim (p.ethernet_packet frame) [
    | none ↦ done (w, none)
    | some packet ↦
        let parsed = parse p packet in
        handle_network p w parsed (network_kind parsed.network) frame e
  ]

  -- The loop, over what the receiver gives: after a timeout it goes on, and any other error ends
  -- it. Without an error, it still runs at the end of the list.
  unfoldable pub open_frames :
      FrameParsers
      → Whole L
      → List (Result (List ℕ) × FrameSurroundings)
      → Run (Whole L × Option ErrorKind)
  unfolding handle_frame
  open_frames p w [] = done (w, none)
  open_frames p w ((ok frame, e) ∷ rest) = do
    (w', call) ← handle_frame p w frame e
    open_frames p w' rest
  open_frames p w ((err timed_out, e) ∷ rest) = open_frames p w rest
  open_frames p w ((err other, e) ∷ rest) = done (w, some other)
  open_frames p w ((err invalid_input, e) ∷ rest) = done (w, some invalid_input)
  open_frames p w ((err invalid_data, e) ∷ rest) = done (w, some invalid_data)
  open_frames p w ((err not_connected, e) ∷ rest) = done (w, some not_connected)
  open_frames p w ((err write_zero, e) ∷ rest) = done (w, some write_zero)
  open_frames p w ((err not_found, e) ∷ rest) = done (w, some not_found)
