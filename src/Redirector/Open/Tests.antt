-- ===== src/Redirector/Open/Tests.antt =====
-- Examples for the redirector as one machine: a datagram of two bytes to a name server.
use pcap2socks.Base.{
  arith, slice, ℕ, ◌≡◌, refl, true, false, Option, none, some, List, [], ◌∷◌, ◌++◌, replicate, drop,
  Run, done, panic, out_of_fuel, ok,
}
use pcap2socks.Net.{SocketAddr}
use pcap2socks.Packet.Ipv4.{Ipv4, udp_protocol}
use pcap2socks.Forwarder.State
use pcap2socks.Redirector.Tcp
use pcap2socks.Redirector.Tcp.{Redirector}
use pcap2socks.Redirector.Udp
use pcap2socks.Redirector.Udp.{Sent, handle_udp}
use pcap2socks.Redirector.Udp.Listed.{listed}
use pcap2socks.Redirector.Dispatch.{FrameSurroundings, Whole, handle_ipv4}
use pcap2socks.Redirector.Dispatch.Laws.{IsSound}
use pcap2socks.Redirector.Udp.Laws.{new-IsValid, IsHandled}
use pcap2socks.Redirector.Open.{FrameParsers, ipv4_type, handle_frame}
use pcap2socks.Redirector.Open.Laws.{begun, start, frame_came, Reached-IsSound}
use pcap2socks.Redirector.Open.Delivery.{handle_frame_udp}

abbrev device : SocketAddr
device = record { ip = 168430081; port = 40000 }

abbrev resolver : SocketAddr
resolver = record { ip = 134744072; port = 53 }

abbrev ipv4 : Ipv4
ipv4 = record {
  identification = 7;
  more_fragments = false;
  fragment_offset = 0;
  next_level_protocol = udp_protocol;
  source = 168430081;
  destination = 134744072;
}

-- Any frame is a UDP datagram to the name server.
abbrev parsers : FrameParsers
parsers = record {
  ethernet_packet =
      λ frame. some (record { source = 2; ethertype = ipv4_type; payload = drop 14 frame });
  arp_packet = λ bytes. none;
  ipv4_packet =
      λ bytes. some (record { layer = ipv4; len = 20; total_length = 30; payload = drop 20 bytes });
  layers = record {
    icmp_packet = λ bytes. none;
    tcp_packet = λ ipv4 bytes. none;
    udp_packet = λ ipv4 bytes. some ((device, resolver), 8);
    within = record {
      ipv4_packet = λ bytes. none;
      icmp_packet = λ bytes. false;
      tcp_packet = λ bytes. none;
      udp_packet = λ bytes. none;
    };
  };
}

abbrev redirector : Redirector
redirector = Tcp.new (State.new (λ n. ok tt) 1500 1 168430082) (λ ip_addr. true) 168430082 none

abbrev frame : List ℕ
frame = replicate 42 0 ++ (1 ∷ 2 ∷ 0 ∷ 0 ∷ 0 ∷ 0 ∷ [])

abbrev surroundings : FrameSurroundings
surroundings = record {
  streams = record { sequence = 7000; proxy = ok tt; written = ok tt; now = 5 };
  bound = ok 5000;
  sent = ok 2;
}

abbrev after : Run (Whole listed × Option Sent) → Whole listed × Option Sent
after (done (w, call)) = (w, call)
after panic = (begun listed redirector, none)
after out_of_fuel = (begun listed redirector, none)

abbrev handled : Whole listed × Option Sent
handled = after (handle_frame parsers (begun listed redirector) frame surroundings)

handled_returned :
    handle_frame parsers (begun listed redirector) frame surroundings ≡ done (handled.0, handled.1)
unfolding handle_frame handle_ipv4 handle_udp Tcp.new slice Udp.bind_local_udp_port Udp.new
    Udp.bind_new Udp.or_reuse Udp.bind_worker Udp.with_worker
handled_returned = refl

port_fresh : (begun listed redirector).udp.datagrams 5000 ≡ none
unfolding Udp.new
port_fresh = refl

Reached-IsSound_example : IsSound handled.0
Reached-IsSound_example = Reached-IsSound (
    frame_came frame surroundings handled.1
      (start (λ n. ok tt) 1500 1 168430082 (λ ip_addr. true) none) port_fresh handled_returned)

handle_frame_udp_example :
    (w : Whole listed) × (call : Option Sent) × (handle_frame parsers
        (begun listed redirector)
        frame
        surroundings
      ≡ done (w, call))
    × IsHandled (begun listed redirector).udp device resolver (1 ∷ 2 ∷ []) w.udp call
unfolding pcap2socks.Packet.Ipv4.is_fragment Tcp.is_from_source Tcp.new
handle_frame_udp_example =
    handle_frame_udp parsers (begun listed redirector) frame surroundings
      (record { source = 2; ethertype = ipv4_type; payload = drop 14 frame })
      (record { layer = ipv4; len = 20; total_length = 30; payload = drop 20 (drop 14 frame) })
      device resolver refl refl (omega arith) (omega arith) new-IsValid port_fresh refl refl refl
      refl refl
