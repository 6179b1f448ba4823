-- ===== src/Redirector/Open/Delivery.antt =====
-- A frame with a UDP datagram, up to the worker that sends its payload.
use pcap2socks.Base.{
  ℕ, ◌+◌, ◌-◌, ◌≤◌, ◌≡◌, refl, ap, true, false, Option, some, List, length, take, drop, done, slice,
  slice-eq-done, length-take, length-drop, take_of_length, Result, arith, ◌∙◌,
}
use pcap2socks.Net.{SocketAddr}
use pcap2socks.Packet.Ipv4
use pcap2socks.Packet.Ipv4.{udp_protocol, ipv4_kind}
use pcap2socks.Redirector.Tcp.{is_from_source, join}
use pcap2socks.Redirector.Udp.{Sent}
use pcap2socks.Redirector.Udp.Lru.{LruCache}
use pcap2socks.Redirector.Udp.Laws.{IsValid, IsFresh, IsHandled, handle_udp_run}
use pcap2socks.Redirector.Dispatch.{
  Indicator, FrameSurroundings, Whole, len, content_len, parse_buffer, handle_transport,
  serve_frame, handle_ipv4, udp_layer,
}
use pcap2socks.Redirector.Open.{
  FrameParsers, EthernetPacket, Ipv4Packet, ipv4_type, parse, parse_ipv4, network_kind,
  indicator_of, handle_network, handle_frame, Parsed, ipv4_network, drop_result,
}

module _ {L : LruCache} (p : FrameParsers) (w : Whole L) (frame : List ℕ) (e : FrameSurroundings)
    (packet : EthernetPacket) (ip : Ipv4Packet) (src dst : SocketAddr)
    (whole : Ipv4.is_fragment ip.layer ≡ false)
    (from_source : is_from_source w.redirector ip.layer.source ≡ true)
    (room : ip.len + 8 ≤ ip.total_length) (there : 14 + ip.total_length ≤ length frame)
    (v : IsValid w.udp) (fresh : IsFresh w.udp e.bound) where
  -- What follows the headers, without the padding of the frame.
  abbrev payload : List ℕ
  payload = drop (14 + ip.len + 8) (take (14 + ip.total_length) frame)

  abbrev indicator : Indicator
  indicator = record {
    src_hardware_addr = packet.source;
    ipv4 = some ip.layer;
    ipv4_len = ip.len;
    total_length = ip.total_length;
    transport = some (udp_layer src dst);
    transport_len = 8;
  }

  content_slice : slice frame 0 (14 + ip.total_length) ≡ done (take (14 + ip.total_length) frame)
  content_slice =
      let e : 14 + ip.total_length - 0 ≡ 14 + ip.total_length = omega arith in
      rw (slice-eq-done frame 0 (14 + ip.total_length) (omega arith) there, e) refl

  payload_slice :
      slice
        (take (14 + ip.total_length) frame)
        (14 + ip.len + 8)
        (length (take (14 + ip.total_length) frame))
      ≡ done payload
  payload_slice =
      let content = take (14 + ip.total_length) frame in
      let size = length-take (14 + ip.total_length) frame in
      rw
        (slice-eq-done content (14 + ip.len + 8) (length content) (omega (arith, size))
          (omega arith))
        (ap done (
          take_of_length payload (length content - (14 + ip.len + 8))
            (length-drop (14 + ip.len + 8) content)))

  serve_udp :
      (w' : Whole L) (of_w : (w'.udp ≡ w.udp))
      → (w'' : Whole L) × (call : Option Sent) × (result : Result (Unit {0})) × (serve_frame
            p.layers w' ip.layer indicator frame e
          ≡ done (w'', call, result))
        × IsHandled w.udp src dst payload w''.udp call
  unfolding serve_frame handle_transport len content_len
  serve_udp w' same =
      let (udp, call, result, returned, v', of_sent, handled) =
        handle_udp_run src dst payload e.bound e.sent v fresh in
      (
        record w' { udp = udp },
        call,
        result,
        rw (serve_frame, content_slice, whole, payload_slice, handle_transport, same, returned)
            refl,
        handled,
      )

  -- What is parsed of the frame.
  abbrev parsed : Parsed
  parsed = record {
    src_hardware_addr = packet.source;
    network = some (ipv4_network ip);
    transport = (some (udp_layer src dst), 8);
  }

  parse_udp :
      (of_ipv4 : packet.ethertype ≡ ipv4_type) (as_ipv4 : p.ipv4_packet packet.payload ≡ some ip)
      (of_udp : ip.layer.next_level_protocol ≡ udp_protocol)
      (as_udp : p.layers.udp_packet ip.layer ip.payload ≡ some ((src, dst), 8))
      → parse p packet ≡ parsed
  unfolding parse parse_ipv4 parse_buffer
  parse_udp of_ipv4 as_ipv4 of_udp as_udp =
      rw (parse, of_ipv4, as_ipv4, parse_ipv4, whole, parse_buffer, of_udp, as_udp) refl

  abbrev joined : Whole L
  joined = record w { redirector = join w.redirector ip.layer.source packet.source }

  network_udp :
      handle_network p w parsed (some ipv4_kind) frame e
      ≡ drop_result (serve_frame p.layers joined ip.layer indicator frame e)
  unfolding handle_network indicator_of handle_ipv4
  network_udp = rw (handle_network, indicator_of, handle_ipv4, from_source) refl

  -- A whole datagram of UDP from the source's network, in a frame that has it all, is handled
  -- without a panic where the local ports are valid and a new one is none in use. What follows the
  -- headers, without the padding of the frame, goes to the destination over the worker of the
  -- port of its source; or no port is in use, and those stay as they are.
  pub handle_frame_udp :
      (as_ethernet : p.ethernet_packet frame ≡ some packet) (of_ipv4 : packet.ethertype ≡ ipv4_type)
      (as_ipv4 : p.ipv4_packet packet.payload ≡ some ip)
      (of_udp : ip.layer.next_level_protocol ≡ udp_protocol)
      (as_udp : p.layers.udp_packet ip.layer ip.payload ≡ some ((src, dst), 8))
      → (w' : Whole L) × (call : Option Sent) × (handle_frame p w frame e ≡ done (w', call))
        × IsHandled w.udp src dst payload w'.udp call
  unfolding handle_frame network_kind
  handle_frame_udp as_ethernet of_ipv4 as_ipv4 of_udp as_udp =
      let (w', call, result, served, handled) = serve_udp joined refl in
      let to_network : handle_frame p w frame e
          ≡ handle_network p w parsed (some ipv4_kind) frame e =
        rw (handle_frame, as_ethernet, parse_udp of_ipv4 as_ipv4 of_udp as_udp) refl in
      (w', call, to_network ∙ network_udp ∙ ap drop_result served, handled)
