-- ===== src/Forwarder/Streams.antt =====
-- The calls of `Forwarder` of src/lib.rs for a connection or a datagram, and its implementation of
-- `ForwardStream` and `ForwardDatagram`. A connection that is not there is an `unwrap` of nothing.
pub mod Acks
pub mod Sends
pub mod Table
pub mod Mtus
use pcap2socks.Base.{
  ℕ, if◌then◌else◌, Bool, ◌||◌, Option, none, some, List, [], ◌∷◌, map, Run, done, ◌>>=◌, unwrap,
  Result, ok, err, invalid_data, insert, Key, pair_key,
}
use pcap2socks.Net.{SocketAddr, addr_key}
use pcap2socks.Timer.{Instant}
use pcap2socks.Tcp.Tx.{TcpTxState, is_some, append_queue, append_queue_fin, update_syn_timer}
use pcap2socks.Forwarder.Segments.{Segment}
use pcap2socks.Forwarder.Ranges.{Range}
use pcap2socks.Forwarder.Fragments
use pcap2socks.Forwarder.Fragments.{Fragment, Packets, whole, fragments}
use pcap2socks.Forwarder.Packet
use pcap2socks.Forwarder.Packet.{Packet, udp_packet, udp_fragment, data_segments}
use pcap2socks.Forwarder.Resend
use pcap2socks.Forwarder.Selective
use pcap2socks.Forwarder.Timeout
use pcap2socks.Forwarder.Send
use pcap2socks.Forwarder.State.{Forwarder, send_packets, sent, set_state}

-- What a call does to the state of its connection, with the packets that it sends and its result,
-- where the MTU and the results of the sends are given.
abbrev pub Step : Type 0
Step = TcpTxState → Run (TcpTxState × List Packet × Result (Unit {0}))

unfoldable pub on_state :
    Forwarder → SocketAddr → SocketAddr → Step → Run (Forwarder × Result (Unit {0}))
unfolding set_state
on_state f dst src step = do
  s ← unwrap (f.states (src, dst))
  (s', packets, result) ← step s
  done (send_packets (set_state f dst src s') dst src packets, result)

-- A call that sends one packet and leaves the state alone.
unfoldable pub send_one : (TcpTxState → Packet) → Result (Unit {0}) → Step
send_one packet result s = done (s, packet s ∷ [], result)

unfoldable pub send_tcp_ack :
    Forwarder → SocketAddr → SocketAddr → Instant → Run (Forwarder × Result (Unit {0}))
unfolding on_state
send_tcp_ack f dst src now =
    on_state f dst src (λ s. Send.send_tcp_ack f.local_mtu (f.src_mtu src.ip) s now (sent f))

unfoldable pub send_tcp_ack_0 :
    Forwarder → SocketAddr → SocketAddr → Run (Forwarder × Result (Unit {0}))
unfolding on_state send_one
send_tcp_ack_0 f dst src =
    on_state f dst src (send_one (Packet.send_tcp_ack_0 f.local_mtu) (sent f 0))

unfoldable pub send_tcp_ack_rst :
    Forwarder → SocketAddr → SocketAddr → Run (Forwarder × Result (Unit {0}))
unfolding on_state send_one
send_tcp_ack_rst f dst src =
    on_state f dst src (send_one (Packet.send_tcp_ack_rst f.local_mtu) (sent f 0))

-- Without a connection.
unfoldable pub send_tcp_rst : Forwarder → SocketAddr → SocketAddr → Forwarder × Result (Unit {0})
send_tcp_rst f dst src = (send_packets f dst src (Packet.send_tcp_rst ∷ []), sent f 0)

unfoldable pub append_to_queue :
    Forwarder → SocketAddr → SocketAddr → List ℕ → Instant → Run (Forwarder × Result (Unit {0}))
unfolding set_state
append_to_queue f dst src payload now = do
  s ← unwrap (f.states (src, dst))
  send_tcp_ack (set_state f dst src (append_queue s payload)) dst src now

-- The segments as packets.
abbrev pub as_packets :
    Run (TcpTxState × List Segment × Result (Unit {0}))
    → Run (TcpTxState × List Packet × Result (Unit {0}))
as_packets run = do (s, segs, result) ← run; done (s, data_segments segs, result)

unfoldable pub retransmit_tcp_ack :
    Forwarder → SocketAddr → SocketAddr → Run (Forwarder × Result (Unit {0}))
unfolding on_state
retransmit_tcp_ack f dst src =
    on_state f dst src
      (λ s. as_packets (Resend.retransmit_tcp_ack f.local_mtu (f.src_mtu src.ip) s (sent f)))

unfoldable pub retransmit_tcp_ack_without :
    Forwarder → SocketAddr → SocketAddr → List Range → Run (Forwarder × Result (Unit {0}))
unfolding on_state
retransmit_tcp_ack_without f dst src sacks =
    on_state f dst src
      (λ s. Selective.retransmit_tcp_ack_without f.local_mtu (f.src_mtu src.ip) s sacks (sent f))

unfoldable pub retransmit_tcp_ack_timedout :
    Forwarder → SocketAddr → SocketAddr → Instant → Run (Forwarder × Result (Unit {0}))
unfolding on_state
retransmit_tcp_ack_timedout f dst src now =
    on_state f dst src
      (λ s. Timeout.retransmit_tcp_ack_timedout f.local_mtu (f.src_mtu src.ip) s now (sent f))

-- `ForwardStream::open`: the timer of the SYN starts once it is sent.
unfoldable pub open_syn : ℕ → Instant → (ℕ → Result (Unit {0})) → Step
open_syn local_mtu now sent s = do
  packet ← Packet.send_tcp_ack_syn local_mtu s
  elim (sent 0) [
    | ok _ ↦ done (update_syn_timer s now, packet ∷ [], ok tt)
    | err e ↦ done (s, packet ∷ [], err e)
  ]

unfoldable pub open_stream :
    Forwarder → SocketAddr → SocketAddr → Instant → Run (Forwarder × Result (Unit {0}))
unfolding on_state open_syn
open_stream f dst src now = on_state f dst src (open_syn f.local_mtu now (sent f))

-- `ForwardStream::forward`: nothing goes behind a FIN.
unfoldable pub forward :
    Forwarder → SocketAddr → SocketAddr → List ℕ → Instant → Run (Forwarder × Result (Unit {0}))
unfolding append_to_queue
forward f dst src payload now = do
  s ← unwrap (f.states (src, dst))
  if is_some s.cache_fin || s.queue_fin
      then done (f, err invalid_data)
      else append_to_queue f dst src payload now

-- `ForwardStream::tick`
unfoldable pub tick :
    Forwarder → SocketAddr → SocketAddr → Instant → Run (Forwarder × Result (Unit {0}))
unfolding retransmit_tcp_ack_timedout
tick f dst src now = retransmit_tcp_ack_timedout f dst src now

-- `ForwardStream::close`
unfoldable pub close :
    Forwarder → SocketAddr → SocketAddr → Instant → Run (Forwarder × Result (Unit {0}))
unfolding set_state
close f dst src now = do
  s ← unwrap (f.states (src, dst))
  send_tcp_ack (set_state f dst src (append_queue_fin s)) dst src now

-- The packets of a datagram.
abbrev pub udp_packets : Packets → List Packet
udp_packets (whole payload) = udp_packet payload ∷ []
udp_packets (fragments frags) = map udp_fragment frags

-- `ForwardDatagram::forward`. The serialized datagram, header and payload, is an argument.
unfoldable pub send_udp :
    Forwarder → SocketAddr → SocketAddr → List ℕ → List ℕ → Run (Forwarder × Result (Unit {0}))
send_udp f dst src payload buffer = do
  (packets, result) ← Fragments.send_udp f.local_mtu (f.src_mtu src.ip) payload buffer (sent f)
  done (send_packets f dst src (udp_packets packets), result)
