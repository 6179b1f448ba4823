-- ===== src/Forwarder/Streams/Table.antt =====
-- No call of the forwarder changes an acknowledgement, of whatever connection.
use pcap2socks.Base.{
  ℕ, ◌≡◌, refl, ◌∙◌, ap, ◌||◌, Bool-cases, Option-cases, Result-cases, inl, inr, Option, none, some,
  List, [], ◌∷◌, length, Run, Result, pair_key, All, All-bind, All-map, All-any,
}
use pcap2socks.Net.{SocketAddr, addr_key}
use pcap2socks.Timer.{Instant}
use pcap2socks.Tcp.Tx
use pcap2socks.Tcp.Tx.{TcpTxState, is_some}
use pcap2socks.Forwarder.Ranges.{Range}
use pcap2socks.Forwarder.Packet
use pcap2socks.Forwarder.Packet.{
  Packet, data_segment, ack_0, ack_syn, ack_rst, rst, pure_fin, udp_packet, udp_fragment,
}
use pcap2socks.Forwarder.Fragments
use pcap2socks.Forwarder.State
use pcap2socks.Forwarder.State.{Forwarder, Frame, Connection, send_packets, set_state, sent}
use pcap2socks.Forwarder.Streams
use pcap2socks.Forwarder.Streams.{Step, on_state, send_one, open_syn}
use pcap2socks.Forwarder.Streams.Acks.{
  Same, Keeps, Keeps-bind, retransmit_tcp_ack-Keeps, retransmit_tcp_ack_without-Keeps,
  retransmit_tcp_ack_timedout-Keeps,
}
use pcap2socks.Forwarder.Streams.Sends.{send_tcp_ack-Keeps, open_syn-Keeps}

abbrev pub ack_of : Option TcpTxState → Option ℕ
ack_of none = none
ack_of (some s) = some s.acknowledgement

-- The same connections, with the same acknowledgements.
abbrev pub SameAcks : Forwarder → Forwarder → Type 0
SameAcks f f' = (k : Connection) → ack_of (f'.states k) ≡ ack_of (f.states k)

abbrev pub KeepsAcks : Forwarder → Run (Forwarder × Result (Unit {0})) → Type 0
KeepsAcks f call = All (λ (f', result). SameAcks f f') call

states-identify :
    (f : Forwarder) (dst src : SocketAddr) (packet : Packet)
    → (State.identify f dst src packet).states ≡ f.states
unfolding State.identify State.increase_ipv4_identification
states-identify f dst src (udp_fragment frag) = elim (Bool-cases frag.more) [
  | inl e ↦ rw e refl
  | inr e ↦ rw e refl
]
states-identify f dst src (data_segment _) = refl
states-identify f dst src (ack_0 _ _ _ _) = refl
states-identify f dst src (ack_syn _ _ _ _ _ _) = refl
states-identify f dst src (ack_rst _ _ _) = refl
states-identify f dst src (rst _ _ _) = refl
states-identify f dst src (pure_fin _ _ _) = refl
states-identify f dst src (udp_packet _) = refl

states-send_ipv4 :
    (f : Forwarder) (dst src : SocketAddr) (packet : Packet)
    → (State.send_ipv4 f dst src packet).0.states ≡ f.states
unfolding State.send_ipv4 State.send
states-send_ipv4 f dst src packet =
    let frame =
      State.ipv4 f.local_hardware_addr (Tx.or_zero (f.src_hardware_addr src.ip))
        (Tx.or_zero (f.ipv4_identification_map (src.ip, dst.ip))) dst src packet in
    elim (Result-cases (f.outcome (length f.frames))) [
      | inl (_, sent_ok) ↦ rw sent_ok (states-identify (State.send f frame).0 dst src packet)
      | inr (e, failed) ↦ rw failed refl
    ]

pub states-send_packets :
    (f : Forwarder) (dst src : SocketAddr) (packets : List Packet)
    → (send_packets f dst src packets).states ≡ f.states
unfolding send_packets
states-send_packets f dst src [] = refl
states-send_packets f dst src (packet ∷ packets) =
    states-send_packets (State.send_ipv4 f dst src packet).0 dst src packets
    ∙ states-send_ipv4 f dst src packet

-- A state is replaced by one with the same acknowledgement.
pub set_state-SameAcks :
    (f : Forwarder) (dst src : SocketAddr) (s s' : TcpTxState)
    → f.states (src, dst) ≡ some s
    → s'.acknowledgement ≡ s.acknowledgement
    → SameAcks f (set_state f dst src s')
unfolding set_state
set_state-SameAcks f dst src s s' e same k =
    let at : Connection = (src, dst) in
    elim (Bool-cases (pair_key.same at k)) [
      | inl here ↦ rw (here, same, ← (pair_key.same_iff at k).0 here, e) refl
      | inr elsewhere ↦ rw elsewhere refl
    ]

pub on_state-KeepsAcks :
    (f : Forwarder) (dst src : SocketAddr) (step : Step)
    → ((s : TcpTxState) → Keeps s (step s))
    → KeepsAcks f (on_state f dst src step)
unfolding on_state
on_state-KeepsAcks f dst src step keeps = elim (Option-cases (f.states (src, dst))) [
  | inl missing ↦ rw missing tt
  | inr (s, here) ↦ rw here (
      All-bind (Same s) (λ (f', result). SameAcks f f') (step s) _ (keeps s)
        (λ (s', packets, result) same k.
          ap (λ m. ack_of (m k)) (states-send_packets (set_state f dst src s') dst src packets)
          ∙ set_state-SameAcks f dst src s s' here same k))
]

module _ (f : Forwarder) (dst src : SocketAddr) where
  pub send_tcp_ack-KeepsAcks : (now : Instant) → KeepsAcks f (Streams.send_tcp_ack f dst src now)
  unfolding Streams.send_tcp_ack
  send_tcp_ack-KeepsAcks now =
      on_state-KeepsAcks f dst src _
        (λ s. send_tcp_ack-Keeps f.local_mtu (f.src_mtu src.ip) s now (sent f))

  pub send_tcp_ack_0-KeepsAcks : KeepsAcks f (Streams.send_tcp_ack_0 f dst src)
  unfolding Streams.send_tcp_ack_0 send_one
  send_tcp_ack_0-KeepsAcks =
      on_state-KeepsAcks f dst src (send_one (Packet.send_tcp_ack_0 f.local_mtu) (sent f 0))
        (λ s. refl)

  pub send_tcp_ack_rst-KeepsAcks : KeepsAcks f (Streams.send_tcp_ack_rst f dst src)
  unfolding Streams.send_tcp_ack_rst send_one
  send_tcp_ack_rst-KeepsAcks =
      on_state-KeepsAcks f dst src (send_one (Packet.send_tcp_ack_rst f.local_mtu) (sent f 0))
        (λ s. refl)

  pub send_tcp_rst-SameAcks : SameAcks f (Streams.send_tcp_rst f dst src).0
  unfolding Streams.send_tcp_rst
  send_tcp_rst-SameAcks k =
      ap (λ m. ack_of (m k)) (states-send_packets f dst src (Packet.send_tcp_rst ∷ []))

  pub retransmit_tcp_ack-KeepsAcks : KeepsAcks f (Streams.retransmit_tcp_ack f dst src)
  unfolding Streams.retransmit_tcp_ack
  retransmit_tcp_ack-KeepsAcks = on_state-KeepsAcks f dst src _ (λ s.
      Keeps-bind s _ _ (retransmit_tcp_ack-Keeps f.local_mtu (f.src_mtu src.ip) s (sent f))
        (λ x same. same))

  pub retransmit_tcp_ack_without-KeepsAcks :
      (sacks : List Range) → KeepsAcks f (Streams.retransmit_tcp_ack_without f dst src sacks)
  unfolding Streams.retransmit_tcp_ack_without
  retransmit_tcp_ack_without-KeepsAcks sacks =
      on_state-KeepsAcks f dst src _
        (λ s. retransmit_tcp_ack_without-Keeps f.local_mtu (f.src_mtu src.ip) s sacks (sent f))

  pub open_stream-KeepsAcks : (now : Instant) → KeepsAcks f (Streams.open_stream f dst src now)
  unfolding Streams.open_stream
  open_stream-KeepsAcks now =
      on_state-KeepsAcks f dst src _ (λ s. open_syn-Keeps f.local_mtu now (sent f) s)

  pub tick-KeepsAcks : (now : Instant) → KeepsAcks f (Streams.tick f dst src now)
  unfolding Streams.tick Streams.retransmit_tcp_ack_timedout
  tick-KeepsAcks now =
      on_state-KeepsAcks f dst src _
        (λ s. retransmit_tcp_ack_timedout-Keeps f.local_mtu (f.src_mtu src.ip) s now (sent f))

  -- A state that is changed before the queue is sent.
  queued-KeepsAcks :
      (s s' : TcpTxState) (now : Instant)
      → f.states (src, dst) ≡ some s
      → s'.acknowledgement ≡ s.acknowledgement
      → KeepsAcks f (Streams.send_tcp_ack (set_state f dst src s') dst src now)
  unfolding Streams.send_tcp_ack set_state
  queued-KeepsAcks s s' now here same =
      All-map (λ (f', result). SameAcks (set_state f dst src s') f') (λ (f', result). SameAcks f f')
        (Streams.send_tcp_ack (set_state f dst src s') dst src now)
        (on_state-KeepsAcks (set_state f dst src s') dst src _ (λ t.
          send_tcp_ack-Keeps f.local_mtu (f.src_mtu src.ip) t now (sent (set_state f dst src s'))))
        (λ x acks k. acks k ∙ set_state-SameAcks f dst src s s' here same k)

  pub forward-KeepsAcks :
      (payload : List ℕ) (now : Instant) → KeepsAcks f (Streams.forward f dst src payload now)
  unfolding Streams.forward Streams.append_to_queue Tx.append_queue
  forward-KeepsAcks payload now = elim (Option-cases (f.states (src, dst))) [
    | inl missing ↦ rw missing tt
    | inr (s, here) ↦ elim (Bool-cases (is_some s.cache_fin || s.queue_fin)) [
      | inl closed ↦ rw (here, closed) (λ k. refl)
      | inr is_open ↦
          rw (here, is_open) (queued-KeepsAcks s (Tx.append_queue s payload) now here refl)
    ]
  ]

  pub close-KeepsAcks : (now : Instant) → KeepsAcks f (Streams.close f dst src now)
  unfolding Streams.close Tx.append_queue_fin
  close-KeepsAcks now = elim (Option-cases (f.states (src, dst))) [
    | inl missing ↦ rw missing tt
    | inr (s, here) ↦ rw here (queued-KeepsAcks s (Tx.append_queue_fin s) now here refl)
  ]

pub send_udp-KeepsAcks :
    (f : Forwarder) (dst src : SocketAddr) (payload buffer : List ℕ)
    → KeepsAcks f (Streams.send_udp f dst src payload buffer)
unfolding Streams.send_udp
send_udp-KeepsAcks f dst src payload buffer =
    let call = Fragments.send_udp f.local_mtu (f.src_mtu src.ip) payload buffer (sent f) in
    All-bind (λ a. Unit {0}) (λ (f', result). SameAcks f f') call _ (All-any call)
      (λ (packets, result) _ k.
        ap (λ m. ack_of (m k)) (states-send_packets f dst src (Streams.udp_packets packets)))
