-- ===== src/Redirector/Tcp/Reach.antt =====
-- The TCP and ARP part of `Redirector` as a machine: the packets that come, and what the tasks of
-- the streams ask of the forwarder.
use pcap2socks.Base.{
  ℕ, ◌≡◌, refl, ◌&&◌, ◌==◌, Bool, if_both, ok, Option, none, some, List, Run, done, Result,
  pair_key, insert, All,
}
use pcap2socks.Net.{Ipv4Addr, HardwareAddr, SocketAddr, addr_key}
use pcap2socks.Timer.{Instant}
use pcap2socks.Socks.Stream.{StreamWorker, Reader, Request, receive}
use pcap2socks.Forwarder.State
use pcap2socks.Forwarder.State.{Forwarder, Connection}
use pcap2socks.Forwarder.Streams
use pcap2socks.Forwarder.Streams.Table.{
  SameAcks, forward-KeepsAcks, tick-KeepsAcks, close-KeepsAcks, send_udp-KeepsAcks,
}
use pcap2socks.Redirector.Tcp.{
  Redirector, Tcp, Arp, key, new, join, answer_arp, handle_arp, serve_arp, is_from_source,
  handle_tcp_rst,
}
use pcap2socks.Redirector.Tcp.Handle.{Surroundings, handle_tcp}
use pcap2socks.Redirector.Tcp.Linked.{
  IsLinked, Alike, Alike-IsLinked, clean_up-IsLinked, put_stream-IsLinked,
}
use pcap2socks.Redirector.Tcp.Laws.{LinkedAfter, handle_tcp_fin-IsLinked}
use pcap2socks.Redirector.Tcp.Laws.Ack.{handle_tcp_ack-IsLinked}
use pcap2socks.Redirector.Tcp.Laws.Syn.{handle_tcp_syn-IsLinked}

-- What the tasks of the streams do to the redirector: what one forwards, its ticks and its end,
-- datagrams that come back, and what a round of reading leaves of the flags of its stream, with an
-- error of the proxy that closes both ways.
pub data TaskStep (r : Redirector) : Redirector → Type 0 where
  forwarded :
      {tx : Forwarder} (dst src : SocketAddr) (payload : List ℕ) (now : Instant)
      (result : Result (Unit {0}))
      → Streams.forward r.tx dst src payload now ≡ done (tx, result)
      → TaskStep r (record r { tx = tx })
  ticked :
      {tx : Forwarder} (dst src : SocketAddr) (now : Instant) (result : Result (Unit {0}))
      → Streams.tick r.tx dst src now ≡ done (tx, result)
      → TaskStep r (record r { tx = tx })
  closed :
      {tx : Forwarder} (dst src : SocketAddr) (now : Instant) (result : Result (Unit {0}))
      → Streams.close r.tx dst src now ≡ done (tx, result)
      → TaskStep r (record r { tx = tx })
  replied :
      {tx : Forwarder} (dst src : SocketAddr) (payload buffer : List ℕ) (result : Result (Unit {0}))
      → Streams.send_udp r.tx dst src payload buffer ≡ done (tx, result)
      → TaskStep r (record r { tx = tx })
  round_ran :
      {w' : StreamWorker} {reader' : Reader} {request : Option Request} (tcp : Tcp)
      (w : StreamWorker) (reader : Reader) (is_closed : Bool) (result : Result (List ℕ))
      → r.streams (key tcp) ≡ some w
      → receive w reader is_closed result ≡ (w', reader', request)
      → TaskStep r (record r { streams = insert (key tcp) w' r.streams })

-- From the start, by packets that are handled without a panic, and by the tasks.
pub data Reachable : Redirector → Type 0 where
  start :
      (outcome : ℕ → Result (Unit {0})) (mtu : ℕ) (local_hardware_addr : HardwareAddr)
      (local_ip_addr : Ipv4Addr) (contains : Ipv4Addr → Bool) (gw_ip_addr : Option Ipv4Addr)
      → Reachable (
          new
            (State.new outcome mtu local_hardware_addr local_ip_addr)
            contains
            local_ip_addr
            gw_ip_addr)
  tcp_packet :
      {r r' : Redirector} (tcp : Tcp) (payload : List ℕ) (e : Surroundings)
      (result : Result (Unit {0}))
      → Reachable r
      → handle_tcp r tcp payload e ≡ done (r', result)
      → Reachable r'
  arp_packet : {r : Redirector} (arp : Arp) → Reachable r → Reachable (handle_arp r arp).0
  task : {r r' : Redirector} → Reachable r → TaskStep r r' → Reachable r'

-- What holds of every result holds of the one there is.
pub All_of {ℓ} : {A : Type ℓ} (P : A → Type 0) (m : Run A) (a : A) → All P m → m ≡ done a → P a
All_of P m a h e = rw e at h

pub new-IsLinked :
    (tx : Forwarder) (contains : Ipv4Addr → Bool) (local_ip_addr : Ipv4Addr)
    (gw_ip_addr : Option Ipv4Addr)
    → IsLinked (new tx contains local_ip_addr gw_ip_addr)
unfolding new
new-IsLinked tx contains local_ip_addr gw_ip_addr k = tt

pub tx-IsLinked :
    (r : Redirector) (tx : Forwarder)
    → SameAcks r.tx tx
    → IsLinked r
    → IsLinked (record r { tx = tx })
tx-IsLinked r tx acks linked =
    Alike-IsLinked r (record r { tx = tx })
      (record { streams = λ k. refl; states = λ k. refl; acks = acks }) linked

pub join-Alike :
    (r : Redirector) (src : Ipv4Addr) (hardware_addr : HardwareAddr)
    → Alike r (join r src hardware_addr)
unfolding join State.set_src_hardware_addr
join-Alike r src hardware_addr =
    let same : Alike r r = record { streams = λ k. refl; states = λ k. refl; acks = λ k. refl } in
    if_both (Alike r) r.is_tx_src_hardware_addr_set _ _ same
      (record { streams = λ k. refl; states = λ k. refl; acks = λ k. refl })

answer_arp-IsLinked : (r : Redirector) (arp : Arp) → IsLinked r → IsLinked (answer_arp r arp).0
unfolding answer_arp State.send_arp_reply State.send
answer_arp-IsLinked r arp linked =
    let joined = join-Alike r arp.src arp.src_hardware_addr in
    Alike-IsLinked r (answer_arp r arp).0
      (record { streams = joined.streams; states = joined.states; acks = joined.acks }) linked

serve_arp-IsLinked :
    (r : Redirector) (arp : Arp) (gw : Option Ipv4Addr)
    → IsLinked r
    → IsLinked (serve_arp r arp gw).0
unfolding serve_arp
serve_arp-IsLinked r arp none linked = linked
serve_arp-IsLinked r arp (some gw) linked =
    if_both (λ x. IsLinked x.0) (is_from_source r arp.src && (arp.dst == gw)) (answer_arp r arp)
      (r, ok tt) (answer_arp-IsLinked r arp linked) linked

pub handle_tcp-IsLinked :
    (r : Redirector) (tcp : Tcp) (payload : List ℕ) (e : Surroundings)
    → IsLinked r
    → LinkedAfter (handle_tcp r tcp payload e)
unfolding handle_tcp handle_tcp_rst
handle_tcp-IsLinked r tcp payload e linked =
    if_both LinkedAfter tcp.is_rst _ _ (clean_up-IsLinked r tcp linked) (
      if_both LinkedAfter tcp.is_ack _ _
        (handle_tcp_ack-IsLinked r tcp payload e.written e.now linked)
        (if_both LinkedAfter tcp.is_syn _ _
          (handle_tcp_syn-IsLinked r tcp e.sequence e.proxy e.now linked)
          (if_both LinkedAfter tcp.is_fin _ _ (handle_tcp_fin-IsLinked r tcp payload linked) tt)))

pub handle_arp-IsLinked : (r : Redirector) (arp : Arp) → IsLinked r → IsLinked (handle_arp r arp).0
unfolding handle_arp
handle_arp-IsLinked r arp linked = serve_arp-IsLinked r arp r.gw_ip_addr linked

pub TaskStep-IsLinked : {r r' : Redirector} → TaskStep r r' → IsLinked r → IsLinked r'
TaskStep-IsLinked {r} (forwarded {tx} dst src payload now result returned) linked =
    tx-IsLinked r tx
      (All_of (λ (f', result). SameAcks r.tx f') _ (tx, result)
        (forward-KeepsAcks r.tx dst src payload now) returned)
      linked
TaskStep-IsLinked {r} (ticked {tx} dst src now result returned) linked =
    tx-IsLinked r tx
      (All_of (λ (f', result). SameAcks r.tx f') _ (tx, result) (tick-KeepsAcks r.tx dst src now)
        returned)
      linked
TaskStep-IsLinked {r} (closed {tx} dst src now result returned) linked =
    tx-IsLinked r tx
      (All_of (λ (f', result). SameAcks r.tx f') _ (tx, result) (close-KeepsAcks r.tx dst src now)
        returned)
      linked
TaskStep-IsLinked {r} (replied {tx} dst src payload buffer result returned) linked =
    tx-IsLinked r tx
      (All_of (λ (f', result). SameAcks r.tx f') _ (tx, result)
        (send_udp-KeepsAcks r.tx dst src payload buffer) returned)
      linked
TaskStep-IsLinked {r} (round_ran {w'} tcp w reader is_closed result here round) linked =
    put_stream-IsLinked r tcp linked w w' here

-- Whatever was handled so far, a stream stands with a state for each direction, and what is
-- acknowledged to its source is what was received from it; without a stream, there is no state
-- from the source.
pub Reachable-IsLinked : {r : Redirector} → Reachable r → IsLinked r
Reachable-IsLinked (start outcome mtu hardware_addr ip_addr contains gw_ip_addr) =
    new-IsLinked (State.new outcome mtu hardware_addr ip_addr) contains ip_addr gw_ip_addr
Reachable-IsLinked (tcp_packet {r} {r'} tcp payload e result before returned) =
    All_of (λ (r', result). IsLinked r') (handle_tcp r tcp payload e) (r', result)
      (handle_tcp-IsLinked r tcp payload e (Reachable-IsLinked before)) returned
Reachable-IsLinked (arp_packet {r} arp before) =
    handle_arp-IsLinked r arp (Reachable-IsLinked before)
Reachable-IsLinked (task before step) = TaskStep-IsLinked step (Reachable-IsLinked before)
