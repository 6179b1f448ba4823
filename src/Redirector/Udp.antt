-- ===== src/Redirector/Udp.antt =====
-- The UDP part of `Redirector` of src/lib.rs: local ports for sources, reused in the order of an
-- LRU cache. What `DatagramWorker::bind` and `send_to` give are arguments; `trace!` is left out.
pub mod Lru
pub mod Laws
mod Reuse
pub mod Listed
mod Tests
use pcap2socks.Base.{
  ℕ, ltb, ◌==◌, if◌then◌else◌, Option, none, some, List, Run, done, panic, ◌>>=◌, unwrap, Result,
  ok, err, ErrorKind, other, Map, empty_map, insert, remove, nat_key,
}
use pcap2socks.Net.{SocketAddr, addr_key}
use pcap2socks.Socks.Datagram
use pcap2socks.Socks.Datagram.{DatagramWorker}
use Lru.{LruCache}

-- `MAX_UDP_PORT`
abbrev pub max_udp_port : ℕ
max_udp_port = 256

pub record UdpState (L : LruCache) : Type 0 where
  pub datagrams : Map ℕ DatagramWorker
  pub datagram_map : Map SocketAddr ℕ
  pub udp_lru : L.Lru

-- What `send_to` is called with.
pub record Sent : Type 0 where
  pub worker : DatagramWorker
  pub payload : List ℕ
  pub dst : SocketAddr

module _ {L : LruCache} where
  unfoldable pub new : UdpState L
  new = record { datagrams = empty_map; datagram_map = empty_map; udp_lru = L.new max_udp_port }

  -- The state with a new worker.
  unfoldable pub with_worker : UdpState L → SocketAddr → ℕ → UdpState L
  with_worker s src port = record {
    datagrams = insert port (Datagram.bind src port) s.datagrams;
    datagram_map = insert src port s.datagram_map;
    udp_lru = L.put port src s.udp_lru;
  }

  -- A worker is bound if the LRU has room for its port.
  unfoldable pub bind_worker : UdpState L → SocketAddr → Result ℕ → UdpState L × Result ℕ
  bind_worker s src (ok port) =
      if ltb (L.len s.udp_lru) (L.cap s.udp_lru)
      then (with_worker s src port, ok port)
      else (s, err other)
  bind_worker s src (err e) =
      if ltb (L.len s.udp_lru) (L.cap s.udp_lru) then (s, err e) else (s, err other)

  -- A port goes over from one source to another. Its worker is left as it is.
  unfoldable pub hand_over : UdpState L → SocketAddr → ℕ → SocketAddr → L.Lru → UdpState L
  hand_over s src port prev_src rest = record s {
    datagram_map = insert src port (remove prev_src s.datagram_map);
    udp_lru = L.put port src rest;
  }

  unfoldable pub reuse : UdpState L → SocketAddr → Run (UdpState L × ℕ)
  reuse s src = do
    ((port, prev_src), rest) ← unwrap (L.pop_lru s.udp_lru)
    done (hand_over s src port prev_src rest, port)

  -- Without a new worker, a port is reused if there is one.
  unfoldable pub reuse_or : ErrorKind → UdpState L → SocketAddr → Run (UdpState L × Result ℕ)
  reuse_or e s src =
      if L.len s.udp_lru == 0
      then done (s, err e)
      else (do (s', port) ← reuse s src; done (s', ok port))

  unfoldable pub or_reuse : SocketAddr → UdpState L × Result ℕ → Run (UdpState L × Result ℕ)
  or_reuse src (s, ok port) = done (s, ok port)
  or_reuse src (s, err e) = reuse_or e s src

  unfoldable pub bind_new : UdpState L → SocketAddr → Result ℕ → Run (UdpState L × Result ℕ)
  bind_new s src bound = or_reuse src (bind_worker s src bound)

  unfoldable pub bind_local_udp_port :
      UdpState L → SocketAddr → Result ℕ → Run (UdpState L × Result ℕ)
  bind_local_udp_port s src bound = elim (s.datagram_map src) [
    | some port ↦ done (record s { udp_lru = L.get port s.udp_lru }, ok port)
    | none ↦ bind_new s src bound
  ]

  unfoldable pub unbind_local_udp_port : UdpState L → SocketAddr → UdpState L
  unbind_local_udp_port s src = elim (s.datagram_map src) [
    | some port ↦ record {
      datagrams = remove port s.datagrams;
      datagram_map = remove src s.datagram_map;
      udp_lru = L.pop port s.udp_lru;
    }
    | none ↦ s
  ]

  -- The state, what is sent if a port was bound, and the result, which is that of `send_to` then.
  unfoldable pub handle_udp :
      UdpState L
      → SocketAddr
      → SocketAddr
      → List ℕ
      → Result ℕ
      → Result ℕ
      → Run (UdpState L × Option Sent × Result (Unit {0}))
  handle_udp s src dst payload bound sent = do
    (s', port) ← bind_local_udp_port s src bound
    elim port [
      | err e ↦ done (s', none, err e)
      | ok p ↦ (do
        worker ← unwrap (s'.datagrams p)
        let call : Sent = record { worker = worker; payload = payload; dst = dst }
        elim sent [ ok n ↦ done (s', some call, ok tt) | err e ↦ done (s', some call, err e) ])
    ]
