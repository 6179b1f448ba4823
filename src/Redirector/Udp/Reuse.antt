-- ===== src/Redirector/Udp/Reuse.antt =====
-- A local port that goes over from one source to another.
use pcap2socks.Base.{ℕ, List, ◌==◌, ◌≤◌, ◌<◌, ◌≡◌, refl, false, none, some, done, Result, ok, arith}
use pcap2socks.Net.{SocketAddr, addr_key, same_addr_iff}
use pcap2socks.Socks.Datagram
use pcap2socks.Socks.Datagram.{DatagramWorker}
use pcap2socks.Socks.Datagram.Laws.{Event, AllTo, serve, serve-AllTo}
use pcap2socks.Redirector.Udp.{
  UdpState, hand_over, reuse, reuse_or, or_reuse, bind_new, bind_local_udp_port,
}
use pcap2socks.Redirector.Udp.Lru.{LruCache}
use pcap2socks.Redirector.Udp.Laws.{IsValid, bind_worker-full, hand_over-IsValid}

module _ {L : LruCache} where
  bind_new_full :
      (s : UdpState L) (src prev : SocketAddr) (p : ℕ) (rest : L.Lru) (bound : Result ℕ)
      → L.cap s.udp_lru ≤ L.len s.udp_lru
      → L.len rest < L.len s.udp_lru
      → L.pop_lru s.udp_lru ≡ some ((p, prev), rest)
      → bind_new s src bound ≡ done (hand_over s src p prev rest, ok p)
  unfolding bind_new or_reuse reuse_or reuse
  bind_new_full s src prev p rest bound full used e =
      let z : (L.len s.udp_lru == 0) ≡ false = ground arith in
      rw (bind_worker-full s src bound (ground arith), z, e) refl

  -- With every port in use, a new source takes over the port of the least recently used source, which
  -- has no port any more. The worker behind it stays as it is: whatever source it has, be it that of
  -- the port before or an earlier one, what comes back is forwarded to that source alone, the
  -- answers to the new one included.
  pub reuse_keeps_src :
      {s : UdpState L} (src prev owner : SocketAddr) (p : ℕ) (rest : L.Lru) (bound : Result ℕ)
      (w : DatagramWorker) (addr : SocketAddr) (payload : List ℕ) (events : List Event)
      → IsValid s
      → s.datagrams p ≡ some w
      → Datagram.src w ≡ owner
      → w.is_closed ≡ false
      → s.datagram_map src ≡ none
      → L.cap s.udp_lru ≤ L.len s.udp_lru
      → L.pop_lru s.udp_lru ≡ some ((p, prev), rest)
      → (s' : UdpState L) × (bind_local_udp_port s src bound ≡ done (s', ok p))
        × (s'.datagram_map src ≡ some p)
        × (s'.datagram_map prev ≡ none)
        × (s'.datagrams p ≡ some w)
        × (Datagram.receive w false (ok (addr, payload))
            ≡ (w, some (record { from = addr; to = owner; payload = payload })))
        × AllTo owner (serve w events)
  unfolding bind_local_udp_port hand_over Datagram.receive
  reuse_keeps_src {s} src prev owner p rest bound w addr payload events v there owned running
        unknown full e =
      let (v', b) = hand_over-IsValid src prev p rest v unknown e in
      let (found, others, shorter, same_cap) = L.pop_lru-some s.udp_lru p prev rest e in
      let known = (v.agree prev p).1 found in
      (
        hand_over s src p prev rest,
        rw (bind_local_udp_port, unknown)
            (bind_new_full s src prev p rest bound (omega arith) shorter e),
        b.mapped,
        ground (arith, same_addr_iff src prev, same_addr_iff prev prev),
        there,
        rw (running, owned) refl,
        serve-AllTo owner w events owned,
      )
