-- ===== src/Redirector/Udp/Tests.antt =====
-- Examples for the UDP part, with two local ports at most, both in use.
use pcap2socks.Base.{
  ◌≡◌, refl, false, none, some, Option, [], ◌∷◌, done, Result, ok, err, other, empty_map, insert,
  nat_key, arith,
}
use pcap2socks.Net.{SocketAddr, same_addr, addr_key}
use pcap2socks.Socks.Datagram
use pcap2socks.Socks.Datagram.{DatagramWorker}
use pcap2socks.Socks.Datagram.Laws.{AllTo, serve}
use pcap2socks.Redirector.Udp.{UdpState, Sent, bind_local_udp_port, handle_udp}
use pcap2socks.Redirector.Udp.Laws.{
  IsValid, HasResult, IsHandled, Agree, Agree-insert, Served-insert, handle_udp_run,
}
use pcap2socks.Redirector.Udp.Reuse.{reuse_keeps_src}
use pcap2socks.Redirector.Udp.Listed.{listed, peek, last_key, taken, pop_last, without}

abbrev first : SocketAddr
first = record { ip = 168430081; port = 40000 }

abbrev second : SocketAddr
second = record { ip = 168430081; port = 40001 }

abbrev third : SocketAddr
third = record { ip = 168430082; port = 40000 }

abbrev resolver : SocketAddr
resolver = record { ip = 134744072; port = 53 }

abbrev in_use : UdpState listed
in_use = record {
  datagrams =
      insert 5001 (Datagram.bind second 5001) (insert 5000 (Datagram.bind first 5000) empty_map);
  datagram_map = insert second 5001 (insert first 5000 empty_map);
  udp_lru = (2, (5001, second) ∷ (5000, first) ∷ []);
}

no_ports : Agree empty_map empty_map
no_ports a p = ground arith

in_use-IsValid : IsValid in_use
unfolding peek same_addr
in_use-IsValid = record {
  agree = Agree-insert (Agree-insert no_ports first 5000 refl refl) second 5001 refl refl;
  served =
      Served-insert (Served-insert (λ a p h. absurd (cc)) first 5000 (Datagram.bind first 5000))
        second 5001 (Datagram.bind second 5001);
  bounded = omega arith;
}

handle_udp_run_example :
    (s' : UdpState listed) × (call : Option Sent) × (result : Result (Unit {0})) × (handle_udp
        in_use second resolver
        (1 ∷ 2 ∷ [])
        (err other)
        (ok 2)
      ≡ done (s', call, result))
    × IsValid s'
    × HasResult (ok 2) call result
    × IsHandled in_use second resolver (1 ∷ 2 ∷ []) s' call
handle_udp_run_example =
    handle_udp_run {s = in_use} second resolver (1 ∷ 2 ∷ []) (err other) (ok 2) in_use-IsValid tt

-- The third source takes over the port 5000, whose worker forwards an answer to the first one.
reuse_keeps_src_example :
    (s' : UdpState listed) × (bind_local_udp_port in_use third (err other) ≡ done (s', ok 5000))
    × (s'.datagram_map third ≡ some 5000)
    × (s'.datagram_map first ≡ none)
    × (s'.datagrams 5000 ≡ some (Datagram.bind first 5000))
    × (Datagram.receive (Datagram.bind first 5000) false (ok (resolver, 9 ∷ [])) ≡ (
      Datagram.bind first 5000,
      some (record { from = resolver; to = first; payload = 9 ∷ [] }),
    ))
    × AllTo first (
        serve (Datagram.bind first 5000) ((false, ok (resolver, 9 ∷ [])) ∷ (false, err other) ∷ []))
unfolding same_addr peek last_key taken pop_last without Datagram.bind Datagram.src
    Datagram.socket_addr_v4_to_u64 Datagram.u64_to_socket_addr_v4
reuse_keeps_src_example =
    reuse_keeps_src {s = in_use} third first first 5000 (2, (5001, second) ∷ []) (err other)
      (Datagram.bind first 5000) resolver (9 ∷ [])
      ((false, ok (resolver, 9 ∷ [])) ∷ (false, err other) ∷ []) in_use-IsValid refl refl refl refl
      (omega arith) refl
