-- ===== src/Socks/Client/Tests.antt =====
-- Examples for the SOCKS5 client: two bytes to a name server, and a server on a public address.
use pcap2socks.Base.{
  ℕ, ◌≡◌, ◌⊎◌, true, false, none, List, [], ◌∷◌, length, splice, replicate, done, panic, ok,
  u16_max, arith, length-replicate,
}
use pcap2socks.Net.{SocketAddr}
use pcap2socks.Socks.Client.{
  SocksOption, SocksRecvHalf, Bound, datagram, recv_from, bind, granted, ip_v4, is_private,
}
use pcap2socks.Socks.Client.Laws.{peer, recv_from-datagram, recv_from_short, bind_run}

abbrev server : SocketAddr
server = record { ip = 134744072; port = 1080 }

abbrev named : SocketAddr
named = record { ip = 167772161; port = 4000 }

abbrev plain : SocksOption
plain = record { force_associate_remote = false; force_associate_bind_addr = false; auth = none }

abbrev half : SocksRecvHalf
half = record { buffer = replicate 65535 0 }

abbrev payload : List ℕ
payload = 7 ∷ 8 ∷ []

abbrev room : List ℕ
room = 0 ∷ 0 ∷ 0 ∷ []

recv_from-datagram_example :
    (bytes : List ℕ) × (r' : SocksRecvHalf) × (datagram payload server ≡ done bytes)
    × (recv_from half room (ok bytes)
        ≡ done (r', splice room 0 payload, ok (length payload, server)))
    × (length r'.buffer ≡ u16_max)
recv_from-datagram_example =
    recv_from-datagram half room payload server (length-replicate {A = ℕ} 65535 0) (omega arith)
      (omega arith) (omega arith) (omega arith)

recv_from_short_example : recv_from half [] (ok (0 ∷ 0 ∷ 0 ∷ 1 ∷ [])) ≡ panic
recv_from_short_example = recv_from_short half [] (0 ∷ 0 ∷ 0 ∷ 1 ∷ []) (omega arith)

bind_run_example :
    (b : Bound) × (bind server plain (record {
      stream = ok tt;
      local_port = ok 5000;
      proxy_addr = granted (ip_v4 named);
      connected = λ a. ok tt;
    })
      ≡ done (ok b))
    × (b.local_port ≡ 5000)
    × ((peer b named).port ≡ named.port)
    × (((peer b named).ip ≡ named.ip) ⊎ ((peer b named).ip ≡ server.ip))
    × (is_private (peer b named).ip ≡ true
        → (is_private server.ip ≡ true) ⊎ (plain.force_associate_bind_addr ≡ true))
bind_run_example = bind_run server named plain 5000
