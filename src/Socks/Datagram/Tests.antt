-- ===== src/Socks/Datagram/Tests.antt =====
-- Examples for `DatagramWorker`.
use pcap2socks.Base.{List, [], ◌∷◌, false, ok, err, timed_out, arith}
use pcap2socks.Net.{SocketAddr}
use pcap2socks.Socks.Datagram.{bind}
use pcap2socks.Socks.Datagram.Laws.{Event, AllTo, serve, bind-AllTo}

abbrev peer : SocketAddr
peer = record { ip = 4294967295; port = 65535 }

abbrev resolver : SocketAddr
resolver = record { ip = 134744072; port = 53 }

abbrev events : List Event
events =
    (false, ok (resolver, 1 ∷ [])) ∷ (false, err timed_out) ∷ (false, ok (resolver, 2 ∷ [])) ∷ []

bind-AllTo_example : AllTo peer (serve (bind peer 5000) events)
bind-AllTo_example = bind-AllTo peer 5000 events (omega arith) (omega arith)
