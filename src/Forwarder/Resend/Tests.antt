-- ===== src/Forwarder/Resend/Tests.antt =====
-- Examples for the retransmission: three bytes in flight round the end of a buffer, and the FIN.
use pcap2socks.Base.{◌≡◌, none, some, true, false, List, [], ◌∷◌, done, ok, arith}
use pcap2socks.Cache.Queue.Valid
use pcap2socks.Tcp.Tx.{TcpTxState}
use pcap2socks.Forwarder.Segments.{Segment, mtu_of}
use pcap2socks.Forwarder.Segments.Laws.{AreSegments}
use pcap2socks.Forwarder.Resend.{retransmit_tcp_ack, retransmit_tcp_ack_run}

abbrev in_flight : TcpTxState
in_flight = record {
  src = record { ip = 168430081; port = 40000 };
  dst = record { ip = 16843009; port = 443 };
  send_window = 65535;
  send_wscale = none;
  sack_perm = true;
  sequence = 104;
  acknowledgement = 50;
  window = 65535;
  sacks = none;
  cache = record {
    buffer = 2 ∷ 3 ∷ 0 ∷ 1 ∷ [];
    capacity = 65535;
    sequence = 100;
    head = 3;
    size = 3;
    clocks = [];
    retrans = none;
  };
  cache_syn = none;
  cache_fin = some (record { instant = 0; timeout = 1000000000 });
  cache_fin_retrans = false;
  queue = [];
  queue_fin = false;
  rto = 1000;
  srtt = none;
  rttvar = none;
}

cache-IsValid : Valid.IsValid in_flight.cache
cache-IsValid = omega arith

retransmit_tcp_ack_run_example :
    (s' : TcpTxState) × (segs : List Segment) × (retransmit_tcp_ack 1500
        (some 42)
        in_flight
        (λ i. ok tt)
      ≡ done (s', segs, ok tt))
    × AreSegments 2 100 true 0 (1 ∷ 2 ∷ 3 ∷ []) segs
unfolding mtu_of
retransmit_tcp_ack_run_example =
    retransmit_tcp_ack_run 1500 (some 42) in_flight cache-IsValid (omega arith)
