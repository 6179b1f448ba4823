-- ===== src/Forwarder/Timeout/Tests.antt =====
-- Examples for ticks: three bytes in flight, half a second and two seconds after they were sent.
use pcap2socks.Base.{◌≡◌, refl, ◌*◌, ◌-◌, min, none, true, false, List, [], ◌∷◌, done, ok, arith}
use pcap2socks.Timer
use pcap2socks.Cache.Queue
use pcap2socks.Cache.Queue.Valid
use pcap2socks.Tcp.Tx.{TcpTxState, max_rto}
use pcap2socks.Forwarder.Segments.{Segment, mtu_of}
use pcap2socks.Forwarder.Segments.Laws.{AreSegments}
use pcap2socks.Forwarder.Packet.{data_segments}
use pcap2socks.Forwarder.Timeout.{retransmit_tcp_ack_timedout}
use pcap2socks.Forwarder.Timeout.Laws.{tick_before_timeout, tick_after_timeout}

abbrev in_flight : TcpTxState
in_flight = record {
  src = record { ip = 168430081; port = 40000 };
  dst = record { ip = 16843009; port = 443 };
  send_window = 2;
  send_wscale = none;
  sack_perm = true;
  sequence = 103;
  acknowledgement = 50;
  window = 65535;
  sacks = none;
  cache = record {
    buffer = 1 ∷ 2 ∷ 3 ∷ [];
    capacity = 65535;
    sequence = 100;
    head = 0;
    size = 3;
    clocks = (100, Timer.new 0 1000) ∷ [];
    retrans = none;
  };
  cache_syn = none;
  cache_fin = none;
  cache_fin_retrans = true;
  queue = [];
  queue_fin = false;
  rto = 1000;
  srtt = none;
  rttvar = none;
}

in_flight-IsValid : Valid.IsValid in_flight.cache
in_flight-IsValid = omega arith

tick_before_timeout_example :
    (s' : TcpTxState) × (retransmit_tcp_ack_timedout 1500 none in_flight 500000000 (λ i. ok tt)
      ≡ done (s', [], ok tt))
    × (s'.rto ≡ min max_rto (2 * 1000))
unfolding mtu_of Queue.first_running Timer.is_timedout Timer.new
tick_before_timeout_example =
    tick_before_timeout 1500 none in_flight 500000000 (λ i. ok tt) in_flight-IsValid (omega arith)
      refl (omega arith) (omega arith) (omega arith)

tick_after_timeout_example :
    (s' : TcpTxState) × (segs : List Segment) × (retransmit_tcp_ack_timedout 1500 none in_flight
        2000000000
        (λ i. ok tt)
      ≡ done (s', data_segments segs, ok tt))
    × AreSegments (mtu_of 1500 none - 40) 100 false 0 (Queue.contents in_flight.cache) segs
    × (s'.rto ≡ min max_rto (2 * 1000))
unfolding mtu_of Queue.first_running Timer.is_timedout Timer.new
tick_after_timeout_example =
    tick_after_timeout 1500 none in_flight 2000000000 in_flight-IsValid (omega arith) refl
      (omega arith) (omega arith) (omega arith)
