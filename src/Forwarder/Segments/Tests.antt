-- ===== src/Forwarder/Segments/Tests.antt =====
-- Examples for the segments: an MSS of two bytes, and five bytes with a FIN.
use pcap2socks.Base.{
  ◌-◌, ◌≡◌, refl, ℕ, out_of_fuel, none, some, true, false, List, [], ◌∷◌, done, ok, arith,
}
use pcap2socks.Tcp.Tx.{TcpTxState}
use pcap2socks.Forwarder.Segments.Stall.{send_tcp_ack_raw_stalls}
use pcap2socks.Forwarder.Segments.Moved.{Moved}
use pcap2socks.Forwarder.Segments.{Segment, segment, mtu_of, send_segments, send_tcp_ack_raw}
use pcap2socks.Forwarder.Segments.Laws.{AreSegments, send_tcp_ack_raw_run}

abbrev connection : TcpTxState
connection = record {
  src = record { ip = 168430081; port = 40000 };
  dst = record { ip = 16843009; port = 443 };
  send_window = 65535;
  send_wscale = none;
  sack_perm = true;
  sequence = 4294967294;
  acknowledgement = 50;
  window = 65535;
  sacks = none;
  cache = record {
    buffer = [];
    capacity = 65535;
    sequence = 4294967294;
    head = 0;
    size = 0;
    clocks = [];
    retrans = none;
  };
  cache_syn = none;
  cache_fin = none;
  cache_fin_retrans = true;
  queue = [];
  queue_fin = false;
  rto = 1000;
  srtt = none;
  rttvar = none;
}

send_tcp_ack_raw_run_example :
    (s' : TcpTxState) × (segs : List Segment) × (send_tcp_ack_raw 1500
        (some 42)
        connection
        4294967294
        (1 ∷ 2 ∷ 3 ∷ 4 ∷ 5 ∷ [])
        true
        (λ i. ok tt)
      ≡ done (s', segs, ok tt))
    × AreSegments (mtu_of 1500 (some 42) - 40) 4294967294 true 0 (1 ∷ 2 ∷ 3 ∷ 4 ∷ 5 ∷ []) segs
    × Moved connection s'
unfolding mtu_of
send_tcp_ack_raw_run_example =
    send_tcp_ack_raw_run 1500 (some 42) connection 4294967294 (1 ∷ 2 ∷ 3 ∷ 4 ∷ 5 ∷ []) true
      (omega arith) (omega arith)

-- An MTU of 40, as an MSS of 0 sets it.
send_tcp_ack_raw_stalls_example :
    (send_segments 1000 1500 (mtu_of 1500 (some 40) - 40) connection 0 7 (1 ∷ []) false (λ j. ok tt)
      ≡ out_of_fuel)
    × (send_tcp_ack_raw 1500 (some 40) connection 7 (1 ∷ []) false (λ j. ok tt) ≡ out_of_fuel)
    × ((s' : TcpTxState) (i : ℕ)
        → (seg : Segment) × (recv_next : ℕ) × (segment 1500
              (mtu_of 1500 (some 40) - 40)
              s'
              i
              7
              (1 ∷ [])
              false
            ≡ done (seg, recv_next))
          × (seg.payload ≡ []))
unfolding mtu_of
send_tcp_ack_raw_stalls_example =
    send_tcp_ack_raw_stalls 1000 1500 (some 40) connection 7 (1 ∷ []) false (omega arith) refl
