-- ===== src/Tcp/Rx/Tests.antt =====
-- Examples for `TcpRxState`.
use pcap2socks.Base.{◌-◌, ◌≤◌, ◌≡◌, ◌↔◌, none, some, true, [], arith}
use pcap2socks.Tcp.Rx.{TcpRxState, increase_duplicate}
use pcap2socks.Tcp.Rx.Duplicates.{increase_duplicate_iff}

-- The last acknowledgement was 500, and a retransmission was made at 0.
abbrev receiving : TcpRxState
receiving = record {
  src = record { ip = 168430081; port = 40000 };
  dst = record { ip = 16843009; port = 443 };
  recv_next = 100;
  last_acknowledgement = 500;
  duplicate = 2;
  last_retrans = some 0;
  wscale = 0;
  sack_perm = true;
  cache = record { buffer = []; capacity = 65535; sequence = 100; head = 0; size = 0; edges = [] };
  fin_sequence = none;
}

increase_duplicate_iff_example :
    ((increase_duplicate receiving 500 300000000).1 ≡ true)
    ↔ ((receiving.last_acknowledgement ≡ 500) × (2 ≤ 2) × (200000000 ≤ 300000000 - 0))
increase_duplicate_iff_example = increase_duplicate_iff receiving 500 300000000 (omega arith)
