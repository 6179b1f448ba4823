-- ===== src/Forwarder/Send/Tests.antt =====
-- Examples for `send_tcp_ack`: three queued bytes and a queued FIN.
use pcap2socks.Base.{
  ◌≡◌, refl, none, true, false, [], ◌∷◌, List, Result, done, ok, err, other, arith,
}
use pcap2socks.Cache.Queue.Valid
use pcap2socks.Tcp.Tx.{TcpTxState}
use pcap2socks.Tcp.Tx.Valid as Tx
use pcap2socks.Forwarder.Segments.{mtu_of, get_tcp_window}
use pcap2socks.Forwarder.Packet.{Packet, pure_fin}
use pcap2socks.Forwarder.Send.{send_tcp_ack}
use pcap2socks.Forwarder.Send.Total.{Kept, send_tcp_ack_total}
use pcap2socks.Forwarder.Send.Laws.{fin_overtakes}

-- The source's window has room for two bytes.
abbrev waiting : TcpTxState
waiting = record {
  src = record { ip = 168430081; port = 40000 };
  dst = record { ip = 16843009; port = 443 };
  send_window = 2;
  send_wscale = none;
  sack_perm = true;
  sequence = 100;
  acknowledgement = 50;
  window = 65535;
  sacks = none;
  cache = record {
    buffer = [];
    capacity = 65535;
    sequence = 100;
    head = 0;
    size = 0;
    clocks = [];
    retrans = none;
  };
  cache_syn = none;
  cache_fin = none;
  cache_fin_retrans = true;
  queue = 1 ∷ 2 ∷ 3 ∷ [];
  queue_fin = true;
  rto = 1000;
  srtt = none;
  rttvar = none;
}

waiting-IsValid : Valid.IsValid waiting.cache
waiting-IsValid = omega arith

abbrev shut : TcpTxState
shut = record waiting { send_window = 0 }

fin_overtakes_example :
    (s' : TcpTxState) × (send_tcp_ack 1500 none shut 7 (λ i. ok tt)
      ≡ done (s', pure_fin 100 50 (get_tcp_window 1500 shut) ∷ [], ok tt))
    × (s'.queue ≡ 1 ∷ 2 ∷ 3 ∷ [])
    × (s'.queue_fin ≡ false)
fin_overtakes_example = fin_overtakes 1500 none shut 7 refl refl refl refl

waiting-Tx : Tx.IsValid waiting
waiting-Tx = omega arith

send_tcp_ack_total_example :
    (s' : TcpTxState) × (packets : List Packet) × (result : Result (Unit {0})) × (send_tcp_ack 1500
        none waiting 7
        (λ i. err other)
      ≡ done (s', packets, result))
    × Kept waiting s'
unfolding mtu_of
send_tcp_ack_total_example =
    send_tcp_ack_total 1500 none waiting 7 (λ i. err other) waiting-Tx (omega arith) (omega arith)
      (omega arith) (omega arith)
