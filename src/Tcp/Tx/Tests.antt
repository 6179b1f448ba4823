-- ===== src/Tcp/Tx/Tests.antt =====
-- Examples for `TcpTxState`.
use pcap2socks.Base.{ℕ, ◌+◌, ◌≡◌, none, some, true, false, [], ◌∷◌, done, ok, arith, ◌*◌, min, max}
use pcap2socks.Net.{SocketAddr}
use pcap2socks.Sequence.{seq_sub}
use pcap2socks.Cache.Queue
use pcap2socks.Cache.Queue.{Queue}
use pcap2socks.Cache.Queue.Valid
use pcap2socks.Tcp.Tx.{TcpTxState, new, update_rto, estimate, acknowledge, append_cache}
use pcap2socks.Tcp.Tx.Rto.{update_rto_run, update_rto_forgets_srtt}
use pcap2socks.Tcp.Tx.Valid.{IsValid, new-IsValid}
use pcap2socks.Tcp.Tx.Stream.{stream, append_cache-stream}
use pcap2socks.Tcp.Tx.Acknowledge.{after_fin, acknowledge_run}

abbrev client : SocketAddr
client = record { ip = 168430081; port = 40000 }

abbrev server : SocketAddr
server = record { ip = 16843009; port = 443 }

-- 1, 2, 3 are in flight, 4 and 5 are queued, and the FIN was sent behind the 3.
abbrev sending : TcpTxState
sending = record {
  src = client;
  dst = server;
  send_window = 65535;
  send_wscale = none;
  sack_perm = true;
  sequence = 103;
  acknowledgement = 50;
  window = 65535;
  sacks = none;
  cache = record {
    buffer = 2 ∷ 3 ∷ 0 ∷ 1 ∷ [];
    capacity = 4;
    sequence = 100;
    head = 3;
    size = 3;
    clocks = (100, record { instant = 0; timeout = 1000000000 }) ∷ [];
    retrans = none;
  };
  cache_syn = none;
  cache_fin = some (record { instant = 0; timeout = 1000000000 });
  cache_fin_retrans = false;
  queue = 4 ∷ 5 ∷ [];
  queue_fin = false;
  rto = 1000;
  srtt = some 80;
  rttvar = some 16;
}

sending-IsValid : IsValid sending
sending-IsValid = record {
  cache = omega arith;
  sequence_in = omega arith;
  acknowledgement_in = omega arith;
  rto_low = omega arith;
  rto_high = omega arith;
  timed = tt;
  sacks = tt;
}

acknowledge_run_example :
    (s' : TcpTxState) × (acknowledge sending 103 500000000 ≡ done s')
    × IsValid s'
    × (Queue.contents s'.cache ≡ [])
    × (s'.queue ≡ 4 ∷ 5 ∷ [])
    × (s'.acknowledgement ≡ 50)
    × (s'.sequence ≡ after_fin 103 sending.cache_fin s'.cache 103)
    × (s'.cache.capacity ≡ 4)
unfolding seq_sub
acknowledge_run_example = acknowledge_run {s = sending} 103 500000000 sending-IsValid (omega arith)

append_cache-stream_example :
    (s' : TcpTxState) × (append_cache sending 1 7 ≡ done (s', ok (4 ∷ [])))
    × Valid.IsValid s'.cache
    × (s'.cache.size ≡ 4)
    × (stream s' ≡ 1 ∷ 2 ∷ 3 ∷ 4 ∷ 5 ∷ [])
    × (s' ≡ record sending { queue = s'.queue; cache = s'.cache })
append_cache-stream_example =
    append_cache-stream sending 1 7 sending-IsValid.cache (omega arith) (omega arith)

-- An RTT of 100 milliseconds.
update_rto_run_example :
    (srtt : ℕ) × (rttvar : ℕ) × (rto : ℕ) × (estimate (some 80) (some 16) 100 ≡ done (srtt, rttvar))
    × (update_rto sending 100000000
        ≡ done (record sending { rto = rto; srtt = some srtt; rttvar = some rttvar }))
    × (rto ≡ min 60000 (max 1000 (srtt + max 1 (4 * rttvar))))
update_rto_run_example = update_rto_run sending 100000000 tt

update_rto_forgets_srtt_example :
    (s' : TcpTxState) × (s'' : TcpTxState) × (update_rto
        (record sending { srtt = some 10; rttvar = some 16 })
        100000000
      ≡ done s')
    × (update_rto (record sending { srtt = some 9000; rttvar = some 16 }) 100000000 ≡ done s'')
    × (s'.srtt ≡ s''.srtt)
update_rto_forgets_srtt_example = update_rto_forgets_srtt sending 10 9000 16 100000000

new-IsValid_example :
    (s : TcpTxState) × (new client server 7 8 1000 (some 7) true (some 8) ≡ done s)
    × IsValid s
    × (s.cache.capacity ≡ 16776960)
    × (s.send_window ≡ 128000)
    × (Queue.contents s.cache ≡ [])
new-IsValid_example =
    new-IsValid client server 7 8 1000 (some 7) true (some 8) (omega arith) (omega arith)
      (omega arith) (omega arith) (omega arith)
