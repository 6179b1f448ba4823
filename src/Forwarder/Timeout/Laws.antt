-- ===== src/Forwarder/Timeout/Laws.antt =====
-- What a tick sends again, and what it leaves of the timeout.
use pcap2socks.Base.{
  ℕ, ◌-◌, ◌*◌, ◌≤◌, ◌<◌, ◌≡◌, refl, ◌∙◌, ◌==◌, min, max, Bool, true, false, Bool-cases, inl, inr,
  Option, none, some, List, [], ◌∷◌, length, done, Result, ok, arith, u32_max, le→ltb, lt→ltb,
}
use pcap2socks.Timer
use pcap2socks.Timer.{Timer}
use pcap2socks.Cache.Queue
use pcap2socks.Cache.Queue.{Queue}
use pcap2socks.Cache.Queue.Valid
use pcap2socks.Cache.Queue.Timed.{all_timed_out, some_running}
use pcap2socks.Cache.Queue.Read.{seq_sub_self}
use pcap2socks.Cache.Ring.Contents.{length-contents_of}
use pcap2socks.Tcp.Tx.{
  TcpTxState, is_some, min_rto, max_rto, saturating_mul, double_rto, update_fin_timer,
}
use pcap2socks.Tcp.Tx.Rto.{double_rto_lem}
use pcap2socks.Forwarder.Segments.{Segment, mtu_of, send_tcp_ack_raw, send_segments}
use pcap2socks.Forwarder.Segments.Laws.{AreSegments, send_tcp_ack_raw_run}
use pcap2socks.Forwarder.Packet.{data_segments}
use pcap2socks.Forwarder.Timeout.{resend_data, retransmit_tcp_ack_timedout}

send_nothing :
    (local_mtu : ℕ) (src_mtu : Option ℕ) (s : TcpTxState) (sequence : ℕ) (is_fin : Bool)
    (sent : ℕ → Result (Unit {0}))
    → 40 ≤ mtu_of local_mtu src_mtu
    → send_tcp_ack_raw local_mtu src_mtu s sequence [] is_fin sent ≡ done (s, [], ok tt)
unfolding send_tcp_ack_raw send_segments
send_nothing local_mtu src_mtu s sequence is_fin sent h =
    let e = le→ltb (mtu_of local_mtu src_mtu) 40 h in rw e (ground arith)

resend_nothing :
    (local_mtu : ℕ) (src_mtu : Option ℕ) (s : TcpTxState) (now : ℕ) (sent : ℕ → Result (Unit {0}))
    → 0 < s.cache.size
    → 40 ≤ mtu_of local_mtu src_mtu
    → resend_data local_mtu src_mtu s [] now sent ≡ done (s, [], ok tt)
unfolding resend_data
resend_nothing local_mtu src_mtu s now sent p m =
    let partial : (s.cache.size == 0) ≡ false = ground arith in
    rw partial (send_nothing local_mtu src_mtu s s.cache.sequence false sent m)

-- With a valid cache, a timeout within its bounds and an MTU of 40 at least, the size of the headers,
-- and with data in flight of which the first clock that runs is that of the first byte, a tick sends
-- nothing and does not panic, and yet it doubles the timeout up to the maximum.
pub tick_before_timeout :
    (local_mtu : ℕ) (src_mtu : Option ℕ) (s : TcpTxState) (now : ℕ) (sent : ℕ → Result (Unit {0}))
    → Valid.IsValid s.cache
    → 0 < s.cache.size
    → Queue.first_running now s.cache.clocks ≡ some s.cache.sequence
    → 40 ≤ mtu_of local_mtu src_mtu
    → min_rto ≤ s.rto
    → s.rto ≤ max_rto
    → (s' : TcpTxState) × (retransmit_tcp_ack_timedout local_mtu src_mtu s now sent
        ≡ done (s', [], ok tt))
      × (s'.rto ≡ min max_rto (2 * s.rto))
unfolding retransmit_tcp_ack_timedout double_rto
tick_before_timeout local_mtu src_mtu s now sent v p e m h k =
    let rto = max max_rto (min min_rto (saturating_mul s.rto 2)) in
    let same = seq_sub_self s.cache.sequence in
    let got = some_running rto now s.cache.sequence v e (omega (arith, same)) in
    let some_left = lt→ltb 0 s.cache.size p in
    let clocks =
      Queue.restart_clocks s.cache.sequence s.cache.sequence (Timer.new now rto) s.cache.clocks in
    let cache : Queue = record s.cache { clocks = clocks; retrans = some s.cache.sequence } in
    let updated : TcpTxState = record s { cache = cache } in
    let none_sent = resend_nothing local_mtu src_mtu (double_rto updated) now sent p m in
    (double_rto updated, rw (got, some_left, same, none_sent) refl, double_rto_lem updated h k)

rto_of_update : (s : TcpTxState) (now : ℕ) → (update_fin_timer s now).rto ≡ s.rto
unfolding update_fin_timer
rto_of_update s now = refl

-- All that is in flight is sent again, and the timeout is left alone.
resend_data_all :
    (local_mtu : ℕ) (src_mtu : Option ℕ) (s : TcpTxState) (now : ℕ)
    → Valid.IsValid s.cache
    → 40 < mtu_of local_mtu src_mtu
    → (s' : TcpTxState) × (segs : List Segment) × (resend_data local_mtu src_mtu s
          (Queue.contents s.cache)
          now
          (λ i. ok tt)
        ≡ done (s', segs, ok tt))
      × AreSegments
          (mtu_of local_mtu src_mtu - 40)
          s.cache.sequence
          (is_some s.cache_fin)
          0
          (Queue.contents s.cache)
          segs
      × (s'.rto ≡ s.rto)
unfolding resend_data
resend_data_all local_mtu src_mtu s now v m =
    let lc = length-contents_of s.cache.buffer s.cache.head s.cache.size v.head_in v.size_in in
    let same : (s.cache.size == length (Queue.contents s.cache)) ≡ true = ground arith in
    let fits : length (Queue.contents s.cache) ≤ u32_max =
      omega (arith, v.size_in, v.buffer_in, v.capacity_in) in
    elim (Bool-cases (is_some s.cache_fin)) [
      | inl fin ↦
          let (s', segs, e, a, (n, moved, _)) =
            send_tcp_ack_raw_run local_mtu src_mtu (update_fin_timer s now) s.cache.sequence
              (Queue.contents s.cache) true m fits in
          (s', segs, rw (same, fin, e) refl, rw fin a, rw moved (rto_of_update s now))
      | inr fin ↦
          let (s', segs, e, a, (n, moved, _)) =
            send_tcp_ack_raw_run local_mtu src_mtu s s.cache.sequence (Queue.contents s.cache) false
              m fits in
          (s', segs, rw (same, fin, e) refl, rw fin a, rw moved refl)
    ]

-- Where every packet can be sent and the MTU exceeds the headers, with data in flight whose clocks
-- are all timed out, a tick sends all of it again, with the FIN flag if the FIN was sent and is not
-- acknowledged, and doubles the timeout up to the maximum.
pub tick_after_timeout :
    (local_mtu : ℕ) (src_mtu : Option ℕ) (s : TcpTxState) (now : ℕ)
    → Valid.IsValid s.cache
    → 0 < s.cache.size
    → Queue.first_running now s.cache.clocks ≡ none
    → 40 < mtu_of local_mtu src_mtu
    → min_rto ≤ s.rto
    → s.rto ≤ max_rto
    → (s' : TcpTxState) × (segs : List Segment) × (retransmit_tcp_ack_timedout local_mtu src_mtu s
          now
          (λ i. ok tt)
        ≡ done (s', data_segments segs, ok tt))
      × AreSegments
          (mtu_of local_mtu src_mtu - 40)
          s.cache.sequence
          (is_some s.cache_fin)
          0
          (Queue.contents s.cache)
          segs
      × (s'.rto ≡ min max_rto (2 * s.rto))
unfolding retransmit_tcp_ack_timedout double_rto
tick_after_timeout local_mtu src_mtu s now v p e m h k =
    let rto = max max_rto (min min_rto (saturating_mul s.rto 2)) in
    let got = all_timed_out rto now v e in
    let some_left = lt→ltb 0 s.cache.size p in
    let clock : ℕ × Timer = (s.cache.sequence, Timer.new now rto) in
    let cache : Queue = record s.cache {
      clocks = clock ∷ [];
      retrans = some (Queue.recv_next s.cache);
    } in
    let updated : TcpTxState = record s { cache = cache } in
    let valid : Valid.IsValid cache = ground arith in
    let (s', segs, e', a, rto_eq) =
      resend_data_all local_mtu src_mtu (double_rto updated) now valid m in
    (s', segs, rw (got, some_left, e') refl, a, rto_eq ∙ double_rto_lem updated h k)
