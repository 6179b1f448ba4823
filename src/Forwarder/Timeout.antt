-- ===== src/Forwarder/Timeout.antt =====
-- `retransmit_tcp_ack_timedout` of src/lib.rs, on the state of the connection: what a tick sends.
mod Laws
mod Tests
use pcap2socks.Base.{
  ℕ, ltb, ◌==◌, if◌then◌else◌, min, max, Option, none, some, List, [], ◌∷◌, length, Bool, true,
  false, ◌&&◌, Run, done, ◌>>=◌, Result, ok, err,
}
use pcap2socks.Timer
use pcap2socks.Timer.{Instant}
use pcap2socks.Cache.Queue
use pcap2socks.Tcp.Tx.{
  TcpTxState, is_some, min_rto, max_rto, saturating_mul, double_rto, update_fin_timer,
}
use pcap2socks.Forwarder.Segments.{Segment, send_tcp_ack_raw}
use pcap2socks.Forwarder.Packet.{Packet, send_tcp_fin, data_segments}

-- The bytes that timed out go with the FIN if they are all that is in flight and it was sent.
unfoldable pub resend_data :
    ℕ
    → Option ℕ
    → TcpTxState
    → List ℕ
    → Instant
    → (ℕ → Result (Unit {0}))
    → Run (TcpTxState × List Segment × Result (Unit {0}))
resend_data local_mtu src_mtu s payload now sent =
    if (s.cache.size == length payload) && is_some s.cache_fin
    then send_tcp_ack_raw local_mtu src_mtu (update_fin_timer s now) s.cache.sequence payload true
        sent
    else send_tcp_ack_raw local_mtu src_mtu s s.cache.sequence payload false sent

-- With nothing in flight, a FIN that timed out is sent again.
unfoldable pub resend_fin :
    ℕ
    → TcpTxState
    → Instant
    → (ℕ → Result (Unit {0}))
    → TcpTxState × List Packet × Result (Unit {0})
resend_fin local_mtu s now sent = elim s.cache_fin [
  | none ↦ (s, [], ok tt)
  | some timer ↦
      if Timer.is_timedout now timer
      then (let s' = update_fin_timer (double_rto s) now in
          (s', send_tcp_fin local_mtu s' ∷ [], sent 0))
      else (s, [], ok tt)
]

unfoldable pub retransmit_tcp_ack_timedout :
    ℕ
    → Option ℕ
    → TcpTxState
    → Instant
    → (ℕ → Result (Unit {0}))
    → Run (TcpTxState × List Packet × Result (Unit {0}))
unfolding resend_data resend_fin
retransmit_tcp_ack_timedout local_mtu src_mtu s now sent = do
  let next_rto = saturating_mul s.rto 2
  (cache, payload) ← Queue.get_timed_out_and_update s.cache (max max_rto (min min_rto next_rto)) now
  let updated = record s { cache = cache }
  if ltb 0 cache.size
      then (do
        (s', segs, result) ← resend_data local_mtu src_mtu (double_rto updated) payload now sent
        done (s', data_segments segs, result))
      else done (resend_fin local_mtu updated now sent)
