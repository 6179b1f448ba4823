-- ===== src/Forwarder/Send.antt =====
-- `send_tcp_ack` of src/lib.rs, on the state of the connection: what the source's window has room
-- for goes from the queue to the cache and is sent. The results of the calls that send packets are
-- arguments.
pub mod Laws
pub mod Total
mod Tests
use pcap2socks.Base.{
  ℕ, ◌+◌, ◌-◌, ltb, if◌then◌else◌, min, Bool, true, false, ◌&&◌, not, Option, none, some, List, [],
  ◌∷◌, ◌++◌, length, Run, done, ◌>>=◌, sub, Result, ok, err, u16_max, ◌==◌,
}
use pcap2socks.Timer.{Instant}
use pcap2socks.Cache.Queue
use pcap2socks.Cache.Queue.{Queue}
use pcap2socks.Tcp.Tx.{TcpTxState, is_some, append_cache, append_cache_fin}
use pcap2socks.Forwarder.Segments.{
  Segment, mtu_of, send_tcp_ack_raw, ipv4_minimum_len, tcp_minimum_len,
}
use pcap2socks.Forwarder.Packet.{Packet, send_tcp_ack_syn, send_tcp_fin, data_segments}

-- How many queued bytes to send; `ENABLE_SEND_SWS_AVOID` is `true`.
unfoldable pub send_size : ℕ → Option ℕ → TcpTxState → Run ℕ
send_size local_mtu src_mtu s = do
  mss ← sub (mtu_of local_mtu src_mtu) (ipv4_minimum_len + tcp_minimum_len)
  let size = min (min (s.send_window - s.cache.size) u16_max) (length s.queue)
  done (if ltb size mss && not (Queue.is_empty s.cache) then 0 else size)

-- The queued bytes go to the cache, and a queued FIN with the last of them.
unfoldable pub take_data : TcpTxState → ℕ → Instant → Run (TcpTxState × Result (List ℕ × Bool))
take_data s size now = do
  (s', result) ← append_cache s size now
  elim result [
    | err e ↦ done (s', err e)
    | ok payload ↦
        if (length s'.queue == 0) && s'.queue_fin
        then done (append_cache_fin s' now, ok (payload, true))
        else done (s', ok (payload, false))
  ]

-- The data part, with the segments sent.
unfoldable pub send_data :
    ℕ
    → Option ℕ
    → TcpTxState
    → Instant
    → (ℕ → Result (Unit {0}))
    → Run (TcpTxState × List Segment × Result (Unit {0}))
unfolding send_size take_data
send_data local_mtu src_mtu s now sent =
    if ltb 0 s.send_window
    then (do
      size ← send_size local_mtu src_mtu s
      if ltb 0 size
          then (do
            (s', taken) ← take_data s size now
            elim taken [
              | err e ↦ done (s', [], err e)
              | ok (payload, is_fin) ↦
                  send_tcp_ack_raw local_mtu src_mtu s' s'.sequence payload is_fin sent
            ])
          else done (s, [], ok tt))
    else done (s, [], ok tt)

-- The FIN part: a queued FIN is sent if nothing is in flight.
unfoldable pub send_pending_fin :
    ℕ
    → TcpTxState
    → Instant
    → List Segment
    → (ℕ → Result (Unit {0}))
    → TcpTxState × List Packet × Result (Unit {0})
unfolding send_tcp_fin
send_pending_fin local_mtu s now segs sent =
    if s.queue_fin && Queue.is_empty s.cache
    then (let s' = append_cache_fin s now in
        (s', data_segments segs ++ (send_tcp_fin local_mtu s' ∷ []), sent (length segs)))
    else (s, data_segments segs, ok tt)

unfoldable pub send_tcp_ack :
    ℕ
    → Option ℕ
    → TcpTxState
    → Instant
    → (ℕ → Result (Unit {0}))
    → Run (TcpTxState × List Packet × Result (Unit {0}))
unfolding send_data send_pending_fin send_tcp_ack_syn
send_tcp_ack local_mtu src_mtu s now sent =
    if is_some s.cache_syn
    then (do packet ← send_tcp_ack_syn local_mtu s; done (s, packet ∷ [], sent 0))
    else (do
      (s', segs, result) ← send_data local_mtu src_mtu s now sent
      elim result [
        | err e ↦ done (s', data_segments segs, err e)
        | ok _ ↦ done (send_pending_fin local_mtu s' now segs sent)
      ])
