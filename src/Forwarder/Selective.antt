-- ===== src/Forwarder/Selective.antt =====
-- `retransmit_tcp_ack_without` of src/lib.rs, on the state of the connection: what is in flight is
-- sent again but for the ranges that are selectively acknowledged.
use pcap2socks.Base.{
  ℕ, ltb, ◌==◌, if◌then◌else◌, Option, List, [], ◌∷◌, ◌++◌, length, true, false, ◌&&◌, Run, done,
  ◌>>=◌, Result, ok, err,
}
use pcap2socks.Sequence.{seq_sub}
use pcap2socks.Cache.Queue
use pcap2socks.Tcp.Tx.{TcpTxState, is_some}
use pcap2socks.Forwarder.Ranges.{Range, without_sacks}
use pcap2socks.Forwarder.Segments.{Segment, send_tcp_ack_raw}
use pcap2socks.Forwarder.Packet.{Packet, send_tcp_fin, data_segments, sent_from}

-- The bytes of a range, with the FIN if it was sent and the range ends at `recv_next`.
unfoldable pub resend_range :
    ℕ
    → Option ℕ
    → TcpTxState
    → ℕ
    → Range
    → List ℕ
    → (ℕ → Result (Unit {0}))
    → Run (TcpTxState × List Segment × Result (Unit {0}))
resend_range local_mtu src_mtu s recv_next (first, last) payload sent =
    if ltb 0 (length payload)
    then (if (last == recv_next) && is_some s.cache_fin
        then send_tcp_ack_raw local_mtu src_mtu s first payload true sent
        else send_tcp_ack_raw local_mtu src_mtu s first payload false sent)
    else done (s, [], ok tt)

-- The loop over the ranges, which the first failure leaves.
unfoldable pub resend_ranges :
    ℕ
    → Option ℕ
    → TcpTxState
    → ℕ
    → List Range
    → (ℕ → Result (Unit {0}))
    → Run (TcpTxState × List Segment × Result (Unit {0}))
unfolding resend_range
resend_ranges local_mtu src_mtu s recv_next [] sent = done (s, [], ok tt)
resend_ranges local_mtu src_mtu s recv_next (range ∷ ranges) sent = do
  got ← Queue.get s.cache range.0 (seq_sub range.1 range.0)
  elim got [
    | err e ↦ done (s, [], err e)
    | ok payload ↦ do
      (s', segs, result) ← resend_range local_mtu src_mtu s recv_next range payload sent
      elim result [
        | err e ↦ done (s', segs, err e)
        | ok _ ↦ do
          (s'', rest, result') ←
              resend_ranges local_mtu src_mtu s' recv_next ranges (sent_from (length segs) sent)
          done (s'', segs ++ rest, result')
      ]
  ]

-- A FIN goes alone where no range is left.
unfoldable pub resend_pure_fin :
    ℕ
    → TcpTxState
    → List Range
    → List Segment
    → (ℕ → Result (Unit {0}))
    → TcpTxState × List Packet × Result (Unit {0})
resend_pure_fin local_mtu s ranges segs sent =
    if (length ranges == 0) && is_some s.cache_fin
    then (s, data_segments segs ++ (send_tcp_fin local_mtu s ∷ []), sent (length segs))
    else (s, data_segments segs, ok tt)

unfoldable pub retransmit_tcp_ack_without :
    ℕ
    → Option ℕ
    → TcpTxState
    → List Range
    → (ℕ → Result (Unit {0}))
    → Run (TcpTxState × List Packet × Result (Unit {0}))
unfolding resend_ranges resend_pure_fin
retransmit_tcp_ack_without local_mtu src_mtu s sacks sent =
    let recv_next = Queue.recv_next s.cache in
    let ranges = without_sacks ((s.cache.sequence, recv_next) ∷ []) sacks in
    do
      (s', segs, result) ← resend_ranges local_mtu src_mtu s recv_next ranges sent
      elim result [
        | err e ↦ done (s', data_segments segs, err e)
        | ok _ ↦ done (resend_pure_fin local_mtu s' ranges segs sent)
      ]
