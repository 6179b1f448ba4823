-- ===== src/Forwarder/Resend.antt =====
-- `retransmit_tcp_ack` of src/lib.rs, on the state of the connection: all that is in flight is sent
-- again, with the FIN if it was sent.
mod Tests
use pcap2socks.Base.{
  ℕ, ◌+◌, ◌-◌, ◌≤◌, ◌<◌, ◌≡◌, refl, ltb, ◌==◌, if◌then◌else◌, Bool, true, false, ◌&&◌, Bool-cases,
  inl, inr, Option, none, some, List, [], ◌∷◌, length, Run, done, ◌>>=◌, Result, ok, err, arith,
  lt→ltb, ==_self, u32_max,
}
use pcap2socks.Cache.Queue
use pcap2socks.Cache.Queue.{Queue}
use pcap2socks.Cache.Queue.Valid
use pcap2socks.Cache.Queue.Read.{get_all-eq-done}
use pcap2socks.Cache.Ring.Contents.{length-contents_of}
use pcap2socks.Tcp.Tx.{TcpTxState, is_some}
use pcap2socks.Forwarder.Segments.{Segment, mtu_of, send_tcp_ack_raw}
use pcap2socks.Forwarder.Segments.Laws.{AreSegments, send_tcp_ack_raw_run}

unfoldable pub retransmit_tcp_ack :
    ℕ
    → Option ℕ
    → TcpTxState
    → (ℕ → Result (Unit {0}))
    → Run (TcpTxState × List Segment × Result (Unit {0}))
retransmit_tcp_ack local_mtu src_mtu s sent = do
  payload ← Queue.get_all s.cache
  if ltb 0 (length payload)
      then (if (s.cache.size == length payload) && is_some s.cache_fin
          then send_tcp_ack_raw local_mtu src_mtu s s.cache.sequence payload true sent
          else send_tcp_ack_raw local_mtu src_mtu s s.cache.sequence payload false sent)
      else done (s, [], ok tt)

nil_of_length : (xs : List ℕ) → length xs ≡ 0 → xs ≡ []
nil_of_length [] h = refl
nil_of_length (x ∷ xs) h = absurd (omega arith)

-- Where every packet can be sent and the MTU exceeds the headers, all the bytes in flight are sent
-- again from the first on, in their order, with the FIN flag if the FIN was sent and is not
-- acknowledged. Nothing panics.
pub retransmit_tcp_ack_run :
    (local_mtu : ℕ) (src_mtu : Option ℕ) (s : TcpTxState)
    → Valid.IsValid s.cache
    → 40 < mtu_of local_mtu src_mtu
    → (s' : TcpTxState) × (segs : List Segment) × (retransmit_tcp_ack local_mtu src_mtu s
          (λ i. ok tt)
        ≡ done (s', segs, ok tt))
      × AreSegments
          (mtu_of local_mtu src_mtu - 40)
          s.cache.sequence
          (is_some s.cache_fin)
          0
          (Queue.contents s.cache)
          segs
unfolding retransmit_tcp_ack
retransmit_tcp_ack_run local_mtu src_mtu s v p =
    let all = get_all-eq-done v in
    let lc = length-contents_of s.cache.buffer s.cache.head s.cache.size v.head_in v.size_in in
    let same : (s.cache.size == length (Queue.contents s.cache)) ≡ true = ground arith in
    let raw =
      send_tcp_ack_raw_run local_mtu src_mtu s s.cache.sequence (Queue.contents s.cache)
        (is_some s.cache_fin) p (omega (arith, v.size_in, v.buffer_in, v.capacity_in)) in
    let (s', segs, e, a, _) = raw in
    elim (Bool-cases (ltb 0 (length (Queue.contents s.cache)))) [
      | inl some_left ↦ elim (Bool-cases (is_some s.cache_fin)) [
        | inl fin ↦ (s', segs, rw (all, some_left, same, fin) (rw fin at e), a)
        | inr fin ↦ (s', segs, rw (all, some_left, same, fin) (rw fin at e), a)
      ]
      | inr none_left ↦
          (s, [], rw (all, none_left) refl, nil_of_length (Queue.contents s.cache) (ground arith))
    ]
