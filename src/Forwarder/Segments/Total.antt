-- ===== src/Forwarder/Segments/Total.antt =====
-- Segmentation whatever the results of the sends, and what it leaves of the state.
use pcap2socks.Base.{
  ℕ, zero, suc, ◌+◌, ◌-◌, ◌*◌, ◌≤◌, ◌<◌, ◌≡◌, refl, ltb, Bool, Bool-cases, inl, inr, Result-cases,
  Option, List, [], ◌∷◌, length, done, Result, ok, err, arith, u32_max, le→ltb,
}
use pcap2socks.Tcp.Tx.{TcpTxState}
use pcap2socks.Forwarder.Segments.{Segment, advance, send_segments, mtu_of, send_tcp_ack_raw}
use pcap2socks.Forwarder.Segments.Moved.{Moved, Moved-refl, Moved-trans, advance-Moved}
use pcap2socks.Forwarder.Segments.Laws.{segment_run, commuted, next_part}

send_segments_total :
    (fuel local_mtu mss : ℕ) (s : TcpTxState) (i sequence : ℕ) (payload : List ℕ) (is_fin : Bool)
    (sent : ℕ → Result (Unit {0}))
    → 0 < mss
    → length payload ≤ u32_max
    → length payload - i * mss < fuel
    → (s' : TcpTxState) × (segs : List Segment) × (result : Result (Unit {0})) × (send_segments fuel
          local_mtu mss s i sequence payload is_fin sent
        ≡ done (s', segs, result))
      × Moved s s'
unfolding send_segments
send_segments_total zero local_mtu mss s i sequence payload is_fin sent p k f = absurd (omega arith)
send_segments_total (suc fuel) local_mtu mss s i sequence payload is_fin sent p k f =
    elim (Bool-cases (ltb (mss * i) (length payload))) [
      | inl more ↦
          let next = next_part i mss in
          let here : i * mss < length payload = ground (arith, commuted i mss) in
          let (seg, recv_next, e, _, _, _) =
            segment_run local_mtu mss s i sequence payload is_fin here k in
          let (s', segs, result, e', m) =
            send_segments_total fuel local_mtu mss (advance s recv_next) (i + 1) sequence payload
              is_fin sent p k (omega (arith, next)) in
          elim (Result-cases (sent i)) [
            | inl (_, sent_ok) ↦ (
              s',
              seg ∷ segs,
              result,
              rw (more, e, sent_ok, e') refl,
              Moved-trans (advance-Moved s recv_next) m,
            )
            | inr (er, failed) ↦ (s, seg ∷ [], err er, rw (more, e, failed) refl, Moved-refl s)
          ]
      | inr over ↦ (s, [], ok tt, rw over refl, Moved-refl s)
    ]

-- Where the MTU exceeds the headers, the segmentation ends without a panic whatever the results of
-- the sends, and changes nothing but the sequence.
pub send_tcp_ack_raw_total :
    (local_mtu : ℕ) (src_mtu : Option ℕ) (s : TcpTxState) (sequence : ℕ) (payload : List ℕ)
    (is_fin : Bool) (sent : ℕ → Result (Unit {0}))
    → 40 < mtu_of local_mtu src_mtu
    → length payload ≤ u32_max
    → (s' : TcpTxState) × (segs : List Segment) × (result : Result (Unit {0})) × (send_tcp_ack_raw
          local_mtu src_mtu s sequence payload is_fin sent
        ≡ done (s', segs, result))
      × Moved s s'
unfolding send_tcp_ack_raw
send_tcp_ack_raw_total local_mtu src_mtu s sequence payload is_fin sent p k =
    let mss = mtu_of local_mtu src_mtu - 40 in
    let (s', segs, result, e, m) =
      send_segments_total (suc (length payload)) local_mtu mss s 0 sequence payload is_fin sent
        (omega arith) k (omega arith) in
    (s', segs, result, rw (le→ltb (mtu_of local_mtu src_mtu) 40 (omega arith), e) refl, m)
