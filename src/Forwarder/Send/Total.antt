-- ===== src/Forwarder/Send/Total.antt =====
-- `send_tcp_ack` whatever the results of the sends.
use pcap2socks.Base.{
  ℕ, ◌-◌, ◌≤◌, ◌<◌, ◌≡◌, refl, ltb, max, ◌&&◌, Bool-cases, inl, inr, Option, some, ◌∷◌, min, List,
  [], length, take, done, Result, Result-cases, ok, err, arith, u16_max, u32_max, length-take,
  le→ltb,
}
use pcap2socks.Timer.{Instant}
use pcap2socks.Cache.Queue
use pcap2socks.Tcp.Tx.{TcpTxState, is_some, append_cache_fin, update_fin_timer}
use pcap2socks.Tcp.Tx.Valid
use pcap2socks.Tcp.Tx.Valid.{append_cache_fin-IsValid}
use pcap2socks.Tcp.Tx.Stream.{stream}
use pcap2socks.Forwarder.Segments.{Segment, mtu_of, get_tcp_window}
use pcap2socks.Forwarder.Segments.Moved.{Moved-IsValid}
use pcap2socks.Forwarder.Segments.Total.{send_tcp_ack_raw_total}
use pcap2socks.Forwarder.Packet.{Packet, ack_syn, send_tcp_ack_syn, data_segments}
use pcap2socks.Forwarder.Send.{send_data, send_pending_fin, send_tcp_ack}
use pcap2socks.Forwarder.Send.Laws.{take_data_run}

-- What sending leaves: a valid connection with the same stream, and no more in flight than the
-- window allows, or than before.
pub record Kept (s s' : TcpTxState) : Type 0 where
  pub valid : Valid.IsValid s'
  pub stream_eq : stream s' ≡ stream s
  pub in_flight : s'.cache.size ≤ max s.cache.size s.send_window

pub Kept-refl : {s : TcpTxState} → Valid.IsValid s → Kept s s
Kept-refl v = record { valid = v; stream_eq = refl; in_flight = omega arith }

send_data_total :
    (local_mtu : ℕ) (src_mtu : Option ℕ) (s : TcpTxState) (now : Instant)
    (sent : ℕ → Result (Unit {0}))
    → Valid.IsValid s
    → 40 < mtu_of local_mtu src_mtu
    → s.send_window ≤ s.cache.capacity
    → length s.queue ≤ u32_max
    → (s' : TcpTxState) × (segs : List Segment) × (result : Result (Unit {0})) × (send_data
          local_mtu src_mtu s now sent
        ≡ done (s', segs, result))
      × Kept s s'
unfolding send_data
send_data_total local_mtu src_mtu s now sent v m k l =
    let (n, s1, fin, e, t, flight, same, kept) =
      take_data_run local_mtu src_mtu s now v.cache (omega arith) k in
    let short = length-take n s.queue in
    let (s', segs, result, e', (q, moved, bound)) =
      send_tcp_ack_raw_total local_mtu src_mtu s1 s1.sequence (take n s.queue) fin sent m
        (omega arith) in
    elim (Bool-cases (ltb 0 s.send_window)) [
      | inl open_window ↦ elim (Bool-cases (ltb 0 n)) [
        | inl some_size ↦ (
          s',
          segs,
          result,
          rw (open_window, e, some_size, t, e') refl,
          record {
            valid = Moved-IsValid {s = s1} (q, moved, bound) (kept v);
            stream_eq = rw moved same;
            in_flight = rw moved flight;
          },
        )
        | inr no_size ↦ (s, [], ok tt, rw (open_window, e, no_size) refl, Kept-refl v)
      ]
      | inr closed ↦ (s, [], ok tt, rw closed refl, Kept-refl v)
    ]

send_pending_fin-Kept :
    (local_mtu : ℕ) (s0 s : TcpTxState) (now : Instant) (segs : List Segment)
    (sent : ℕ → Result (Unit {0}))
    → Kept s0 s
    → Kept s0 (send_pending_fin local_mtu s now segs sent).0
unfolding send_pending_fin append_cache_fin update_fin_timer
send_pending_fin-Kept local_mtu s0 s now segs sent k =
    elim (Bool-cases (s.queue_fin && Queue.is_empty s.cache)) [
      | inl last ↦ rw last record {
        valid = append_cache_fin-IsValid k.valid now;
        stream_eq = k.stream_eq;
        in_flight = k.in_flight;
      }
      | inr more ↦ rw more k
    ]

-- Whatever the results of the sends, with a valid connection, MTUs that exceed the headers, a
-- cache whose capacity is not below the source's window and a queue of less than 4 GiB,
-- `send_tcp_ack` ends without a panic. The connection stays valid, the stream of bytes sent and
-- queued is the same, and no more is in flight than the window allows, or than before.
pub send_tcp_ack_total :
    (local_mtu : ℕ) (src_mtu : Option ℕ) (s : TcpTxState) (now : Instant)
    (sent : ℕ → Result (Unit {0}))
    → Valid.IsValid s
    → 40 ≤ local_mtu
    → 40 < mtu_of local_mtu src_mtu
    → s.send_window ≤ s.cache.capacity
    → length s.queue ≤ u32_max
    → (s' : TcpTxState) × (packets : List Packet) × (result : Result (Unit {0})) × (send_tcp_ack
          local_mtu src_mtu s now sent
        ≡ done (s', packets, result))
      × Kept s s'
unfolding send_tcp_ack send_tcp_ack_syn
send_tcp_ack_total local_mtu src_mtu s now sent v h m k l =
    let (s', segs, result, e, kept) = send_data_total local_mtu src_mtu s now sent v m k l in
    elim (Bool-cases (is_some s.cache_syn)) [
      | inl syn ↦ (
        s,
        ack_syn s.sequence s.acknowledgement (get_tcp_window local_mtu s)
              (some (min u16_max (local_mtu - 40))) s.send_wscale s.sack_perm
            ∷ [],
        sent 0,
        rw (syn, le→ltb local_mtu 40 h) refl,
        Kept-refl v,
      )
      | inr established ↦ elim (Result-cases result) [
        | inl (_, sent_ok) ↦ (
          (send_pending_fin local_mtu s' now segs sent).0,
          (send_pending_fin local_mtu s' now segs sent).1,
          (send_pending_fin local_mtu s' now segs sent).2,
          rw (established, e, sent_ok) refl,
          send_pending_fin-Kept local_mtu s s' now segs sent kept,
        )
        | inr (er, failed) ↦
            (s', data_segments segs, err er, rw (established, e, failed) refl, kept)
      ]
    ]
