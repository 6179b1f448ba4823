-- ===== src/Forwarder/Streams/Acks.antt =====
-- The calls of the forwarder leave the acknowledgements of the connections alone.
use pcap2socks.Base.{
  ℕ, zero, suc, ◌≡◌, refl, ◌∙◌, ◌*◌, ◌+◌, ltb, ◌==◌, Bool, true, false, ◌&&◌, min, max, Bool-cases,
  inl, inr, Result-cases, Option, none, some, List, [], ◌∷◌, length, Run, ◌>>=◌, Result, All,
  All-bind, All-map, All-any,
}
use pcap2socks.Timer
use pcap2socks.Timer.{Timer, Instant}
use pcap2socks.Sequence.{seq_sub}
use pcap2socks.Cache.Queue
use pcap2socks.Tcp.Tx
use pcap2socks.Tcp.Tx.{TcpTxState, is_some}
use pcap2socks.Forwarder.Ranges.{Range, without_sacks}
use pcap2socks.Forwarder.Segments.{Segment, segment, advance, send_segments, send_tcp_ack_raw}
use pcap2socks.Forwarder.Segments.Moved.{advance-Moved}
use pcap2socks.Forwarder.Packet.{sent_from}
use pcap2socks.Forwarder.Resend
use pcap2socks.Forwarder.Selective
use pcap2socks.Forwarder.Timeout

-- What a call leaves has the acknowledgement of `s`.
abbrev pub Same : {A : Type 0} → TcpTxState → TcpTxState × List A × Result (Unit {0}) → Type 0
Same s (s', sent, result) = s'.acknowledgement ≡ s.acknowledgement

abbrev pub Keeps :
    {A : Type 0} → TcpTxState → Run (TcpTxState × List A × Result (Unit {0})) → Type 0
Keeps s run = All (Same s) run

pub Keeps-bind :
    {A B : Type 0} (s : TcpTxState) (m : Run (TcpTxState × List A × Result (Unit {0})))
    (f : TcpTxState × List A × Result (Unit {0}) → Run (TcpTxState × List B × Result (Unit {0})))
    → Keeps s m
    → ((x : TcpTxState × List A × Result (Unit {0})) → Same s x → Keeps s (f x))
    → Keeps s (m >>= f)
Keeps-bind s m f h k = All-bind (Same s) (Same s) m f h k

-- After a part that does not change the state.
pub Keeps-behind :
    {A B : Type 0} (s : TcpTxState) (m : Run A)
    (f : A → Run (TcpTxState × List B × Result (Unit {0})))
    → ((a : A) → Keeps s (f a))
    → Keeps s (m >>= f)
Keeps-behind s m f k = All-bind (λ a. Unit {0}) (Same s) m f (All-any m) (λ a _. k a)

-- From a state with the same acknowledgement.
pub Keeps-from :
    {A : Type 0} (s t : TcpTxState) (m : Run (TcpTxState × List A × Result (Unit {0})))
    → t.acknowledgement ≡ s.acknowledgement
    → Keeps t m
    → Keeps s m
Keeps-from s t m e h = All-map (Same t) (Same s) m h (λ x same. same ∙ e)

advance_ack : (s : TcpTxState) (n : ℕ) → (advance s n).acknowledgement ≡ s.acknowledgement
advance_ack s n = let (m, e, _) = advance-Moved s n in rw e refl

send_segments-Keeps :
    (fuel local_mtu mss : ℕ) (s : TcpTxState) (i sequence : ℕ) (payload : List ℕ) (is_fin : Bool)
    (sent : ℕ → Result (Unit {0}))
    → Keeps s (send_segments fuel local_mtu mss s i sequence payload is_fin sent)
unfolding send_segments
send_segments-Keeps zero local_mtu mss s i sequence payload is_fin sent = tt
send_segments-Keeps (suc fuel) local_mtu mss s i sequence payload is_fin sent =
    elim (Bool-cases (ltb (mss * i) (length payload))) [
      | inl more ↦ rw more (
          Keeps-behind s (segment local_mtu mss s i sequence payload is_fin) _ (λ (seg, recv_next).
            elim (Result-cases (sent i)) [
              | inr (e, failed) ↦ rw failed refl
              | inl (_, sent_ok) ↦ rw sent_ok (
                  Keeps-bind s _ _
                    (Keeps-from s (advance s recv_next) _ (advance_ack s recv_next) (
                      send_segments-Keeps fuel local_mtu mss (advance s recv_next) (i + 1) sequence
                        payload is_fin sent))
                    (λ x same. same))
            ]))
      | inr over ↦ rw over refl
    ]

pub send_tcp_ack_raw-Keeps :
    (local_mtu : ℕ) (src_mtu : Option ℕ) (s : TcpTxState) (sequence : ℕ) (payload : List ℕ)
    (is_fin : Bool) (sent : ℕ → Result (Unit {0}))
    → Keeps s (send_tcp_ack_raw local_mtu src_mtu s sequence payload is_fin sent)
unfolding send_tcp_ack_raw
send_tcp_ack_raw-Keeps local_mtu src_mtu s sequence payload is_fin sent = Keeps-behind s _ _ (λ mss.
    send_segments-Keeps (suc (length payload)) local_mtu mss s 0 sequence payload is_fin sent)

pub retransmit_tcp_ack-Keeps :
    (local_mtu : ℕ) (src_mtu : Option ℕ) (s : TcpTxState) (sent : ℕ → Result (Unit {0}))
    → Keeps s (Resend.retransmit_tcp_ack local_mtu src_mtu s sent)
unfolding Resend.retransmit_tcp_ack
retransmit_tcp_ack-Keeps local_mtu src_mtu s sent =
    Keeps-behind s (Queue.get_all s.cache) _ (λ payload.
      elim (Bool-cases (ltb 0 (length payload))) [
        | inr none_left ↦ rw none_left refl
        | inl some_left ↦
            elim (Bool-cases ((s.cache.size == length payload) && is_some s.cache_fin)) [
              | inl fin ↦
                  rw (some_left, fin)
                    (send_tcp_ack_raw-Keeps local_mtu src_mtu s s.cache.sequence payload true sent)
              | inr fin ↦
                  rw (some_left, fin)
                    (send_tcp_ack_raw-Keeps local_mtu src_mtu s s.cache.sequence payload false sent)
            ]
      ])

resend_range-Keeps :
    (local_mtu : ℕ) (src_mtu : Option ℕ) (s : TcpTxState) (recv_next : ℕ) (range : Range)
    (payload : List ℕ) (sent : ℕ → Result (Unit {0}))
    → Keeps s (Selective.resend_range local_mtu src_mtu s recv_next range payload sent)
unfolding Selective.resend_range
resend_range-Keeps local_mtu src_mtu s recv_next (first, last) payload sent =
    elim (Bool-cases (ltb 0 (length payload))) [
      | inr none_left ↦ rw none_left refl
      | inl some_left ↦ elim (Bool-cases ((last == recv_next) && is_some s.cache_fin)) [
        | inl fin ↦
            rw (some_left, fin) (send_tcp_ack_raw-Keeps local_mtu src_mtu s first payload true sent)
        | inr fin ↦
            rw (some_left, fin)
              (send_tcp_ack_raw-Keeps local_mtu src_mtu s first payload false sent)
      ]
    ]

resend_ranges-Keeps :
    (local_mtu : ℕ) (src_mtu : Option ℕ) (s : TcpTxState) (recv_next : ℕ) (ranges : List Range)
    (sent : ℕ → Result (Unit {0}))
    → Keeps s (Selective.resend_ranges local_mtu src_mtu s recv_next ranges sent)
unfolding Selective.resend_ranges
resend_ranges-Keeps local_mtu src_mtu s recv_next [] sent = refl
resend_ranges-Keeps local_mtu src_mtu s recv_next (range ∷ ranges) sent =
    Keeps-behind s (Queue.get s.cache range.0 (seq_sub range.1 range.0)) _ (λ got.
      elim (Result-cases got) [
        | inr (e, failed) ↦ rw failed refl
        | inl (payload, here) ↦ rw here (
            Keeps-bind s _ _ (resend_range-Keeps local_mtu src_mtu s recv_next range payload sent)
              (λ (s', segs, result) same. elim (Result-cases result) [
                | inr (e, failed) ↦ rw failed same
                | inl (_, sent_ok) ↦ rw sent_ok (
                    Keeps-bind s _ _
                      (Keeps-from s s' _ same (
                        resend_ranges-Keeps local_mtu src_mtu s' recv_next ranges
                          (sent_from (length segs) sent)))
                      (λ x same'. same'))
              ]))
      ])

resend_pure_fin-Keeps :
    (local_mtu : ℕ) (s : TcpTxState) (ranges : List Range) (segs : List Segment)
    (sent : ℕ → Result (Unit {0}))
    → Same s (Selective.resend_pure_fin local_mtu s ranges segs sent)
unfolding Selective.resend_pure_fin
resend_pure_fin-Keeps local_mtu s ranges segs sent =
    elim (Bool-cases ((length ranges == 0) && is_some s.cache_fin)) [
      | inl e ↦ rw e refl
      | inr e ↦ rw e refl
    ]

pub retransmit_tcp_ack_without-Keeps :
    (local_mtu : ℕ) (src_mtu : Option ℕ) (s : TcpTxState) (sacks : List Range)
    (sent : ℕ → Result (Unit {0}))
    → Keeps s (Selective.retransmit_tcp_ack_without local_mtu src_mtu s sacks sent)
unfolding Selective.retransmit_tcp_ack_without
retransmit_tcp_ack_without-Keeps local_mtu src_mtu s sacks sent =
    let recv_next = Queue.recv_next s.cache in
    let whole : List Range = (s.cache.sequence, recv_next) ∷ [] in
    Keeps-bind s _ _
      (resend_ranges-Keeps local_mtu src_mtu s recv_next (without_sacks whole sacks) sent)
      (λ (s', segs, result) same. elim (Result-cases result) [
        | inr (e, failed) ↦ rw failed same
        | inl (_, sent_ok) ↦
            rw sent_ok
              (resend_pure_fin-Keeps local_mtu s' (without_sacks whole sacks) segs sent ∙ same)
      ])

resend_data-Keeps :
    (local_mtu : ℕ) (src_mtu : Option ℕ) (s : TcpTxState) (payload : List ℕ) (now : Instant)
    (sent : ℕ → Result (Unit {0}))
    → Keeps s (Timeout.resend_data local_mtu src_mtu s payload now sent)
unfolding Timeout.resend_data Tx.update_fin_timer
resend_data-Keeps local_mtu src_mtu s payload now sent =
    elim (Bool-cases ((s.cache.size == length payload) && is_some s.cache_fin)) [
      | inl fin ↦ rw fin (
          Keeps-from s (Tx.update_fin_timer s now) _ refl (
            send_tcp_ack_raw-Keeps local_mtu src_mtu (Tx.update_fin_timer s now) s.cache.sequence
              payload true sent))
      | inr fin ↦
          rw fin (send_tcp_ack_raw-Keeps local_mtu src_mtu s s.cache.sequence payload false sent)
    ]

resend_fin-Keeps :
    (local_mtu : ℕ) (s : TcpTxState) (fin : Option Timer) (now : Instant)
    (sent : ℕ → Result (Unit {0}))
    → s.cache_fin ≡ fin
    → Same s (Timeout.resend_fin local_mtu s now sent)
unfolding Timeout.resend_fin Tx.update_fin_timer Tx.double_rto
resend_fin-Keeps local_mtu s none now sent e = rw e refl
resend_fin-Keeps local_mtu s (some timer) now sent e =
    elim (Bool-cases (Timer.is_timedout now timer)) [
      | inl over ↦ rw (e, over) refl
      | inr running ↦ rw (e, running) refl
    ]

pub retransmit_tcp_ack_timedout-Keeps :
    (local_mtu : ℕ) (src_mtu : Option ℕ) (s : TcpTxState) (now : Instant)
    (sent : ℕ → Result (Unit {0}))
    → Keeps s (Timeout.retransmit_tcp_ack_timedout local_mtu src_mtu s now sent)
unfolding Timeout.retransmit_tcp_ack_timedout Tx.double_rto
retransmit_tcp_ack_timedout-Keeps local_mtu src_mtu s now sent =
    Keeps-behind s
      (Queue.get_timed_out_and_update s.cache
        (max Tx.max_rto (min Tx.min_rto (Tx.saturating_mul s.rto 2))) now)
      _
      (λ (cache, payload).
        let updated : TcpTxState = record s { cache = cache } in
        elim (Bool-cases (ltb 0 cache.size)) [
          | inl some_left ↦ rw some_left (
              Keeps-bind s _ _
                (Keeps-from s (Tx.double_rto updated) _ refl
                  (resend_data-Keeps local_mtu src_mtu (Tx.double_rto updated) payload now sent))
                (λ x same. same))
          | inr none_left ↦
              rw none_left (resend_fin-Keeps local_mtu updated updated.cache_fin now sent refl)
        ])
