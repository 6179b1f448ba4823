-- ===== src/Forwarder/Segments/Laws.antt =====
-- The segments hold the payload, each in its place.
use pcap2socks.Base.{
  drop-drop, ℕ, zero, suc, subst, ◌%◌, ◌+◌, ◌-◌, ◌*◌, ◌≤◌, ◌<◌, ◌≡◌, refl, sym, ◌∙◌, ap, ltb, leb,
  if◌then◌else◌, min, Bool, ◌&&◌, Bool-cases, inl, inr, Option, List, [], ◌∷◌, length, take, drop,
  done, slice-eq-done, ok, arith, u32_max, as_u32, length-take, length-drop, drop_beyond, le→ltb,
}
use pcap2socks.Sequence.{seq_add}
use pcap2socks.Tcp.Tx.{TcpTxState}
use pcap2socks.Tcp.Rx.{next_u32}
use pcap2socks.Forwarder.Segments.Moved.{Moved, Moved-refl, Moved-trans, advance-Moved}
use pcap2socks.Forwarder.Segments.{
  Segment, get_tcp_window, segment, advance, send_segments, mtu_of, send_tcp_ack_raw,
}

-- Segments that hold the bytes from the `i`-th part of `mss` bytes on: each starts at the sequence
-- of its part and holds that part, the last one what is left; none is empty; and all have the FIN
-- flag, or none has.
abbrev pub AreSegments : ℕ → ℕ → Bool → ℕ → List ℕ → List Segment → Type 0
AreSegments mss sequence fin i bytes [] = bytes ≡ []
AreSegments mss sequence fin i bytes (seg ∷ segs) =
    (seg.sequence ≡ seq_add sequence (i * mss))
    × (0 < length bytes)
    × (seg.payload ≡ take mss bytes)
    × (seg.fin ≡ fin)
    × AreSegments mss sequence fin (i + 1) (drop mss bytes) segs

take-min : (xs : List ℕ) (n : ℕ) → take (min n (length xs)) xs ≡ take n xs
take-min [] zero = refl
take-min [] (suc n) = let e : min (suc n) 0 ≡ 0 = omega arith in rw e refl
take-min (x ∷ xs) zero = let e : min 0 (suc (length xs)) ≡ 0 = omega arith in rw e refl
take-min (x ∷ xs) (suc n) =
    let e : min (suc n) (suc (length xs)) ≡ suc (min n (length xs)) = omega arith in
    rw e (ap (◌∷◌ x) (take-min xs n))

pub commuted : (i mss : ℕ) → mss * i ≡ i * mss
commuted i mss = grind arith

pub next_part : (i mss : ℕ) → (i + 1) * mss ≡ i * mss + mss
next_part i mss = grind arith

drop_part : (i mss : ℕ) (xs : List ℕ) → drop ((i + 1) * mss) xs ≡ drop mss (drop (i * mss) xs)
drop_part i mss xs = ap (λ n. drop n xs) (next_part i mss) ∙ sym (drop-drop xs (i * mss) mss)

fin-always : (fin : Bool) (n mss i : ℕ) → n ≤ mss → (fin && leb n (mss * (i + 1))) ≡ fin
fin-always fin n mss i h = let e : mss * (i + 1) ≡ i * mss + mss = grind arith in ground (arith, e)

pub segment_run :
    (local_mtu mss : ℕ) (s : TcpTxState) (i sequence : ℕ) (payload : List ℕ) (is_fin : Bool)
    → i * mss < length payload
    → length payload ≤ u32_max
    → (seg : Segment) × (recv_next : ℕ) × (segment local_mtu mss s i sequence payload is_fin
        ≡ done (seg, recv_next))
      × (seg.sequence ≡ seq_add sequence (i * mss))
      × (seg.payload ≡ take mss (drop (i * mss) payload))
      × (seg.fin ≡ is_fin)
unfolding segment
segment_run local_mtu mss s i sequence payload is_fin h k =
    let n = min mss (length payload - i * mss) in
    let part = take n (drop (i * mss) payload) in
    let cut = slice-eq-done payload (i * mss) (i * mss + n) (omega arith) (omega arith) in
    let size : i * mss + n - i * mss ≡ n = omega arith in
    let left = length-drop (i * mss) payload in
    let cast : i * mss % 4294967296 ≡ i * mss = omega arith in
    let part_len = length-take n (drop (i * mss) payload) in
    let first = seq_add sequence (as_u32 (i * mss)) in
    let fin = is_fin && leb (length part) (mss * (i + 1)) in
    let recv_next = seq_add first (as_u32 n) in
    let seg : Segment = record {
      sequence = first;
      acknowledgement = s.acknowledgement;
      window = get_tcp_window local_mtu s;
      fin = fin;
      payload = part;
    } in
    (
      seg,
      if fin then next_u32 recv_next else recv_next,
      rw (cut, size) refl,
      ap (seq_add sequence) cast,
      rw left at (take-min (drop (i * mss) payload) mss),
      fin-always is_fin (length part) mss i (omega arith),
    )

pub send_segments_run :
    (fuel local_mtu mss : ℕ) (s : TcpTxState) (i sequence : ℕ) (payload : List ℕ) (is_fin : Bool)
    → 0 < mss
    → length payload ≤ u32_max
    → length payload - i * mss < fuel
    → (s' : TcpTxState) × (segs : List Segment) × (send_segments fuel local_mtu mss s i sequence
          payload is_fin
          (λ j. ok tt)
        ≡ done (s', segs, ok tt))
      × AreSegments mss sequence is_fin i (drop (i * mss) payload) segs
      × Moved s s'
unfolding send_segments
send_segments_run zero local_mtu mss s i sequence payload is_fin p k f = absurd (omega arith)
send_segments_run (suc fuel) local_mtu mss s i sequence payload is_fin p k f =
    elim (Bool-cases (ltb (mss * i) (length payload))) [
      | inl more ↦
          let next = next_part i mss in
          let here : i * mss < length payload = ground (arith, commuted i mss) in
          let (seg, recv_next, e, a, b, c) =
            segment_run local_mtu mss s i sequence payload is_fin here k in
          let (s', segs, e', rest, m) =
            send_segments_run fuel local_mtu mss (advance s recv_next) (i + 1) sequence payload
              is_fin p k (omega (arith, next)) in
          (
            s',
            seg ∷ segs,
            rw (more, e, e') refl,
            (
              a,
              omega (arith, length-drop (i * mss) payload),
              b,
              c,
              subst (λ bytes. AreSegments mss sequence is_fin (i + 1) bytes segs)
                  (drop_part i mss payload) rest,
            ),
            Moved-trans (advance-Moved s recv_next) m,
          )
      | inr over ↦ (
        s,
        [],
        rw over refl,
        drop_beyond (i * mss) payload (ground (arith, commuted i mss)),
        Moved-refl s,
      )
    ]

none_dropped : (xs : List ℕ) (mss : ℕ) → drop (0 * mss) xs ≡ xs
none_dropped xs mss = let e : 0 * mss ≡ 0 = omega arith in rw e refl

-- Where every packet can be sent and the MTU exceeds the headers, the loop ends, and the segments
-- hold the whole payload in its order: each starts at the sequence of its part and is full but for
-- the last. Every segment has the FIN flag if one is asked for, and not only the last. Nothing but the sequence changes.
pub send_tcp_ack_raw_run :
    (local_mtu : ℕ) (src_mtu : Option ℕ) (s : TcpTxState) (sequence : ℕ) (payload : List ℕ)
    (is_fin : Bool)
    → 40 < mtu_of local_mtu src_mtu
    → length payload ≤ u32_max
    → (s' : TcpTxState) × (segs : List Segment) × (send_tcp_ack_raw local_mtu src_mtu s sequence
          payload is_fin
          (λ i. ok tt)
        ≡ done (s', segs, ok tt))
      × AreSegments (mtu_of local_mtu src_mtu - 40) sequence is_fin 0 payload segs
      × Moved s s'
unfolding send_tcp_ack_raw
send_tcp_ack_raw_run local_mtu src_mtu s sequence payload is_fin p k =
    let mss = mtu_of local_mtu src_mtu - 40 in
    let (s', segs, e, a, m) =
      send_segments_run (suc (length payload)) local_mtu mss s 0 sequence payload is_fin
        (omega arith) k (omega arith) in
    (
      s',
      segs,
      rw (le→ltb (mtu_of local_mtu src_mtu) 40 (omega arith), e) refl,
      subst (λ bytes. AreSegments mss sequence is_fin 0 bytes segs) (none_dropped payload mss) a,
      m,
    )
