-- ===== src/Forwarder/Segments/Stall.antt =====
-- Segmentation with an MTU that leaves no room for a byte of data.
use pcap2socks.Base.{
  ℕ, zero, suc, ◌+◌, ◌-◌, ◌*◌, ◌<◌, ◌≡◌, refl, ltb, min, Bool, true, Option, List, [], length, done,
  panic, out_of_fuel, slice-eq-done, ok, take, drop, arith, lt→ltb, leb, ◌&&◌, as_u32,
  if◌then◌else◌,
}
use pcap2socks.Sequence.{seq_add}
use pcap2socks.Tcp.Tx.{TcpTxState}
use pcap2socks.Tcp.Rx.{next_u32}
use pcap2socks.Forwarder.Segments.{
  Segment, get_tcp_window, segment, send_segments, mtu_of, send_tcp_ack_raw,
}

-- A round with room for no byte makes a segment of none.
segment_empty :
    (local_mtu : ℕ) (s : TcpTxState) (i sequence : ℕ) (payload : List ℕ) (is_fin : Bool)
    → (seg : Segment) × (recv_next : ℕ) × (segment local_mtu 0 s i sequence payload is_fin
        ≡ done (seg, recv_next))
      × (seg.payload ≡ [])
unfolding segment
segment_empty local_mtu s i sequence payload is_fin =
    let n = min 0 (length payload - i * 0) in
    let cut = slice-eq-done payload (i * 0) (i * 0 + n) (omega arith) (omega arith) in
    let part = take (i * 0 + n - i * 0) (drop (i * 0) payload) in
    let first = seq_add sequence (as_u32 (i * 0)) in
    let recv_next = seq_add first (as_u32 n) in
    let fin = is_fin && leb (length part) (0 * (i + 1)) in
    let none_taken : i * 0 + n - i * 0 ≡ 0 = omega arith in
    (
      record {
        sequence = first;
        acknowledgement = s.acknowledgement;
        window = get_tcp_window local_mtu s;
        fin = fin;
        payload = part;
      },
      if fin then next_u32 recv_next else recv_next,
      rw cut refl,
      rw none_taken refl,
    )

-- Where every packet can be sent, the loop uses up any fuel.
send_segments_stalls :
    (fuel local_mtu : ℕ) (s : TcpTxState) (i sequence : ℕ) (payload : List ℕ) (is_fin : Bool)
    → 0 < length payload
    → send_segments fuel local_mtu 0 s i sequence payload is_fin (λ j. ok tt) ≡ out_of_fuel
unfolding send_segments
send_segments_stalls zero local_mtu s i sequence payload is_fin p = refl
send_segments_stalls (suc fuel) local_mtu s i sequence payload is_fin p =
    let more : ltb (0 * i) (length payload) ≡ true = ground arith in
    let (seg, recv_next, made, _) = segment_empty local_mtu s i sequence payload is_fin in
    let rest : (s' : TcpTxState)
        → send_segments fuel local_mtu 0 s' (i + 1) sequence payload is_fin (λ j. ok tt)
          ≡ out_of_fuel =
      λ s'. send_segments_stalls fuel local_mtu s' (i + 1) sequence payload is_fin p in
    rw (more, made, rest) refl

-- With an MTU of 40, the size of the headers, and every packet sent, the loop over the segments of
-- a payload that is not empty uses up any fuel: each round is made without a panic, whatever the
-- state of the connection, and its segment holds no byte.
pub send_tcp_ack_raw_stalls :
    (fuel local_mtu : ℕ) (src_mtu : Option ℕ) (s : TcpTxState) (sequence : ℕ) (payload : List ℕ)
    (is_fin : Bool)
    → 0 < length payload
    → mtu_of local_mtu src_mtu ≡ 40
    → (send_segments fuel local_mtu
          (mtu_of local_mtu src_mtu - 40)
          s
          0
          sequence
          payload
          is_fin
          (λ j. ok tt)
        ≡ out_of_fuel)
      × (send_tcp_ack_raw local_mtu src_mtu s sequence payload is_fin (λ j. ok tt) ≡ out_of_fuel)
      × ((s' : TcpTxState) (i : ℕ)
          → (seg : Segment) × (recv_next : ℕ) × (segment local_mtu
                (mtu_of local_mtu src_mtu - 40)
                s'
                i
                sequence
                payload
                is_fin
              ≡ done (seg, recv_next))
            × (seg.payload ≡ []))
unfolding send_tcp_ack_raw
send_tcp_ack_raw_stalls fuel local_mtu src_mtu s sequence payload is_fin p h = rw h (
  send_segments_stalls fuel local_mtu s 0 sequence payload is_fin p,
  send_segments_stalls (suc (length payload)) local_mtu s 0 sequence payload is_fin p,
  λ s' i. segment_empty local_mtu s' i sequence payload is_fin,
)

-- With a smaller one, the MSS is out of range and the call panics.
pub send_tcp_ack_raw_panics :
    (local_mtu : ℕ) (src_mtu : Option ℕ) (s : TcpTxState) (sequence : ℕ) (payload : List ℕ)
    (is_fin : Bool)
    → mtu_of local_mtu src_mtu < 40
    → send_tcp_ack_raw local_mtu src_mtu s sequence payload is_fin (λ j. ok tt) ≡ panic
unfolding send_tcp_ack_raw
send_tcp_ack_raw_panics local_mtu src_mtu s sequence payload is_fin h =
    rw (lt→ltb (mtu_of local_mtu src_mtu) 40 h) refl
