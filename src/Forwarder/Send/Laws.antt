-- ===== src/Forwarder/Send/Laws.antt =====
-- The flow control of `send_tcp_ack`, and its FIN.
use pcap2socks.Base.{
  ℕ, ◌-◌, ◌≤◌, ◌≡◌, refl, ltb, ◌==◌, min, max, Bool, true, false, ◌&&◌, not, Bool-cases, inl, inr,
  Option, none, [], ◌∷◌, length, take, done, ok, arith, u16_max, le→ltb,
}
use pcap2socks.Timer.{Instant}
use pcap2socks.Cache.Queue
use pcap2socks.Cache.Queue.{Queue}
use pcap2socks.Cache.Queue.Valid
use pcap2socks.Tcp.Tx.{TcpTxState, append_cache_fin, update_fin_timer}
use pcap2socks.Tcp.Tx.Valid as Tx
use pcap2socks.Tcp.Tx.Valid.{append_cache_fin-IsValid, buffers-IsValid}
use pcap2socks.Tcp.Tx.Stream.{stream, append_cache-stream}
use pcap2socks.Forwarder.Segments.{mtu_of, get_tcp_window}
use pcap2socks.Forwarder.Packet.{pure_fin, send_tcp_fin}
use pcap2socks.Forwarder.Send.{send_size, take_data, send_tcp_ack}

send_size_bounds :
    (local_mtu : ℕ) (src_mtu : Option ℕ) (s : TcpTxState)
    → 40 ≤ mtu_of local_mtu src_mtu
    → (n : ℕ) × (send_size local_mtu src_mtu s ≡ done n)
      × (n ≤ s.send_window - s.cache.size)
      × (n ≤ length s.queue)
unfolding send_size
send_size_bounds local_mtu src_mtu s h =
    let mss = mtu_of local_mtu src_mtu - 40 in
    let room = min (min (s.send_window - s.cache.size) u16_max) (length s.queue) in
    elim (Bool-cases (ltb room mss && not (Queue.is_empty s.cache))) [
      | inl e ↦ (0, rw (le→ltb (mtu_of local_mtu src_mtu) 40 h, e) refl, omega arith, omega arith)
      | inr e ↦
          (room, rw (le→ltb (mtu_of local_mtu src_mtu) 40 h, e) refl, omega arith, omega arith)
    ]

-- With a valid cache whose capacity is not below the source's window, and an MTU that holds the
-- headers, taking data for sending does not panic or fail, and takes a prefix of the queue. The
-- bytes in flight are then at most as many as the window allows, or as before, and the stream is
-- the same, and a valid state stays valid.
pub take_data_run :
    (local_mtu : ℕ) (src_mtu : Option ℕ) (s : TcpTxState) (now : Instant)
    → Valid.IsValid s.cache
    → 40 ≤ mtu_of local_mtu src_mtu
    → s.send_window ≤ s.cache.capacity
    → (n : ℕ) × (s' : TcpTxState) × (fin : Bool) × (send_size local_mtu src_mtu s ≡ done n)
      × (take_data s n now ≡ done (s', ok (take n s.queue, fin)))
      × (s'.cache.size ≤ max s.cache.size s.send_window)
      × (stream s' ≡ stream s)
      × (Tx.IsValid s → Tx.IsValid s')
unfolding take_data append_cache_fin update_fin_timer
take_data_run local_mtu src_mtu s now v h k =
    let (n, e, room, queued) = send_size_bounds local_mtu src_mtu s h in
    let (s', e', w, size, same, rest) =
      append_cache-stream s n now v queued (omega (arith, v.size_in, v.buffer_in)) in
    let kept : Tx.IsValid s → Tx.IsValid s' = λ x. rw rest (buffers-IsValid x w) in
    elim (Bool-cases ((length s'.queue == 0) && s'.queue_fin)) [
      | inl last ↦ (
        n,
        append_cache_fin s' now,
        true,
        e,
        rw (e', last) refl,
        omega (arith, size, room),
        same,
        λ x. append_cache_fin-IsValid (kept x) now,
      )
      | inr more ↦ (n, s', false, e, rw (e', more) refl, omega (arith, size, room), same, kept)
    ]

-- With no SYN pending, nothing in flight and the source's window closed, a queued FIN is sent at
-- once and alone, and the queue, whose bytes come before it, stays as it is.
pub fin_overtakes :
    (local_mtu : ℕ) (src_mtu : Option ℕ) (s : TcpTxState) (now : Instant)
    → s.cache_syn ≡ none
    → s.send_window ≡ 0
    → s.cache.size ≡ 0
    → s.queue_fin ≡ true
    → (s' : TcpTxState) × (send_tcp_ack local_mtu src_mtu s now (λ i. ok tt)
        ≡ done (s', pure_fin s.sequence s.acknowledgement (get_tcp_window local_mtu s) ∷ [], ok tt))
      × (s'.queue ≡ s.queue)
      × (s'.queue_fin ≡ false)
unfolding send_tcp_ack send_tcp_fin append_cache_fin update_fin_timer get_tcp_window Queue.is_empty
fin_overtakes local_mtu src_mtu s now a b c d =
    (append_cache_fin s now, rw (a, b, d, c) refl, refl, refl)
