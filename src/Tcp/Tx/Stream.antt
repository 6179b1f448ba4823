-- ===== src/Tcp/Tx/Stream.antt =====
-- The bytes on their way to the source: those sent and kept in the cache, then those queued.
use pcap2socks.Base.{
  ℕ, ◌+◌, ◌≤◌, ◌<◌, ◌≡◌, refl, sym, ◌∙◌, ap, List, ◌++◌, length, take, drop, append_assoc,
  take-append-drop, length-take, done, ok, err, other, arith, le→ltb,
}
use pcap2socks.Cache.Queue
use pcap2socks.Cache.Queue.{Queue}
use pcap2socks.Cache.Queue.Store.{append_run, append-full}
use pcap2socks.Cache.Queue.Valid.{IsValid}
use pcap2socks.Tcp.Tx.{TcpTxState, append_cache, append_queue}

abbrev pub stream : TcpTxState → List ℕ
stream s = Queue.contents s.cache ++ s.queue

-- Bytes handed over for the source go to the end of the stream.
pub stream-append_queue :
    (s : TcpTxState) (payload : List ℕ) → stream (append_queue s payload) ≡ stream s ++ payload
unfolding append_queue
stream-append_queue s payload = sym (append_assoc (Queue.contents s.cache) s.queue payload)

-- Moving `size` queued bytes to a cache with room for them returns those bytes, and changes
-- neither the stream nor its order, nor anything of the state but the two buffers.
pub append_cache-stream :
    (s : TcpTxState) (size now : ℕ)
    → IsValid s.cache
    → size ≤ length s.queue
    → s.cache.size + size ≤ s.cache.capacity
    → (s' : TcpTxState) × (append_cache s size now ≡ done (s', ok (take size s.queue)))
      × IsValid s'.cache
      × (s'.cache.size ≡ s.cache.size + size)
      × (stream s' ≡ stream s)
      × (s' ≡ record s { queue = s'.queue; cache = s'.cache })
unfolding append_cache
append_cache-stream s size now v h k =
    let payload = take size s.queue in
    let l = length-take size s.queue in
    let (cache, e, a) = append_run payload s.rto now v (omega arith) in
    (
      record s { queue = drop size s.queue; cache = cache },
      rw (le→ltb (length s.queue) size h, e) refl,
      a.valid,
      omega (arith, a.size),
      rw a.bytes (
          append_assoc (Queue.contents s.cache) payload (drop size s.queue)
          ∙ ap (λ t. Queue.contents s.cache ++ t) (take-append-drop size s.queue)),
      refl,
    )

-- Where the cache has no room, the call fails, and the bytes are gone from the stream.
pub append_cache-loses :
    (s : TcpTxState) (size now : ℕ)
    → IsValid s.cache
    → size ≤ length s.queue
    → s.cache.capacity < s.cache.size + size
    → (s' : TcpTxState) × (append_cache s size now ≡ done (s', err other))
      × (stream s' ≡ Queue.contents s.cache ++ drop size s.queue)
unfolding append_cache
append_cache-loses s size now v h k =
    let l = length-take size s.queue in
    (
      record s { queue = drop size s.queue },
      rw (le→ltb (length s.queue) size h, append-full (take size s.queue) s.rto now v (omega arith))
          refl,
      refl,
    )
