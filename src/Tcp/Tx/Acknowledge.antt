-- ===== src/Tcp/Tx/Acknowledge.antt =====
-- `TcpTxState::acknowledge`: an acknowledgement from the source.
use pcap2socks.Base.{
  ℕ, ◌≤◌, ◌≡◌, refl, sym, ◌∙◌, ap, leb, if◌then◌else◌, Bool-cases, inl, inr, Option, none, some,
  List, drop, done, arith, u32_max,
}
use pcap2socks.Sequence.{seq_add, seq_sub, max_window_size}
use pcap2socks.Sequence.Laws.{seq_bounds}
use pcap2socks.Timer.{Timer, Instant, Duration}
use pcap2socks.Cache.Queue
use pcap2socks.Cache.Queue.{Queue}
use pcap2socks.Cache.Queue.Valid
use pcap2socks.Cache.Queue.Release.{invalidate_to_run, invalidate_to-outside}
use pcap2socks.Tcp.Tx.{
  TcpTxState, acknowledge, acknowledge_syn, acknowledge_fin, apply_rtt, or_else,
}
use pcap2socks.Tcp.Tx.Rto.{update_rto_run}
use pcap2socks.Tcp.Tx.Valid.{IsValid}

-- What a measured RTT leaves alone.
record SameStream (s s' : TcpTxState) : Type 0 where
  cache : s'.cache ≡ s.cache
  queue : s'.queue ≡ s.queue
  sequence : s'.sequence ≡ s.sequence
  syn : s'.cache_syn ≡ s.cache_syn
  fin : s'.cache_fin ≡ s.cache_fin
  acknowledgement : s'.acknowledgement ≡ s.acknowledgement

apply_rtt_run :
    {s : TcpTxState} (rtt : Option Duration)
    → IsValid s
    → (s' : TcpTxState) × (apply_rtt s rtt ≡ done s') × IsValid s' × SameStream s s'
unfolding apply_rtt
apply_rtt_run {s} none v = (
  s,
  refl,
  v,
  record {
    cache = refl;
    queue = refl;
    sequence = refl;
    syn = refl;
    fin = refl;
    acknowledgement = refl;
  },
)
apply_rtt_run {s} (some rtt) v =
    let (a, b, c, e, f, g) = update_rto_run s rtt v.timed in
    (
      record s { rto = c; srtt = some a; rttvar = some b },
      f,
      ground arith,
      record {
        cache = refl;
        queue = refl;
        sequence = refl;
        syn = refl;
        fin = refl;
        acknowledgement = refl;
      },
    )

-- The sequence after an acknowledgement: one further for a SYN or a FIN that it covers.
abbrev pub after_syn : TcpTxState → Option Instant → ℕ → ℕ
after_syn s none sequence = s.sequence
after_syn s (some t) sequence =
    if leb (seq_sub sequence s.sequence) max_window_size then seq_add s.sequence 1 else s.sequence

record IsOpened (s : TcpTxState) (syn : Option Instant) (to : ℕ) (s' : TcpTxState) : Type 0 where
  valid : IsValid s'
  sequence : s'.sequence ≡ after_syn s syn to
  cache : s'.cache ≡ s.cache
  queue : s'.queue ≡ s.queue
  fin : s'.cache_fin ≡ s.cache_fin
  acknowledgement : s'.acknowledgement ≡ s.acknowledgement

acknowledge_syn-IsOpened :
    {s : TcpTxState} (syn : Option Instant) (to : ℕ) (now : Instant)
    → IsValid s
    → IsOpened s syn to (acknowledge_syn s syn to now).0
unfolding acknowledge_syn
acknowledge_syn-IsOpened none to now v = ground arith
acknowledge_syn-IsOpened {s} (some t) to now v = ground (arith, seq_bounds s.sequence 1)

-- A FIN is covered by an acknowledgement of all the bytes before it.
abbrev pub after_fin : ℕ → Option Timer → Queue → ℕ → ℕ
after_fin sequence none cache to = sequence
after_fin sequence (some t) cache to =
    if leb (seq_sub to (Queue.recv_next cache)) max_window_size
    then seq_add sequence 1
    else sequence

record IsClosed (s : TcpTxState) (fin : Option Timer) (to : ℕ) (s' : TcpTxState) : Type 0 where
  valid : IsValid s'
  sequence : s'.sequence ≡ after_fin s.sequence fin s.cache to
  cache : s'.cache ≡ s.cache
  queue : s'.queue ≡ s.queue
  acknowledgement : s'.acknowledgement ≡ s.acknowledgement

acknowledge_fin-IsClosed :
    {s : TcpTxState} (fin : Option Timer) (to : ℕ) (rtt : Option Duration) (now : Instant)
    → IsValid s
    → IsClosed s fin to (acknowledge_fin s fin to rtt now).0
unfolding acknowledge_fin
acknowledge_fin-IsClosed none to rtt now v = ground arith
acknowledge_fin-IsClosed {s} (some t) to rtt now v = ground (arith, seq_bounds s.sequence 1)

-- The bytes of the cache that an acknowledgement leaves.
abbrev pub left_by : Queue → ℕ → List ℕ
left_by cache to =
    let n = seq_sub to cache.sequence in
    if leb n max_window_size then drop n (Queue.contents cache) else Queue.contents cache

invalidated :
    {q : Queue} (to now : ℕ)
    → Valid.IsValid q
    → to ≤ u32_max
    → (q' : Queue) × (rtt : Option Duration) × (Queue.invalidate_to q to now ≡ done (q', rtt))
      × Valid.IsValid q'
      × (Queue.contents q' ≡ left_by q to)
      × (q'.capacity ≡ q.capacity)
invalidated {q} to now v h = elim (Bool-cases (leb (seq_sub to q.sequence) max_window_size)) [
  | inl near ↦
      let (q', rtt, e, r) =
        invalidate_to_run to (seq_sub to q.sequence) now v h refl (ground arith) in
      (q', rtt, e, r.valid, r.bytes ∙ rw near refl, r.capacity)
  | inr far ↦ (q, none, invalidate_to-outside q to now (ground arith), v, rw far refl, refl)
]

after_fin_eq :
    {a a' : ℕ} {f f' : Option Timer} {q q' : Queue} (to : ℕ)
    → a ≡ a'
    → f ≡ f'
    → q ≡ q'
    → after_fin a f q to ≡ after_fin a' f' q' to
after_fin_eq to x y z = λ i. after_fin (x i) (y i) (z i) to

-- An acknowledgement does not panic, and keeps the state valid. It drops from the cache the bytes
-- before it if it lies in the window, leaves the queue, the capacity and the own acknowledgement
-- alone, and moves the sequence by one for a pending SYN and by one for a pending FIN that it covers.
pub acknowledge_run :
    {s : TcpTxState} (to : ℕ) (now : Instant)
    → IsValid s
    → to ≤ u32_max
    → (s' : TcpTxState) × (acknowledge s to now ≡ done s')
      × IsValid s'
      × (Queue.contents s'.cache ≡ left_by s.cache to)
      × (s'.queue ≡ s.queue)
      × (s'.acknowledgement ≡ s.acknowledgement)
      × (s'.sequence ≡ after_fin (after_syn s s.cache_syn to) s.cache_fin s'.cache to)
      × (s'.cache.capacity ≡ s.cache.capacity)
unfolding acknowledge
acknowledge_run {s} to now v h =
    let (opened, syn_rtt) = acknowledge_syn s s.cache_syn to now in
    let o = acknowledge_syn-IsOpened s.cache_syn to now v in
    let (q, cache_rtt, e, w, b, cap) = invalidated {q = opened.cache} to now o.valid.cache h in
    let cleared : TcpTxState = record opened { cache = q } in
    let u : IsValid cleared = record {
      cache = w;
      sequence_in = o.valid.sequence_in;
      acknowledgement_in = o.valid.acknowledgement_in;
      rto_low = o.valid.rto_low;
      rto_high = o.valid.rto_high;
      timed = o.valid.timed;
      sacks = o.valid.sacks;
    } in
    let (closed, rtt) =
      acknowledge_fin cleared cleared.cache_fin to (or_else syn_rtt cache_rtt) now in
    let c = acknowledge_fin-IsClosed cleared.cache_fin to (or_else syn_rtt cache_rtt) now u in
    let (s', e', v', m) = apply_rtt_run rtt c.valid in
    (
      s',
      rw e e',
      v',
      rw (m.cache, c.cache) (b ∙ ap (λ k. left_by k to) o.cache),
      m.queue ∙ c.queue ∙ o.queue,
      m.acknowledgement ∙ c.acknowledgement ∙ o.acknowledgement,
      m.sequence ∙ c.sequence ∙ after_fin_eq to o.sequence o.fin (sym (m.cache ∙ c.cache)),
      rw (m.cache, c.cache) (cap ∙ ap (λ k. k.capacity) o.cache),
    )
