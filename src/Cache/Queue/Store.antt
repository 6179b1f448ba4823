-- ===== src/Cache/Queue/Store.antt =====
-- `Queue::append`: the bytes go behind the contents, or nothing changes.
use pcap2socks.Base.{
  ℕ, ◌+◌, ◌-◌, ◌*◌, ◌/◌, ◌≤◌, ◌<◌, ◌≡◌, refl, ◌∙◌, ap, ltb, min, max, List, [], ◌∷◌, ◌++◌, length,
  done, ok, err, other, arith, Bool-cases, inl, inr, le→ltb, lt→ltb,
}
use pcap2socks.Timer
use pcap2socks.Timer.{Timer}
use pcap2socks.Cache.Ring.{ring_index, contents_of}
use pcap2socks.Cache.Ring.Contents.{ring_index-eq-wrap_index}
use pcap2socks.Cache.Ring.Put.{put_payload_run, contents_of-put}
use pcap2socks.Cache.Ring.Extend.{extend_buffer_run}
use pcap2socks.Cache.Queue.{Queue, remaining, tail, recv_next, grow, append, contents}
use pcap2socks.Cache.Queue.Valid.{IsValid}

-- What `grow` returns for a payload that the capacity has room for.
record IsGrown (q : Queue) (payload grown : List ℕ) : Type 0 where
  room : q.size + length payload ≤ length grown
  longer : length q.buffer ≤ length grown
  within : length grown ≤ q.capacity
  same : contents_of grown q.head q.size ≡ contents q

grow-extends :
    {q : Queue} (payload : List ℕ)
    → IsValid q
    → q.size + length payload ≤ q.capacity
    → length q.buffer - q.size < length payload
    → (grown : List ℕ) × (grow q payload ≡ done grown) × IsGrown q payload grown
unfolding grow tail
grow-extends {q} payload v h k =
    let len = length q.buffer in
    let new_len : ℕ = min q.capacity (max (len * 3 / 2) (q.size + length payload)) in
    let (zs, e, x) =
      extend_buffer_run q.buffer q.head q.size new_len (ring_index len q.head q.size) v.head_in
        (ring_index-eq-wrap_index len q.head q.size (omega arith)) v.size_in (omega arith) in
    (
      zs,
      rw (
        le→ltb len q.size v.size_in,
        lt→ltb (len - q.size) (length payload) k,
        le→ltb 18446744073709551615 (len * 3) (omega arith),
        le→ltb 18446744073709551615 (q.size + length payload) (omega arith),
        e,
      ),
      record {
        room = omega (arith, x.len);
        longer = omega (arith, x.len);
        within = omega (arith, x.len);
        same = x.contents;
      },
    )

grow_run :
    {q : Queue} (payload : List ℕ)
    → IsValid q
    → q.size + length payload ≤ q.capacity
    → (grown : List ℕ) × (grow q payload ≡ done grown) × IsGrown q payload grown
unfolding grow
grow_run {q} payload v h = elim (Bool-cases (ltb (length q.buffer - q.size) (length payload))) [
  | inl e ↦ grow-extends payload v h (ground arith)
  | inr e ↦ (
    q.buffer,
    rw (le→ltb (length q.buffer) q.size v.size_in, e),
    record { room = ground arith; longer = omega arith; within = omega arith; same = refl },
  )
]

-- What `append` leaves behind when it succeeds.
pub record IsAppended (q : Queue) (payload : List ℕ) (rto now : ℕ) (q' : Queue) : Type 0 where
  pub valid : IsValid q'
  pub bytes : contents q' ≡ contents q ++ payload
  pub capacity : q'.capacity ≡ q.capacity
  pub sequence : q'.sequence ≡ q.sequence
  pub size : q'.size ≡ q.size + length payload
  pub clocks : q'.clocks ≡ q.clocks ++ ((recv_next q, Timer.new now rto) ∷ [])
  pub retrans : q'.retrans ≡ q.retrans

-- A payload that the remaining capacity holds is appended to the bytes, with one new clock that
-- starts at the old receive next; nothing panics, and the queue stays valid.
pub append_run :
    {q : Queue} (payload : List ℕ) (rto now : ℕ)
    → IsValid q
    → q.size + length payload ≤ q.capacity
    → (q' : Queue) × (append q payload rto now ≡ done (q', ok tt)) × IsAppended q payload rto now q'
unfolding append remaining
append_run {q} payload rto now v h =
    let (grown, e, g) = grow_run payload v h in
    let index =
      ring_index-eq-wrap_index (length grown) q.head q.size (omega (arith, g.room, g.within)) in
    let (zs, e', w) =
      put_payload_run grown (ring_index (length grown) q.head q.size) payload
        (rw index (ground (arith, g.room, g.longer))) (omega (arith, g.room)) in
    let put = rw index at w in
    (
      record q {
        buffer = zs;
        clocks = q.clocks ++ ((recv_next q, Timer.new now rto) ∷ []);
        size = q.size + length payload;
      },
      rw (
        le→ltb q.capacity q.size (omega arith),
        le→ltb (q.capacity - q.size) (length payload) (omega arith),
        e,
        e',
        le→ltb 18446744073709551615 (q.size + length payload) (omega arith),
      ),
      record {
        valid = omega (arith, w.len, g.room, g.within, g.longer);
        bytes =
            contents_of-put grown q.head q.size payload zs (omega (arith, g.longer))
              (omega (arith, g.room)) put
            ∙ ap (λ c. c ++ payload) g.same;
        capacity = refl;
        sequence = refl;
        size = refl;
        clocks = refl;
        retrans = refl;
      },
    )

-- A payload that exceeds the remaining capacity is refused, and the queue is unchanged.
pub append-full :
    {q : Queue} (payload : List ℕ) (rto now : ℕ)
    → IsValid q
    → q.capacity < q.size + length payload
    → append q payload rto now ≡ done (q, err other)
unfolding append remaining
append-full {q} payload rto now v h = rw (
  le→ltb q.capacity q.size (omega arith),
  lt→ltb (q.capacity - q.size) (length payload) (omega arith),
)
