-- ===== src/Cache/Queue/Release.antt =====
-- `Queue::invalidate_to`: the acknowledged bytes are dropped from the front.
use native.Mathlib.Nat.{mod-eq_of_lt, mod-eq-sub-mod}
use pcap2socks.Base.{
  ℕ, ◌+◌, ◌-◌, ◌%◌, ◌≤◌, ◌<◌, ◌≡◌, refl, sym, ◌∙◌, ap, ltb, ◌==◌, length, drop, done, none, Option,
  arith, u32_max, Bool-cases, inl, inr, le→ltb, le→leb, lt→leb, false, length-drop, take_of_length,
  drop_beyond,
}
use pcap2socks.Timer.{Duration}
use pcap2socks.Sequence.{seq_sub, max_window_size}
use pcap2socks.Cache.Ring.{contents_of}
use pcap2socks.Cache.Ring.Contents.{wrap_index, contents_of-drop, length-contents_of}
use pcap2socks.Cache.Queue.{Queue, advance_head, released, invalidate_to, contents}
use pcap2socks.Cache.Queue.Valid.{IsValid}

-- The head moves round the ring by the bytes dropped.
advance_head_run :
    {q : Queue} (n : ℕ)
    → IsValid q
    → n < q.size
    → advance_head q n (q.size - n) ≡ done (wrap_index (length q.buffer) q.head n)
unfolding advance_head
advance_head_run {q} n v h =
    let len = length q.buffer in
    let left : (q.size - n == 0) ≡ false = ground arith in
    let full : (length q.buffer == 0) ≡ false = ground arith in
    let part : n % length q.buffer ≡ n = mod-eq_of_lt (omega arith) in
    rw (left, full, part, le→ltb 18446744073709551615 (q.head + n) (omega arith))
      (ap done (
        ground (
          arith,
          mod-eq_of_lt {n = q.head + n} {m = len},
          mod-eq-sub-mod {n = q.head + n} {m = len},
          mod-eq_of_lt {n = q.head + n - len} {m = len},
        )))

-- The queue after the first `n` bytes are dropped, up to `sequence`.
pub record IsReleased (q : Queue) (to n : ℕ) (q' : Queue) : Type 0 where
  pub valid : IsValid q'
  pub bytes : contents q' ≡ drop n (contents q)
  pub sequence : q'.sequence ≡ to
  pub size : q'.size ≡ q.size - n
  pub capacity : q'.capacity ≡ q.capacity

contents-released :
    {q : Queue} (n : ℕ)
    → IsValid q
    → n < q.size
    → contents_of q.buffer (wrap_index (length q.buffer) q.head n) (q.size - n)
      ≡ drop n (contents q)
contents-released {q} n v h =
    let lc = length-contents_of q.buffer q.head q.size v.head_in v.size_in in
    contents_of-drop q.buffer q.head q.size n (q.size - n) v.head_in v.size_in (omega arith)
    ∙ take_of_length (drop n (contents q)) (q.size - n) (omega (arith, length-drop n (contents q)))

-- An acknowledgement at most a window ahead drops the bytes before it, all of them if it lies
-- beyond the last; nothing panics, and the queue stays valid.
pub invalidate_to_run :
    {q : Queue} (sequence n now : ℕ)
    → IsValid q
    → sequence ≤ u32_max
    → seq_sub sequence q.sequence ≡ n
    → n ≤ max_window_size
    → (q' : Queue) × (rtt : Option Duration) × (invalidate_to q sequence now ≡ done (q', rtt))
      × IsReleased q sequence n q'
unfolding invalidate_to
invalidate_to_run {q} sequence n now v s e h = elim (Bool-cases (ltb n q.size)) [
  | inl p ↦
      let (q', rtt) =
        released q sequence (wrap_index (length q.buffer) q.head n) (q.size - n) now in
      (
        q',
        rtt,
        rw (e, le→leb n max_window_size h, advance_head_run n v (ground arith)),
        record {
          valid = ground arith;
          bytes = contents-released n v (ground arith);
          sequence = refl;
          size = refl;
          capacity = refl;
        },
      )
  | inr p ↦
      let z : q.size - n ≡ 0 = ground arith in
      let lc = length-contents_of q.buffer q.head q.size v.head_in v.size_in in
      let (q', rtt) = released q sequence 0 0 now in
      (
        q',
        rtt,
        rw (e, le→leb n max_window_size h, z) refl,
        record {
          valid = ground arith;
          bytes = sym (drop_beyond n (contents q) (ground arith));
          sequence = refl;
          size = omega arith;
          capacity = refl;
        },
      )
]

-- An acknowledgement from outside the window ahead, an old one among them, changes nothing.
pub invalidate_to-outside :
    (q : Queue) (sequence now : ℕ)
    → max_window_size < seq_sub sequence q.sequence
    → invalidate_to q sequence now ≡ done (q, none)
unfolding invalidate_to
invalidate_to-outside q sequence now h = rw (lt→leb (seq_sub sequence q.sequence) max_window_size h)
