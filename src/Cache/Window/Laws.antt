-- ===== src/Cache/Window/Laws.antt =====
-- `Window::append`, branch by branch.
use pcap2socks.Base.{
  ℕ, ◌+◌, ◌-◌, ◌*◌, ◌/◌, ◌%◌, ◌≤◌, ◌<◌, ◌≡◌, refl, ◌∙◌, ap, ltb, ◌==◌, if◌then◌else◌, min, max,
  Bool-cases, inl, inr, List, [], ◌∷◌, length, done, panic, ok, err, other, none, some, arith,
  u32_max, le→ltb, lt→ltb, le→leb, ==_self, true, false, Bool, slice,
}
use pcap2socks.Sequence.{seq_add, seq_sub, max_window_size}
use pcap2socks.Sequence.Laws.{seq_bounds, seq_sub-seq_add}
use pcap2socks.Cache.Ring.{ring_index, contents_of}
use pcap2socks.Cache.Ring.Contents.{wrap_index, ring_index-eq-wrap_index}
use pcap2socks.Cache.Ring.Put.{IsPut, put_payload_run, contents_of-put}
use pcap2socks.Cache.Ring.{put_payload}
use pcap2socks.Cache.Ring.Take.{take_payload-eq-done}
use pcap2socks.Cache.Ring.Extend.{extend_buffer_run}
use pcap2socks.Cache.Window.{
  Window, trim, grow, store, append, pop_first, pop_range, extended_size, tail,
}
use pcap2socks.Cache.Window.Edges.{insert_range, shift_keys, remove, first_edge}

-- A payload that ended before the window's sequence, no more than the window back, is out of
-- bounds of itself: the call panics.
pub append_old_panics :
    (w : Window) (sequence : ℕ) (payload : List ℕ)
    → w.sequence ≤ u32_max
    → sequence + length payload < w.sequence
    → w.sequence - sequence ≤ u32_max - 16777217
    → 0 < length payload
    → append w sequence payload ≡ panic
unfolding append slice seq_sub seq_add
append_old_panics w sequence payload h k m p = ground arith

-- A payload that ends exactly at the window's sequence is ignored.
pub append_just_received :
    (w : Window) (sequence : ℕ) (payload : List ℕ)
    → w.sequence ≤ u32_max
    → sequence + length payload ≡ w.sequence
    → w.sequence - sequence ≤ u32_max - 16777217
    → 0 < length payload
    → append w sequence payload ≡ done (w, ok none)
unfolding append seq_sub seq_add
append_just_received w sequence payload h k m p = ground arith

-- A payload that ends beyond the capacity is refused, and the window is unchanged.
pub append_beyond :
    (w : Window) (sequence : ℕ) (payload : List ℕ)
    → seq_sub sequence w.sequence ≤ max_window_size
    → length payload ≤ u32_max
    → w.capacity < seq_sub sequence w.sequence + length payload
    → append w sequence payload ≡ done (w, err other)
unfolding append
append_beyond w sequence payload h l k = ground arith

-- The invariant of the receive window.
pub record IsValid (w : Window) : Type 0 where
  pub sequence_in : w.sequence ≤ u32_max
  pub capacity_in : w.capacity ≤ u32_max
  pub buffer_in : length w.buffer ≤ w.capacity
  pub size_in : w.size ≤ length w.buffer
  pub head_in : w.head ≤ length w.buffer

grow-extends :
    {w : Window} (size : ℕ)
    → IsValid w
    → size ≤ w.capacity
    → length w.buffer < size
    → (zs : List ℕ) × (grow w size ≡ done zs)
      × (length w.buffer ≤ length zs)
      × (size ≤ length zs)
      × (length zs ≤ w.capacity)
unfolding grow tail
grow-extends {w} size v h k =
    let len = length w.buffer in
    let new_len : ℕ = min w.capacity (max (len * 3 / 2) size) in
    let (zs, e, x) =
      extend_buffer_run w.buffer w.head w.size new_len (ring_index len w.head w.size) v.head_in
        (ring_index-eq-wrap_index len w.head w.size (omega arith)) v.size_in (omega arith) in
    (
      zs,
      rw (lt→ltb len size k, le→ltb 18446744073709551615 (len * 3) (omega arith), e),
      omega (arith, x.len),
      omega (arith, x.len),
      omega (arith, x.len),
    )

grow_run :
    {w : Window} (size : ℕ)
    → IsValid w
    → size ≤ w.capacity
    → (zs : List ℕ) × (grow w size ≡ done zs)
      × (length w.buffer ≤ length zs)
      × (size ≤ length zs)
      × (length zs ≤ w.capacity)
unfolding grow
grow_run {w} size v h = elim (Bool-cases (ltb (length w.buffer) size)) [
  | inl e ↦ grow-extends size v h (ground arith)
  | inr e ↦ (w.buffer, rw e refl, omega arith, ground arith, omega arith)
]

shift_keys_nil : (b : Bool) → (if b then shift_keys [] else done []) ≡ done []
unfolding shift_keys
shift_keys_nil true = refl
shift_keys_nil false = refl

-- The window behind `n` bytes that were delivered, with nothing stored.
pub record IsDelivered (w : Window) (n : ℕ) (w' : Window) : Type 0 where
  pub valid : IsValid w'
  pub sequence : w'.sequence ≡ seq_add w.sequence n
  pub capacity : w'.capacity ≡ w.capacity
  pub empty : w'.size ≡ 0
  pub edges : w'.edges ≡ []

-- A range that fills the ring from the head on, popped.
pop_range_run :
    {w : Window} (payload : List ℕ)
    → IsValid w
    → 0 < length payload
    → length payload ≡ w.size
    → contents_of w.buffer w.head w.size ≡ payload
    → (w' : Window) × (pop_range w [] w.size ≡ done (w', ok (some payload)))
      × IsDelivered w w.size w'
unfolding pop_range
pop_range_run {w} payload v p l e =
    let len = length w.buffer in
    let full : (length w.buffer == 0) ≡ false = ground arith in
    let cast : w.size % 4294967296 ≡ w.size = omega arith in
    let bounds = seq_bounds w.sequence w.size v.sequence_in (omega arith) in
    (
      record w {
        edges = [];
        sequence = seq_add w.sequence w.size;
        head = (w.head + w.size % len) % len;
        size = 0;
      },
      rw
          (
            shift_keys_nil (ltb (u32_max - w.sequence) w.size),
            take_payload-eq-done w.buffer w.head w.size v.head_in v.size_in,
            e,
            full,
            le→ltb 18446744073709551615 (w.head + w.size % len) (omega arith),
            le→ltb w.size (length payload) (omega arith),
            cast,
          )
          (ap
            (λ k. done (
              record w {
                edges = [];
                sequence = seq_add w.sequence w.size;
                head = (w.head + w.size % len) % len;
                size = k;
              },
              ok (some payload),
            ))
            (omega arith)),
      record {
        valid = record {
          sequence_in = bounds.0;
          capacity_in = v.capacity_in;
          buffer_in = v.buffer_in;
          size_in = omega arith;
          head_in = omega arith;
        };
        sequence = refl;
        capacity = refl;
        empty = refl;
        edges = refl;
      },
    )

-- The ranges after the first payload: one, from the window's sequence on.
insert_range_first : (s n : ℕ) → insert_range [] s s n ≡ (s, n) ∷ []
unfolding insert_range
insert_range_first s n = ground arith

seq_sub_self : (s : ℕ) → seq_sub s s ≡ 0
unfolding seq_sub
seq_sub_self s = ground arith

seq_add_zero : (s : ℕ) → s ≤ u32_max → seq_add s 0 ≡ s
unfolding seq_add
seq_add_zero s h = ground arith

extended_size_first :
    (w : Window) (n : ℕ)
    → w.sequence ≤ u32_max
    → w.size ≡ 0
    → n ≤ max_window_size
    → extended_size w w.sequence n ≡ n
unfolding extended_size
extended_size_first w n h z k =
    let cast : n % 4294967296 ≡ n = omega arith in
    let there = seq_sub-seq_add w.sequence n h (omega arith) in
    rw (z, cast, seq_add_zero w.sequence h, there, le→leb n max_window_size k) (omega arith)

contents_of_first :
    (grown : List ℕ) (head : ℕ) (payload zs : List ℕ)
    → head ≤ length grown
    → length payload ≤ length grown
    → IsPut grown (wrap_index (length grown) head 0) payload zs
    → contents_of zs head (length payload) ≡ payload
contents_of_first grown head payload zs h k u =
    let n : length payload ≡ 0 + length payload = omega arith in
    ap (contents_of zs head) n ∙ contents_of-put grown head 0 payload zs h (omega arith) u

pop_first_run :
    {w : Window} (payload : List ℕ)
    → IsValid w
    → 0 < length payload
    → length payload ≡ w.size
    → contents_of w.buffer w.head w.size ≡ payload
    → w.edges ≡ (w.sequence, w.size) ∷ []
    → (w' : Window) × (pop_first w ≡ done (w', ok (some payload))) × IsDelivered w w.size w'
unfolding pop_first first_edge remove
pop_first_run {w} payload v p l c e =
    let cast : w.sequence % 4294967296 ≡ w.sequence = omega (arith, v.sequence_in) in
    let (w', e', r) = pop_range_run {w = w} payload v p l c in
    (w', rw (e, first_edge, remove, cast, ==_self w.sequence) e', r)

append_first :
    {w : Window} (payload grown zs : List ℕ)
    → IsValid w
    → w.size ≡ 0
    → w.edges ≡ []
    → length payload ≤ w.capacity
    → length payload ≤ max_window_size
    → grow w (length payload) ≡ done grown
    → put_payload grown (ring_index (length grown) w.head 0) payload ≡ done zs
    → append w w.sequence payload
      ≡ pop_first (record w {
        buffer = zs;
        size = length payload;
        edges = (w.sequence, length payload) ∷ [];
      })
unfolding append trim store
append_first {w} payload grown zs v z n k m e e' =
    let l = length payload in
    let sum : 0 + l ≡ l = omega arith in
    rw (
      seq_sub_self w.sequence,
      sum,
      le→ltb 18446744073709551615 l (omega arith),
      le→ltb w.capacity l k,
      e,
      e',
      extended_size_first w l v.sequence_in z m,
      n,
      insert_range_first w.sequence l,
    )

-- With nothing stored, a payload at the window's sequence that the capacity holds is returned
-- whole, and the window is empty again, behind it; nothing panics.
pub append_in_order :
    {w : Window} (payload : List ℕ)
    → IsValid w
    → w.size ≡ 0
    → w.edges ≡ []
    → 0 < length payload
    → length payload ≤ w.capacity
    → length payload ≤ max_window_size
    → (w' : Window) × (append w w.sequence payload ≡ done (w', ok (some payload)))
      × IsDelivered w (length payload) w'
unfolding append
append_in_order {w} payload v z n p k m =
    let l = length payload in
    let (grown, e, g1, g2, g3) = grow_run l v k in
    let index = ring_index-eq-wrap_index (length grown) w.head 0 (omega arith) in
    let (zs, e', u) =
      put_payload_run grown (ring_index (length grown) w.head 0) payload (rw index (ground arith))
        (omega arith) in
    let put = rw index at u in
    let stored : Window = record w { buffer = zs; size = l; edges = (w.sequence, l) ∷ [] } in
    let same = contents_of_first grown w.head payload zs (omega arith) g2 put in
    let (w', e'', r) = pop_first_run {w = stored} payload (omega (arith, u.len)) p refl same refl in
    (
      w',
      append_first payload grown zs v z n k m e e' ∙ e'',
      record {
        valid = r.valid;
        sequence = r.sequence;
        capacity = r.capacity;
        empty = r.empty;
        edges = r.edges;
      },
    )
