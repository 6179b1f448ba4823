-- ===== src/Cache/Window.antt =====
-- `Window` of src/cache/mod.rs: the receive window of a TCP connection, a ring buffer with the
-- ranges of it that are filled.
pub mod Edges
pub mod Laws
pub mod Merge
mod Tests
use pcap2socks.Base.{
  ℕ, ◌+◌, ◌-◌, ◌*◌, ◌/◌, ◌≤◌, ltb, leb, ◌==◌, if◌then◌else◌, min, max, Bool, Option, none, some,
  List, [], ◌∷◌, length, map, Run, done, panic, ◌>>=◌, sub, add_usize, mul_usize, rem, slice,
  unwrap, Result, ok, err, other, as_u32, u32_max,
}
use pcap2socks.Sequence.{seq_add, seq_sub, max_window_size}
use pcap2socks.Cache.Ring.{ring_index, extend_buffer, put_payload, take_payload, contents_of}
use Edges.{EdgeMap, insert_range, first_edge, remove, shift_keys}

pub record Window : Type 0 where
  pub buffer : List ℕ
  pub capacity : ℕ
  pub sequence : ℕ
  pub head : ℕ
  pub size : ℕ
  pub edges : EdgeMap

unfoldable pub with_capacity : ℕ → ℕ → Window
with_capacity capacity sequence = record {
  buffer = [];
  capacity = capacity;
  sequence = sequence;
  head = 0;
  size = 0;
  edges = [];
}

unfoldable pub remaining : Window → Run ℕ
remaining w = sub w.capacity w.size

unfoldable pub tail : Window → ℕ
unfolding ring_index
tail w = ring_index (length w.buffer) w.head w.size

unfoldable pub recv_next : Window → ℕ
recv_next w = seq_add w.sequence (as_u32 w.size)

unfoldable pub is_empty : Window → Bool
is_empty w = w.size == 0

-- The distance from the window to the end of a payload that starts outside it. Where the end lies
-- before the window, the closure takes the payload's own sequence.
overlap : Window → ℕ → ℕ → Run ℕ
overlap w sequence recv =
    if ltb recv w.sequence
    then (if ltb u32_max (sequence + (u32_max - recv))
        then panic
        else done (sequence + (u32_max - recv)))
    else done (recv - w.sequence)

-- The part of a payload from the window's sequence on, with its sequence and its offset; `none` for
-- a payload that ends there.
trim : Window → ℕ → List ℕ → Run (Option (ℕ × List ℕ × ℕ))
unfolding overlap
trim w sequence payload =
    let offset = seq_sub sequence w.sequence in
    if ltb max_window_size offset
    then (do
      over ← overlap w sequence (seq_add sequence (as_u32 (length payload)))
      if ltb 0 over
          then (do
            skip ← sub w.sequence sequence
            rest ← slice payload skip (length payload)
            done (some (w.sequence, rest, 0)))
          else done none)
    else done (some (sequence, payload, offset))

-- The buffer with room for `size` bytes from the head on.
grow : Window → ℕ → Run (List ℕ)
grow w size =
    if ltb (length w.buffer) size
    then (do
      tripled ← mul_usize (length w.buffer) 3
      extend_buffer w.buffer w.head (tail w) (min w.capacity (max (tripled / 2) size)))
    else done w.buffer

-- The expected size, which grows to the end of the furthest payload.
extended_size : Window → ℕ → ℕ → ℕ
extended_size w sequence len =
    let further = seq_sub (seq_add sequence (as_u32 len)) (seq_add w.sequence (as_u32 w.size)) in
    if leb further max_window_size then w.size + further else w.size

-- The window after the range at its sequence is taken out, and the bytes of that range.
pop_range : Window → EdgeMap → ℕ → Run (Window × Result (Option (List ℕ)))
pop_range w edges size = do
  shifted ← (if ltb (u32_max - w.sequence) size then shift_keys edges else done edges)
  payload ← take_payload w.buffer w.head size
  part ← rem size (length w.buffer)
  moved ← add_usize w.head part
  head ← rem moved (length w.buffer)
  left ← sub w.size (length payload)
  let sequence = seq_add w.sequence (as_u32 size)
  done (
    record w { edges = shifted; sequence = sequence; head = head; size = left },
    ok (some payload),
  )

-- The first range is popped if it starts at the window's sequence.
pop_first : Window → Run (Window × Result (Option (List ℕ)))
unfolding pop_range
pop_first w = do
  (key, size) ← unwrap (first_edge w.edges)
  if as_u32 key == w.sequence then pop_range w (remove key w.edges) size else done (w, ok none)

-- A trimmed payload goes into the buffer and into the ranges.
store : Window → ℕ → List ℕ → ℕ → Run (Window × Result (Option (List ℕ)))
unfolding grow extended_size pop_first
store w sequence payload offset = do
  size ← add_usize offset (length payload)
  if ltb w.capacity size then done (w, err other) else (do
    grown ← grow w size
    filled ← put_payload grown (ring_index (length grown) w.head offset) payload
    pop_first (record w {
      buffer = filled;
      size = extended_size w sequence (length payload);
      edges = insert_range w.edges w.sequence sequence (length payload);
    }))

pub append : Window → ℕ → List ℕ → Run (Window × Result (Option (List ℕ)))
unfolding trim store
append w sequence payload = do
  trimmed ← trim w sequence payload
  elim trimmed [ none ↦ done (w, ok none) | some (s, rest, offset) ↦ store w s rest offset ]

-- A range as its two sequences, the offset for a wrapped key taken off.
filled_range : ℕ × ℕ → ℕ × ℕ
filled_range (key, size) =
    let begin = if ltb key u32_max then as_u32 key else as_u32 (key - u32_max) in
    (begin, seq_add begin (as_u32 size))

unfoldable pub filled : Window → List (ℕ × ℕ)
unfolding filled_range
filled w = map filled_range w.edges
