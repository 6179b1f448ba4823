-- ===== src/Cache/Ring.antt =====
-- The code on the ring buffer that `Queue` and `Window` of src/cache/mod.rs share word for word.
pub mod Slices
pub mod Contents
pub mod Take
pub mod Put
pub mod Extend
use pcap2socks.Base.{
  ℕ, ◌+◌, ◌-◌, ltb, leb, if◌then◌else◌, min, List, ◌++◌, length, take, drop, resize, replicate, Run,
  done, ◌>>=◌, sub, slice, write, copy_within, usize_max,
}

-- The index `offset` bytes after `head` in a buffer of `len` bytes.
unfoldable pub ring_index : ℕ → ℕ → ℕ → ℕ
ring_index len head offset =
    let tmp =
      if ltb usize_max (head + offset) then offset - (usize_max - head) else head + offset in
    if ltb tmp len then tmp else tmp - len

-- The buffer grown to `new_len`, with the part that had gone round moved behind the old end.
pub extend_buffer : List ℕ → ℕ → ℕ → ℕ → Run (List ℕ)
extend_buffer buffer head prev_tail new_len =
    if leb prev_tail head
    then (do
      room ← sub new_len (length buffer)
      let len_a = min prev_tail room
      grown ← copy_within (resize buffer new_len 0) 0 len_a (length buffer)
      len_b ← sub prev_tail len_a
      if ltb 0 len_b then copy_within grown len_a (len_a + len_b) 0 else done grown)
    else done (resize buffer new_len 0)

-- The payload copied in from `tail` on, going round at the end.
pub put_payload : List ℕ → ℕ → List ℕ → Run (List ℕ)
put_payload buffer tail payload = do
  room ← sub (length buffer) tail
  let len_a = min room (length payload)
  first ← slice payload 0 len_a
  filled ← write buffer tail (tail + len_a) first
  len_b ← sub (length payload) len_a
  if ltb 0 len_b
      then (do rest ← slice payload len_a (length payload); write filled 0 len_b rest)
      else done filled

-- `size` bytes copied out from `head` on, going round at the end.
pub take_payload : List ℕ → ℕ → ℕ → Run (List ℕ)
take_payload buffer head size = do
  room ← sub (length buffer) head
  let len_a = min size room
  first ← slice buffer head (head + len_a)
  filled ← write (replicate size 0) 0 len_a first
  len_b ← sub size len_a
  if ltb 0 len_b
      then (do rest ← slice buffer 0 len_b; write filled len_a size rest)
      else done filled

-- The bytes that a ring buffer holds: `size` of them from `head` on, going round at the end.
abbrev pub contents_of : List ℕ → ℕ → ℕ → List ℕ
contents_of buffer head size = take size (drop head buffer ++ take head buffer)
