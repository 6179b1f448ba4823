-- ===== src/Cache/Ring/Contents.antt =====
-- The bytes that a ring buffer holds, index by index.
use pcap2socks.Base.{
  ℕ, ◌+◌, ◌-◌, ◌≤◌, ◌<◌, ◌≡◌, sym, ◌∙◌, ltb, if◌then◌else◌, List, ◌++◌, length, take, drop, get_or,
  arith, usize_max, length-take, length-drop, length-append, get_or-append, get_or-take,
  get_or-drop, ext_get_or,
}
use pcap2socks.Cache.Ring.{ring_index, contents_of}

-- The index `i` bytes after `head`, where nothing overflows.
abbrev pub wrap_index : ℕ → ℕ → ℕ → ℕ
wrap_index len head i = if ltb (head + i) len then head + i else head + i - len

pub ring_index-eq-wrap_index :
    (len head i : ℕ) → head + i ≤ usize_max → ring_index len head i ≡ wrap_index len head i
unfolding ring_index
ring_index-eq-wrap_index len head i h = ground arith

module _ (buffer : List ℕ) (head size : ℕ) (h : head ≤ length buffer) where
  pub length-contents_of : size ≤ length buffer → length (contents_of buffer head size) ≡ size
  length-contents_of k = omega (
    arith,
    length-take size (drop head buffer ++ take head buffer),
    length-append (drop head buffer) (take head buffer),
    length-take head buffer,
    length-drop head buffer,
  )

  pub get_or-contents_of :
      (i : ℕ)
      → i < size
      → size ≤ length buffer
      → get_or (contents_of buffer head size) i 0
        ≡ get_or buffer (wrap_index (length buffer) head i) 0
  get_or-contents_of i p k = ground (
    arith,
    get_or-take size (drop head buffer ++ take head buffer) i 0,
    get_or-append (drop head buffer) (take head buffer) i 0,
    length-drop head buffer,
    get_or-drop head buffer i 0,
    get_or-take head buffer (i - (length buffer - head)) 0,
  )

  -- A list is the contents if it agrees with the buffer index by index.
  pub eq-contents_of :
      (ys : List ℕ)
      → size ≤ length buffer
      → length ys ≡ size
      → ((i : ℕ) → i < size → get_or ys i 0 ≡ get_or buffer (wrap_index (length buffer) head i) 0)
      → ys ≡ contents_of buffer head size
  eq-contents_of ys k l f =
      ext_get_or 0 ys _ (l ∙ sym (length-contents_of k))
        (λ i p. f i (omega arith) ∙ sym (get_or-contents_of i (omega arith) k))

-- A part of the contents is the contents of the part of the ring.
pub contents_of-drop :
    (buffer : List ℕ) (head size d n : ℕ)
    → head ≤ length buffer
    → size ≤ length buffer
    → d + n ≤ size
    → contents_of buffer (wrap_index (length buffer) head d) n
      ≡ take n (drop d (contents_of buffer head size))
contents_of-drop buffer head size d n h k e =
    let c = contents_of buffer head size in
    let lc = length-contents_of buffer head size h k in
    sym (
      eq-contents_of buffer (wrap_index (length buffer) head d) n (ground arith) (take n (drop d c))
        (omega arith) (omega (arith, length-take n (drop d c), length-drop d c))
        (λ i p. ground (
          arith,
          get_or-take n (drop d c) i 0,
          get_or-drop d c i 0,
          get_or-contents_of buffer head size h (d + i),
        )))
