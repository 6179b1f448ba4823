-- ===== src/Cache/Ring/Extend.antt =====
-- Growing the buffer.
use pcap2socks.Base.{
  ℕ, ◌+◌, ◌-◌, ◌≤◌, ◌<◌, ◌≡◌, sym, ◌∙◌, ltb, min, List, length, resize, get_or, arith, done,
  length-resize, get_or-resize, Bool-cases, inl, inr, le→ltb, lt→ltb, lt→leb, le→leb,
}
use pcap2socks.Cache.Ring.{extend_buffer, contents_of}
use pcap2socks.Cache.Ring.Slices.{copy_within_run}
use pcap2socks.Cache.Ring.Contents.{
  wrap_index, length-contents_of, get_or-contents_of, eq-contents_of,
}

-- What `extend_buffer` returns: the longer buffer, with the same contents.
pub record IsExtended (buffer : List ℕ) (head size new_len : ℕ) (zs : List ℕ) : Type 0 where
  pub len : length zs ≡ new_len
  pub contents : contents_of zs head size ≡ contents_of buffer head size

module _ (buffer : List ℕ) (head size new_len tail : ℕ) (h : head ≤ length buffer)
    (t : tail ≡ wrap_index (length buffer) head size) (k : size ≤ length buffer)
    (l : length buffer ≤ new_len) where
  -- The contents of a longer buffer that holds each byte of the contents at its new index.
  is_extended :
      (zs : List ℕ)
      → length zs ≡ new_len
      → ((i : ℕ)
          → i < size
          → get_or zs (wrap_index new_len head i) 0
            ≡ get_or buffer (wrap_index (length buffer) head i) 0)
      → IsExtended buffer head size new_len zs
  is_extended zs e f = record {
    len = e;
    contents = sym (
        eq-contents_of zs head size (omega arith) _ (omega arith)
          (length-contents_of buffer head size h k)
          (λ i p. rw e (get_or-contents_of buffer head size h i p k ∙ sym (f i p))));
  }

  extend_buffer-straight :
      head < tail
      → (zs : List ℕ) × (extend_buffer buffer head tail new_len ≡ done zs)
        × IsExtended buffer head size new_len zs
  unfolding extend_buffer
  extend_buffer-straight q = (
    resize buffer new_len 0,
    rw (lt→leb tail head q),
    is_extended (resize buffer new_len 0) (length-resize buffer new_len 0) (λ i p.
        ground (arith, get_or-resize buffer new_len 0 (wrap_index (length buffer) head i) l)),
  )

  extend_buffer-one_move :
      tail ≤ head
      → tail ≤ new_len - length buffer
      → (zs : List ℕ) × (extend_buffer buffer head tail new_len ≡ done zs)
        × IsExtended buffer head size new_len zs
  unfolding extend_buffer
  extend_buffer-one_move q r =
      let b = resize buffer new_len 0 in
      let lb = length-resize buffer new_len 0 in
      let (f, ef, mf) =
        copy_within_run b 0 tail (length buffer) (omega arith) (omega arith) (omega arith) in
      let m : min tail (new_len - length buffer) ≡ tail = omega arith in
      (
        f,
        rw (
          le→leb tail head q,
          le→ltb new_len (length buffer) l,
          m,
          ef,
          le→ltb tail tail (omega arith),
          le→ltb 0 (tail - tail) (omega arith),
        ),
        is_extended f (omega (arith, mf.len)) (λ i p. ground (
          arith,
          mf.at (wrap_index new_len head i),
          get_or-resize buffer new_len 0 (wrap_index (length buffer) head i) l,
        )),
      )

  extend_buffer-two_moves :
      tail ≤ head
      → new_len - length buffer < tail
      → (zs : List ℕ) × (extend_buffer buffer head tail new_len ≡ done zs)
        × IsExtended buffer head size new_len zs
  unfolding extend_buffer
  extend_buffer-two_moves q r =
      let b = resize buffer new_len 0 in
      let lb = length-resize buffer new_len 0 in
      let n : ℕ = new_len - length buffer in
      let (f, ef, mf) =
        copy_within_run b 0 n (length buffer) (omega arith) (omega arith) (omega arith) in
      let (g, eg, mg) =
        copy_within_run f n (n + (tail - n)) 0 (omega arith) (omega (arith, mf.len))
          (omega (arith, mf.len)) in
      let m : min tail n ≡ n = omega arith in
      (
        g,
        rw (
          le→leb tail head q,
          le→ltb new_len (length buffer) l,
          m,
          ef,
          le→ltb tail n (omega arith),
          lt→ltb 0 (tail - n) (omega arith),
          eg,
        ),
        is_extended g (omega (arith, mf.len, mg.len)) (λ i p. ground (
          arith,
          mg.at (wrap_index new_len head i),
          mf.at (wrap_index new_len head i),
          mf.at (n + wrap_index new_len head i),
          get_or-resize buffer new_len 0 (wrap_index (length buffer) head i) l,
        )),
      )

  -- Growing keeps the contents, and nothing is out of bounds.
  pub extend_buffer_run :
      (zs : List ℕ) × (extend_buffer buffer head tail new_len ≡ done zs)
      × IsExtended buffer head size new_len zs
  extend_buffer_run = elim (Bool-cases (ltb head tail)) [
    | inl e ↦ extend_buffer-straight (ground arith)
    | inr e ↦ elim (Bool-cases (ltb (new_len - length buffer) tail)) [
      | inl e' ↦ extend_buffer-two_moves (ground arith) (ground arith)
      | inr e' ↦ extend_buffer-one_move (ground arith) (ground arith)
    ]
  ]
