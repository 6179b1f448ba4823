-- ===== src/Cache/Ring/Take.antt =====
-- Copying the contents out.
use pcap2socks.Base.{
  ℕ, ◌+◌, ◌-◌, ◌≤◌, ◌<◌, ◌≡◌, ltb, min, List, length, replicate, arith, done, length-replicate,
  Bool-cases, inl, inr, le→ltb, lt→ltb,
}
use pcap2socks.Cache.Ring.{take_payload, contents_of}
use pcap2socks.Cache.Ring.Slices.{slice_run, write_run}
use pcap2socks.Cache.Ring.Contents.{eq-contents_of}

module _ (buffer : List ℕ) (head size : ℕ) (h : head ≤ length buffer) where
  take_payload-straight :
      size ≤ length buffer - head
      → take_payload buffer head size ≡ done (contents_of buffer head size)
  unfolding take_payload
  take_payload-straight k =
      let m : min size (length buffer - head) ≡ size = omega arith in
      let z = length-replicate {0} {A = ℕ} size 0 in
      let (f, ef, sf) = slice_run buffer head (head + size) (omega arith) (omega arith) in
      let (g, eg, wg) = write_run (replicate size 0) 0 size f (omega arith) (omega arith) in
      let same : g ≡ contents_of buffer head size =
        eq-contents_of buffer head size h g (omega arith) (omega arith)
          (λ i p. ground (arith, sf.at i, wg.at i)) in
      rw (
        le→ltb (length buffer) head h,
        m,
        ef,
        eg,
        le→ltb size size (omega arith),
        le→ltb 0 (size - size) (omega arith),
        same,
      )

  take_payload-round :
      size ≤ length buffer
      → length buffer - head < size
      → take_payload buffer head size ≡ done (contents_of buffer head size)
  unfolding take_payload
  take_payload-round k q =
      let n : ℕ = length buffer - head in
      let m : min size n ≡ n = omega arith in
      let z = length-replicate {0} {A = ℕ} size 0 in
      let (f, ef, sf) = slice_run buffer head (head + n) (omega arith) (omega arith) in
      let (g, eg, wg) = write_run (replicate size 0) 0 n f (omega arith) (omega arith) in
      let (r, er, sr) = slice_run buffer 0 (size - n) (omega arith) (omega arith) in
      let (t, et, wt) = write_run g n size r (omega arith) (omega arith) in
      let same : t ≡ contents_of buffer head size =
        eq-contents_of buffer head size h t k (omega arith)
          (λ i p. ground (arith, sf.at i, wg.at i, sr.at (i - n), wt.at i)) in
      rw (
        le→ltb (length buffer) head h,
        m,
        ef,
        eg,
        le→ltb size n (omega arith),
        lt→ltb 0 (size - n) (omega arith),
        er,
        et,
        same,
      )

  -- Copying out yields the contents, and nothing is out of bounds.
  pub take_payload-eq-done :
      size ≤ length buffer → take_payload buffer head size ≡ done (contents_of buffer head size)
  take_payload-eq-done k = elim (Bool-cases (ltb (length buffer - head) size)) [
    | inr e ↦ take_payload-straight (ground arith)
    | inl e ↦ take_payload-round k (ground arith)
  ]
