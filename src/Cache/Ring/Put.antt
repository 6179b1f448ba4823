-- ===== src/Cache/Ring/Put.antt =====
-- Copying a payload in behind the contents.
use pcap2socks.Base.{
  ℕ, ◌+◌, ◌-◌, ◌≤◌, ◌<◌, ◌≡◌, sym, ltb, if◌then◌else◌, min, List, ◌++◌, length, get_or, arith, done,
  length-append, get_or-append, Bool-cases, inl, inr, le→ltb, lt→ltb,
}
use pcap2socks.Cache.Ring.{put_payload, contents_of}
use pcap2socks.Cache.Ring.Slices.{slice_run, write_run}
use pcap2socks.Cache.Ring.Contents.{
  wrap_index, length-contents_of, get_or-contents_of, eq-contents_of,
}

-- `zs` is `buffer` with `payload` copied in from `tail` on, each index reached from `tail`.
pub record IsPut (buffer : List ℕ) (tail : ℕ) (payload zs : List ℕ) : Type 0 where
  pub len : length zs ≡ length buffer
  pub at :
      (j : ℕ)
      → j < length buffer
      → get_or zs (wrap_index (length buffer) tail j) 0 ≡ (
          if ltb j (length payload)
          then get_or payload j 0
          else get_or buffer (wrap_index (length buffer) tail j) 0)

module _ (buffer : List ℕ) (tail : ℕ) (payload : List ℕ) (h : tail ≤ length buffer) where
  put_payload-straight :
      length payload ≤ length buffer - tail
      → (zs : List ℕ) × (put_payload buffer tail payload ≡ done zs) × IsPut buffer tail payload zs
  unfolding put_payload
  put_payload-straight k =
      let l = length payload in
      let (f, ef, sf) = slice_run payload 0 l (omega arith) (omega arith) in
      let (g, eg, wg) = write_run buffer tail (tail + l) f (omega arith) (omega arith) in
      let m : min (length buffer - tail) l ≡ l = omega arith in
      (
        g,
        rw (
          le→ltb (length buffer) tail h,
          m,
          ef,
          eg,
          le→ltb l l (omega arith),
          le→ltb 0 (l - l) (omega arith),
        ),
        record {
          len = wg.len;
          at = λ j p. ground (arith, wg.at (wrap_index (length buffer) tail j), sf.at j);
        },
      )

  put_payload-round :
      length payload ≤ length buffer
      → length buffer - tail < length payload
      → (zs : List ℕ) × (put_payload buffer tail payload ≡ done zs) × IsPut buffer tail payload zs
  unfolding put_payload
  put_payload-round k q =
      let l = length payload in
      let n : ℕ = length buffer - tail in
      let (f, ef, sf) = slice_run payload 0 n (omega arith) (omega arith) in
      let (g, eg, wg) = write_run buffer tail (tail + n) f (omega arith) (omega arith) in
      let (r, er, sr) = slice_run payload n l (omega arith) (omega arith) in
      let (t, et, wt) = write_run g 0 (l - n) r (omega arith) (omega arith) in
      let m : min n l ≡ n = omega arith in
      (
        t,
        rw (
          le→ltb (length buffer) tail h,
          m,
          ef,
          eg,
          le→ltb l n (omega arith),
          lt→ltb 0 (l - n) (omega arith),
          er,
          et,
        ),
        record {
          len = omega arith;
          at = λ j p. ground (
            arith,
            wg.at (wrap_index (length buffer) tail j),
            wt.at (wrap_index (length buffer) tail j),
            sf.at j,
            sr.at (j - n),
          );
        },
      )

  -- A payload no longer than the buffer goes in, and nothing is out of bounds.
  pub put_payload_run :
      length payload ≤ length buffer
      → (zs : List ℕ) × (put_payload buffer tail payload ≡ done zs) × IsPut buffer tail payload zs
  put_payload_run k = elim (Bool-cases (ltb (length buffer - tail) (length payload))) [
    | inr e ↦ put_payload-straight (ground arith)
    | inl e ↦ put_payload-round k (ground arith)
  ]

-- A payload put in behind the contents extends them.
pub contents_of-put :
    (buffer : List ℕ) (head size : ℕ) (payload zs : List ℕ)
    → head ≤ length buffer
    → size + length payload ≤ length buffer
    → IsPut buffer (wrap_index (length buffer) head size) payload zs
    → contents_of zs head (size + length payload) ≡ contents_of buffer head size ++ payload
contents_of-put buffer head size payload zs h k w = sym (
    eq-contents_of zs head (size + length payload) (omega (arith, w.len)) _ (omega (arith, w.len))
      (omega (
        arith,
        length-append (contents_of buffer head size) payload,
        length-contents_of buffer head size h (omega arith),
      ))
      (λ i p. ground (
        arith,
        w.len,
        get_or-append (contents_of buffer head size) payload i 0,
        length-contents_of buffer head size h (omega arith),
        get_or-contents_of buffer head size h i,
        w.at (if ltb i size then length buffer - size + i else i - size),
      )))
