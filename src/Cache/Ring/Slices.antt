-- ===== src/Cache/Ring/Slices.antt =====
-- What slicing, writing and moving do inside the bounds: they do not panic, and each index of the
-- result is known.
use pcap2socks.Base.{
  ℕ, ◌+◌, ◌-◌, ◌≤◌, ◌<◌, ◌≡◌, ltb, if◌then◌else◌, List, length, take, drop, splice, get_or, arith,
  done, slice, write, copy_within, length-take, length-drop, length-splice, get_or-take,
  get_or-drop, get_or-splice, slice-eq-done, write-eq-done,
}

-- `ys` is `xs[a..b]`.
pub record IsSlice (xs : List ℕ) (a b : ℕ) (ys : List ℕ) : Type 0 where
  pub len : length ys ≡ b - a
  pub at : (i : ℕ) → i < b - a → get_or ys i 0 ≡ get_or xs (a + i) 0

-- `zs` is `xs` after `ys` is copied to `xs[a..]`.
pub record IsWritten (xs : List ℕ) (a : ℕ) (ys zs : List ℕ) : Type 0 where
  pub len : length zs ≡ length xs
  pub at :
      (i : ℕ)
      → get_or zs i 0 ≡ (
          if ltb i a
          then get_or xs i 0
          else (if ltb i (a + length ys) then get_or ys (i - a) 0 else get_or xs i 0))

pub slice_run :
    (xs : List ℕ) (a b : ℕ)
    → a ≤ b
    → b ≤ length xs
    → (ys : List ℕ) × (slice xs a b ≡ done ys) × IsSlice xs a b ys
slice_run xs a b h k = (
  take (b - a) (drop a xs),
  slice-eq-done xs a b h k,
  record {
    len = omega (arith, length-take (b - a) (drop a xs), length-drop a xs);
    at = λ i p. ground (arith, get_or-take (b - a) (drop a xs) i 0, get_or-drop a xs i 0);
  },
)

pub write_run :
    (xs : List ℕ) (a b : ℕ) (ys : List ℕ)
    → a + length ys ≡ b
    → b ≤ length xs
    → (zs : List ℕ) × (write xs a b ys ≡ done zs) × IsWritten xs a ys zs
write_run xs a b ys h k = (
  splice xs a ys,
  write-eq-done xs a b ys h k,
  record {
    len = length-splice xs a ys (omega arith);
    at = λ i. get_or-splice xs a ys i 0 (omega arith);
  },
)

-- `zs` is `xs` after `xs[a..b]` is copied to `xs[dest..]`.
pub record IsMoved (xs : List ℕ) (a b dest : ℕ) (zs : List ℕ) : Type 0 where
  pub len : length zs ≡ length xs
  pub at :
      (i : ℕ)
      → get_or zs i 0 ≡ (
          if ltb i dest
          then get_or xs i 0
          else (if ltb i (dest + (b - a)) then get_or xs (a + (i - dest)) 0 else get_or xs i 0))

pub copy_within_run :
    (xs : List ℕ) (a b dest : ℕ)
    → a ≤ b
    → b ≤ length xs
    → dest + (b - a) ≤ length xs
    → (zs : List ℕ) × (copy_within xs a b dest ≡ done zs) × IsMoved xs a b dest zs
unfolding copy_within
copy_within_run xs a b dest h k m =
    let (part, e, p) = slice_run xs a b h k in
    let (zs, e', w) = write_run xs dest (dest + length part) part (omega arith) (omega arith) in
    (zs, rw (e, e'), record { len = w.len; at = λ i. ground (arith, w.at i, p.at (i - dest)) })
