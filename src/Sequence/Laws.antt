-- ===== src/Sequence/Laws.antt =====
-- What the sequence arithmetic computes, and where it parts from arithmetic modulo 2^32.
use pcap2socks.Base.{ℕ, ◌+◌, ◌-◌, ◌%◌, ◌≤◌, ◌<◌, ◌≡◌, ltb, if◌then◌else◌, arith, u32_max}
use pcap2socks.Sequence.{seq_add, seq_sub}

-- Neither operation leaves the range of `u32`.
pub seq_bounds :
    (a b : ℕ) → a ≤ u32_max → b ≤ u32_max → (seq_add a b ≤ u32_max) × (seq_sub a b ≤ u32_max)
unfolding seq_add seq_sub
seq_bounds a b h k = ground arith

-- The distance from `a` to `a` advanced by `n` is `n`, across the end of the range too, where `n`
-- is below `u32::MAX`.
pub seq_sub-seq_add : (a n : ℕ) → a ≤ u32_max → n < u32_max → seq_sub (seq_add a n) a ≡ n
unfolding seq_add seq_sub
seq_sub-seq_add a n h k = ground arith

-- Advancing twice is advancing by the sum.
pub seq_add-seq_add :
    (a m n : ℕ) → a ≤ u32_max → m + n ≤ u32_max → seq_add (seq_add a m) n ≡ seq_add a (m + n)
unfolding seq_add
seq_add-seq_add a m n h k = ground arith

-- Modulo 2^32, the sum is one too large whenever it wraps, and right whenever it does not.
pub seq_add-mod :
    (a n : ℕ)
    → a ≤ u32_max
    → n ≤ u32_max
    → seq_add a n ≡ (a + n) % 4294967296 + (if ltb u32_max (a + n) then 1 else 0)
unfolding seq_add
seq_add-mod a n h k = ground arith

-- Modulo 2^32, the distance is one too small whenever it wraps, and right whenever it does not.
pub seq_sub-mod :
    (a b : ℕ)
    → a ≤ u32_max
    → b ≤ u32_max
    → seq_sub a b + (if ltb a b then 1 else 0) ≡ (a + 4294967296 - b) % 4294967296
unfolding seq_sub
seq_sub-mod a b h k = ground arith
