-- ===== src/Sequence.antt =====
-- The arithmetic on `u32` sequence numbers that src/cache/mod.rs and src/lib.rs repeat in line.
-- The closures of `unwrap_or_else` subtract from `u32::MAX` where 2^32 is the modulus.
pub mod Laws
mod Tests
use pcap2socks.Base.{ℕ, ◌+◌, ◌-◌, ltb, if◌then◌else◌, u32_max}

-- `a.checked_add(n).unwrap_or_else(|| n - (u32::MAX - a))`. The closure runs where `a + n` exceeds
-- `u32::MAX`, so its subtraction is in range.
unfoldable pub seq_add : ℕ → ℕ → ℕ
seq_add a n = if ltb u32_max (a + n) then n - (u32_max - a) else a + n

-- `a.checked_sub(b).unwrap_or_else(|| a + (u32::MAX - b))`. The closure runs where `a < b`, so its
-- sum is in range.
unfoldable pub seq_sub : ℕ → ℕ → ℕ
seq_sub a b = if ltb a b then a + (u32_max - b) else a - b

-- `MAX_U32_WINDOW_SIZE`
abbrev pub max_window_size : ℕ
max_window_size = 16777216
