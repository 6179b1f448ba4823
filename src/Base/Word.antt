-- ===== src/Base/Word.antt =====
-- Machine integers as native numbers, and the program's arithmetic on TCP sequence numbers.
use Prim.Native.Nat.{ℕ, ◌%◌}

abbrev pub u8_max : ℕ
u8_max = 255

abbrev pub u16_max : ℕ
u16_max = 65535

abbrev pub u32_max : ℕ
u32_max = 4294967295

abbrev pub u64_max : ℕ
u64_max = 18446744073709551615

-- `usize` of a 64-bit target.
abbrev pub usize_max : ℕ
usize_max = 18446744073709551615

-- `n as u32`, `n as u16`
abbrev pub as_u32 : ℕ → ℕ
as_u32 n = n % 4294967296

abbrev pub as_u16 : ℕ → ℕ
as_u16 n = n % 65536
