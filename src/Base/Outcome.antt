-- ===== src/Base/Outcome.antt =====
-- Rust code that may panic, and the results of its fallible calls.
-- A panic is an arithmetic operation out of range (the checks of a debug build), a slice out of
-- bounds, or an `unwrap` of nothing. An `io::Result` is a value beside the new state.
use Prim.Native.Nat.{ℕ, ◌+◌, ◌-◌, ◌*◌, ◌%◌, ◌≤◌}
use mathlib.Core.Path.{◌≡◌, refl}
use mathlib.Core.Logic.{◌⊎◌, inl, inr}
use mathlib.Core.Bool.{true, ◌||◌, not}
use mathlib.Core.Option.{Option, none, some}
use mathlib.Core.List.{List}
use native.Mathlib.Omega.{arith}
use pcap2socks.Base.Tests.{ltb, ◌==◌, if◌then◌else◌, le→ltb}
use pcap2socks.Base.Lists.{length, take, drop, splice}
use pcap2socks.Base.Word.{usize_max}

-- A loop of the model that is cut off ends in `out_of_fuel`, which the code has nothing for.
pub data Run {ℓ} (A : Type ℓ) : Type ℓ where
  done : A → Run A
  panic : Run A
  out_of_fuel : Run A

infixl 5 ◌>>=◌
abbrev pub ◌>>=◌ {ℓ κ} : {A : Type ℓ} {B : Type κ} → Run A → (A → Run B) → Run B
done a >>= f = f a
panic >>= f = panic
out_of_fuel >>= f = out_of_fuel

-- `io::ErrorKind`, for the kinds that the program makes itself, and those of other code.
pub data ErrorKind : Type 0 where
  other invalid_input invalid_data not_connected timed_out write_zero not_found : ErrorKind

-- `io::Result`
pub data Result {ℓ} (A : Type ℓ) : Type ℓ where
  ok : A → Result A
  err : ErrorKind → Result A

pub Result-cases {ℓ} :
    {A : Type ℓ} (r : Result A) → ((a : A) × (r ≡ ok a)) ⊎ ((e : ErrorKind) × (r ≡ err e))
Result-cases (ok a) = inl (a, refl)
Result-cases (err e) = inr (e, refl)

-- `a - b` on an unsigned type.
abbrev pub sub : ℕ → ℕ → Run ℕ
sub a b = if ltb a b then panic else done (a - b)

abbrev pub unwrap {ℓ} : {A : Type ℓ} → Option A → Run A
unwrap (some a) = done a
unwrap none = panic

abbrev pub unwrap_ok {ℓ} : {A : Type ℓ} → Result A → Run A
unwrap_ok (ok a) = done a
unwrap_ok (err e) = panic

module _ {ℓ} {A : Type ℓ} where
  -- `&xs[a..b]`
  unfoldable pub slice : List A → ℕ → ℕ → Run (List A)
  slice xs a b = if ltb b a || ltb (length xs) b then panic else done (take (b - a) (drop a xs))

  -- `xs[a..b].copy_from_slice(ys)`
  unfoldable pub write : List A → ℕ → ℕ → List A → Run (List A)
  write xs a b ys =
      if ltb b a || (ltb (length xs) b || not (length ys == b - a))
      then panic
      else done (splice xs a ys)

  -- `xs.copy_within(a..b, dest)`
  unfoldable pub copy_within : List A → ℕ → ℕ → ℕ → Run (List A)
  copy_within xs a b dest = do part ← slice xs a b; write xs dest (dest + length part) part

  pub slice-eq-done :
      (xs : List A) (a b : ℕ)
      → a ≤ b
      → b ≤ length xs
      → slice xs a b ≡ done (take (b - a) (drop a xs))
  unfolding slice
  slice-eq-done xs a b h k = rw (le→ltb b a h, le→ltb (length xs) b k)

  pub write-eq-done :
      (xs : List A) (a b : ℕ) (ys : List A)
      → a + length ys ≡ b
      → b ≤ length xs
      → write xs a b ys ≡ done (splice xs a ys)
  unfolding write
  write-eq-done xs a b ys h k =
      let fits : (length ys == b - a) ≡ true = ground arith in
      rw (le→ltb b a (omega arith), le→ltb (length xs) b k, fits)

pub sub-eq-done : (a b : ℕ) → b ≤ a → sub a b ≡ done (a - b)
sub-eq-done a b h = ground arith

-- `a + b` and `a * b` on `usize`, and `a % b`.
abbrev pub add_usize : ℕ → ℕ → Run ℕ
add_usize a b = if ltb usize_max (a + b) then panic else done (a + b)

abbrev pub mul_usize : ℕ → ℕ → Run ℕ
mul_usize a b = if ltb usize_max (a * b) then panic else done (a * b)

abbrev pub rem : ℕ → ℕ → Run ℕ
rem a b = if b == 0 then panic else done (a % b)
