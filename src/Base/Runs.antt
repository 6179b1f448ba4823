-- ===== src/Base/Runs.antt =====
-- What holds of every result of code that may panic, and what the code ends with.
use mathlib.Core.Bool.{Bool, true, false}
use mathlib.Core.Path.{◌≡◌, refl}
use mathlib.Core.Logic.{◌⊎◌, inl, inr}
use pcap2socks.Base.Tests.{if◌then◌else◌}
use pcap2socks.Base.Outcome.{Run, done, panic, out_of_fuel, ◌>>=◌}

-- If there is a result, it has the property.
abbrev pub All {ℓ} : {A : Type ℓ} → (A → Type 0) → Run A → Type 0
All P (done a) = P a
All P panic = Unit {0}
All P out_of_fuel = Unit {0}

pub All-bind {ℓ κ} :
    {A : Type ℓ} {B : Type κ} (P : A → Type 0) (Q : B → Type 0) (m : Run A) (f : A → Run B)
    → All P m
    → ((a : A) → P a → All Q (f a))
    → All Q (m >>= f)
All-bind P Q (done a) f h k = k a h
All-bind P Q panic f h k = tt
All-bind P Q out_of_fuel f h k = tt

pub All-map {ℓ} :
    {A : Type ℓ} (P Q : A → Type 0) (m : Run A) → All P m → ((a : A) → P a → Q a) → All Q m
All-map P Q (done a) h k = k a h
All-map P Q panic h k = tt
All-map P Q out_of_fuel h k = tt

pub Run-cases {ℓ} :
    {A : Type ℓ} (m : Run A) → ((m ≡ panic) ⊎ (m ≡ out_of_fuel)) ⊎ ((a : A) × (m ≡ done a))
Run-cases (done a) = inr (a, refl)
Run-cases panic = inl (inl refl)
Run-cases out_of_fuel = inl (inr refl)

-- Whatever the code, each of its results is a value.
pub All-any {ℓ} : {A : Type ℓ} (m : Run A) → All (λ a. Unit {0}) m
All-any (done a) = tt
All-any panic = tt
All-any out_of_fuel = tt

-- A property of both branches is one of the test.
pub if_both {ℓ} :
    {A : Type ℓ} (P : A → Type 0) (b : Bool) (x y : A) → P x → P y → P (if b then x else y)
if_both P true x y h k = h
if_both P false x y h k = k
