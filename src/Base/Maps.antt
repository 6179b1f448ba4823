-- ===== src/Base/Maps.antt =====
-- `HashMap` as a function from keys, over keys with a Boolean equality.
use Prim.Native.Nat.{ℕ}
use mathlib.Core.Path.{◌≡◌}
use mathlib.Core.Logic.{◌↔◌}
use mathlib.Core.Bool.{Bool, true, ◌&&◌}
use mathlib.Core.Option.{Option, none, some}
use native.Mathlib.Omega.{arith}
use pcap2socks.Base.Tests.{◌==◌, ==_iff, if◌then◌else◌}

pub record Key (K : Type 0) : Type 0 where
  pub same : K → K → Bool
  pub same_iff : (a b : K) → (same a b ≡ true) ↔ (a ≡ b)

instance abbrev pub nat_key : Key ℕ
nat_key = record { same = ◌==◌; same_iff = ==_iff }

abbrev pub Map : Type 0 → Type 0 → Type 0
Map K V = K → Option V

module _ {K V : Type 0} where
  abbrev pub empty_map : Map K V
  empty_map k = none

  abbrev pub insert : ⦃e : Key K⦄ → K → V → Map K V → Map K V
  insert ⦃e⦄ k v m j = if e.same k j then some v else m j

  abbrev pub remove : ⦃e : Key K⦄ → K → Map K V → Map K V
  remove ⦃e⦄ k m j = if e.same k j then none else m j

-- Pairs as keys.
unfoldable pub same_pair : {A B : Type 0} ⦃a : Key A⦄ ⦃b : Key B⦄ → A × B → A × B → Bool
same_pair ⦃a⦄ ⦃b⦄ p q = a.same p.0 q.0 && b.same p.1 q.1

pub same_pair_iff :
    {A B : Type 0} ⦃a : Key A⦄ ⦃b : Key B⦄ (p q : A × B) → (same_pair p q ≡ true) ↔ (p ≡ q)
unfolding same_pair
same_pair_iff ⦃a⦄ ⦃b⦄ (p, p') (q, q') = ground (arith, a.same_iff p q, b.same_iff p' q')

instance abbrev pub pair_key : {A B : Type 0} ⦃a : Key A⦄ ⦃b : Key B⦄ → Key (A × B)
pair_key = record { same = same_pair; same_iff = same_pair_iff }
