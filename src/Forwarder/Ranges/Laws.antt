-- ===== src/Forwarder/Ranges/Laws.antt =====
-- What is left after the SACKs are taken out: the bytes that no SACK covers, and no others.
use pcap2socks.Base.{
  ℕ, ◌+◌, ◌≤◌, ◌≡◌, refl, ◌∙◌, ltb, leb, Bool, false, ◌&&◌, ◌||◌, not, List, [], ◌∷◌, ◌++◌, arith,
  u32_max,
}
use pcap2socks.Sequence.{seq_sub, max_window_size}
use pcap2socks.Forwarder.Ranges.{Range, disjoint_u32_range, without_sack, without_sacks}

-- Whether a range, and whether some range of a list, holds a sequence.
abbrev pub holds : ℕ → Range → Bool
holds p (a, b) = leb a p && ltb p b

abbrev pub covers : ℕ → List Range → Bool
covers p [] = false
covers p (r ∷ rs) = holds p r || covers p rs

-- A range inside a stretch of sequences that does not go round and is no longer than the window.
pub record Within (lo hi : ℕ) (r : Range) : Type 0 where
  pub low : lo ≤ r.0
  pub ordered : r.0 ≤ r.1
  pub high : r.1 ≤ hi

abbrev pub AllWithin : ℕ → ℕ → List Range → Type 0
AllWithin lo hi [] = Unit {0}
AllWithin lo hi (r ∷ rs) = Within lo hi r × AllWithin lo hi rs

module _ (lo hi : ℕ) (h : hi ≤ u32_max) (k : hi ≤ lo + max_window_size) where
  -- For two ranges inside a stretch that does not go round and is no longer than the window, what
  -- one subtraction leaves covers a sequence exactly when the main range does and the other does
  -- not.
  pub disjoint_u32_range-covers :
      (p : ℕ) (main sub : Range)
      → Within lo hi main
      → Within lo hi sub
      → covers p (disjoint_u32_range main sub) ≡ (holds p main && not (holds p sub))
  unfolding disjoint_u32_range seq_sub
  disjoint_u32_range-covers p (a, b) (c, d) v w = ground arith

  disjoint_u32_range-Within :
      (main sub : Range)
      → Within lo hi main
      → Within lo hi sub
      → AllWithin lo hi (disjoint_u32_range main sub)
  unfolding disjoint_u32_range seq_sub
  disjoint_u32_range-Within (a, b) (c, d) v w = ground arith

  covers-append : (p : ℕ) (xs ys : List Range) → covers p (xs ++ ys) ≡ (covers p xs || covers p ys)
  covers-append p [] ys = refl
  covers-append p (x ∷ xs) ys = ground (arith, covers-append p xs ys)

  AllWithin-append :
      (xs ys : List Range) → AllWithin lo hi xs → AllWithin lo hi ys → AllWithin lo hi (xs ++ ys)
  AllWithin-append [] ys a b = b
  AllWithin-append (x ∷ xs) ys a b = (a.0, AllWithin-append xs ys a.1 b)

  without_sack-covers :
      (p : ℕ) (sack : Range) (ranges : List Range)
      → Within lo hi sack
      → AllWithin lo hi ranges
      → (covers p (without_sack sack ranges) ≡ (covers p ranges && not (holds p sack)))
        × AllWithin lo hi (without_sack sack ranges)
  unfolding without_sack
  without_sack-covers p sack [] w a = (refl, tt)
  without_sack-covers p sack (r ∷ rs) w a =
      let rest = without_sack-covers p sack rs w a.1 in
      (
        covers-append p (disjoint_u32_range r sack) (without_sack sack rs)
            ∙ joined (holds p r) (covers p rs) (holds p sack)
                (disjoint_u32_range-covers p r sack a.0 w) rest.0,
        AllWithin-append (disjoint_u32_range r sack) (without_sack sack rs)
            (disjoint_u32_range-Within r sack a.0 w) rest.1,
      )
    where
      joined :
          {x y : Bool} (a b c : Bool)
          → x ≡ (a && not c)
          → y ≡ (b && not c)
          → (x || y) ≡ ((a || b) && not c)
      joined a b c e f = ground arith

  -- For ranges inside a stretch that does not go round and is no longer than the window, the
  -- ranges left after any number of SACKs cover a sequence exactly when the ranges at the start do
  -- and no SACK holds it.
  pub without_sacks-covers :
      (p : ℕ) (ranges sacks : List Range)
      → AllWithin lo hi ranges
      → AllWithin lo hi sacks
      → covers p (without_sacks ranges sacks) ≡ (covers p ranges && not (covers p sacks))
  unfolding without_sacks
  without_sacks-covers p ranges [] a b = ground arith
  without_sacks-covers p ranges (s ∷ sacks) a b =
      let one = without_sack-covers p s ranges b.0 a in
      ground (arith, without_sacks-covers p (without_sack s ranges) sacks one.1 b.1, one.0)
