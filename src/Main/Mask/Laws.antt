-- ===== src/Main/Mask/Laws.antt =====
-- The mask is that of the longest common prefix of whole octets.
use Prim.Native.Nat.{bit_and, bit_xor}
use pcap2socks.Base.{
  ℕ, zero, suc, ◌+◌, ◌-◌, ◌≤◌, ◌<◌, ◌≡◌, refl, ap, ap₂, ◌∙◌, ◌==◌, ==_iff, ◌&&◌, not, if◌then◌else◌,
  Bool, Bool-cases, inl, inr, true, false, List, [], ◌∷◌, ◌++◌, length, replicate, arith,
}
use pcap2socks.Net.{Ipv4Addr}
use pcap2socks.Socks.Client.{octets}
use pcap2socks.Main.Mask.{agreeing, all_agreeing, align, mask_octets}

-- Whether a test holds of all the numbers under a bound.
holds_under : (ℕ → Bool) → ℕ → Bool
holds_under test zero = true
holds_under test (suc k) = if holds_under test k then test k else false

at-holds_under : (test : ℕ → Bool) (k n : ℕ) → holds_under test k ≡ true → n < k → test n ≡ true
unfolding holds_under
at-holds_under test zero n all h = absurd (omega arith)
at-holds_under test (suc k) n all h = elim (Bool-cases (holds_under test k)) [
  | inr fails ↦ absurd (cc (rw fails at all))
  | inl below ↦ elim (Bool-cases (n == k)) [
    | inl last ↦ rw ((==_iff n k).0 last) (rw below at all)
    | inr before ↦ at-holds_under test k n below (ground arith)
  ]
]

abbrev same_bool : Bool → Bool → Bool
same_bool true b = b
same_bool false b = not b

-- Of every pair of octets.
abbrev OnOctets : (ℕ → ℕ → Bool) → Type 0
OnOctets test = holds_under (λ a. holds_under (test a) 256) 256 ≡ true

xor_table : OnOctets (λ a b. same_bool (bit_xor a b == 0) (a == b))
unfolding holds_under
xor_table = refl

and_table : OnOctets (λ a b. same_bool (bit_and a b == 255) ((a == 255) && (b == 255)))
unfolding holds_under
and_table = refl

same_bool_eq : (b c : Bool) → same_bool b c ≡ true → b ≡ c
same_bool_eq true true h = refl
same_bool_eq true false h = cc
same_bool_eq false true h = cc
same_bool_eq false false h = refl

table_at : (test : ℕ → ℕ → Bool) (a b : ℕ) → OnOctets test → a < 256 → b < 256 → test a b ≡ true
table_at test a b table h k =
    at-holds_under (test a) 256 b (at-holds_under (λ a. holds_under (test a) 256) 256 a table h) k

-- An octet is kept whole exactly where the octets agree and the mask is whole.
agreeing_whole :
    (src gw mask : ℕ)
    → src < 256
    → gw < 256
    → mask < 256
    → (agreeing src gw mask == 255) ≡ ((src == gw) && (mask == 255))
agreeing_whole src gw mask h k l =
    let x : (bit_xor src gw == 0) ≡ (src == gw) =
      same_bool_eq _ _
        (table_at (λ a b. same_bool (bit_xor a b == 0) (a == b)) src gw xor_table h k) in
    let a : (agreeing src gw mask == 255) ≡ ((255 - bit_xor src gw == 255) && (mask == 255)) =
      same_bool_eq _ _ (
        table_at (λ a b. same_bool (bit_and a b == 255) ((a == 255) && (b == 255)))
          (255 - bit_xor src gw) mask and_table (omega arith) l) in
    let e : (255 - bit_xor src gw == 255) ≡ (bit_xor src gw == 0) = ground arith in
    a ∙ ap (λ t. t && (mask == 255)) (e ∙ x)

-- How many octets agree, from the first on, where the mask is whole.
unfoldable pub common : List ℕ → List ℕ → List ℕ → ℕ
common (src ∷ srcs) (gw ∷ gws) (mask ∷ masks) =
    let rest = common srcs gws masks in if (src == gw) && (mask == 255) then rest + 1 else 0
common srcs gws masks = 0

align_zero : (bs : List ℕ) → align true bs ≡ replicate (length bs) 0
unfolding align
align_zero [] = refl
align_zero (b ∷ bs) = ap (◌∷◌ 0) (align_zero bs)

abbrev Triples : List ℕ → List ℕ → List ℕ → Type 0
Triples [] [] [] = Unit {0}
Triples (a ∷ srcs) (b ∷ bs) (c ∷ cs) = (a < 256) × (b < 256) × (c < 256) × Triples srcs bs cs
Triples srcs bs cs = ⊥

length-all_agreeing :
    (srcs gws masks : List ℕ)
    → Triples srcs gws masks
    → length (all_agreeing srcs gws masks) ≡ length srcs
unfolding all_agreeing
length-all_agreeing [] [] [] h = refl
length-all_agreeing (src ∷ srcs) (gw ∷ gws) (mask ∷ masks) (h, k, l, rest) =
    ap suc (length-all_agreeing srcs gws masks rest)
length-all_agreeing [] [] (c ∷ cs) h = absurd h
length-all_agreeing [] (b ∷ bs) cs h = absurd h
length-all_agreeing (a ∷ srcs) [] cs h = absurd h
length-all_agreeing (a ∷ srcs) (b ∷ bs) [] h = absurd h

align-all_agreeing :
    (srcs gws masks : List ℕ)
    → Triples srcs gws masks
    → (common srcs gws masks ≤ length srcs)
      × (align false (all_agreeing srcs gws masks)
          ≡ replicate (common srcs gws masks) 255
            ++ replicate (length srcs - common srcs gws masks) 0)
unfolding align all_agreeing common
align-all_agreeing [] [] [] h = (omega arith, refl)
align-all_agreeing (src ∷ srcs) (gw ∷ gws) (mask ∷ masks) (h, k, l, rest) =
    let whole = agreeing_whole src gw mask h k l in
    let c = common srcs gws masks in
    let (le, e) = align-all_agreeing srcs gws masks rest in
    elim (Bool-cases ((src == gw) && (mask == 255))) [
      | inl agree ↦
          let up : c + 1 ≡ suc c = omega arith in
          let less : suc (length srcs) - suc c ≡ length srcs - c = omega arith in
          rw (agree, whole ∙ agree, up, less)
            (
              omega arith,
              ap₂ (λ b bs. b ∷ bs) ((==_iff (agreeing src gw mask) 255).0 (whole ∙ agree)) e,
            )
      | inr differ ↦
          let all : suc (length srcs) - 0 ≡ suc (length srcs) = omega arith in
          rw (differ, whole ∙ differ, all)
            (
              omega arith,
              ap (◌∷◌ 0) (
                  align_zero (all_agreeing srcs gws masks)
                  ∙ ap (λ n. replicate n 0) (length-all_agreeing srcs gws masks rest)),
            )
    ]
align-all_agreeing [] [] (c ∷ cs) h = absurd h
align-all_agreeing [] (b ∷ bs) cs h = absurd h
align-all_agreeing (a ∷ srcs) [] cs h = absurd h
align-all_agreeing (a ∷ srcs) (b ∷ bs) [] h = absurd h

-- The mask is of the whole octets that the source and the gateway have in common, from the first
-- on, as far as the source's own mask is whole; the rest is 0.
pub mask_octets_lem :
    (src gw mask : Ipv4Addr)
    → mask_octets src gw mask
      ≡ replicate (common (octets src) (octets gw) (octets mask)) 255
        ++ replicate (4 - common (octets src) (octets gw) (octets mask)) 0
unfolding mask_octets
mask_octets_lem src gw mask =
    (align-all_agreeing (octets src) (octets gw) (octets mask) (omega arith)).1
