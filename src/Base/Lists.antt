-- ===== src/Base/Lists.antt =====
-- Byte vectors as lists measured and indexed by native numbers.
use Prim.Native.Nat.{ℕ, zero, suc, ◌+◌, ◌-◌, ◌≤◌, ◌<◌, min}
use mathlib.Core.Path.{◌≡◌, refl, sym, ◌∙◌, ap, ap₂}
use mathlib.Core.List.{List, [], ◌∷◌, ◌++◌}
use native.Mathlib.Omega.{arith}
use pcap2socks.Base.Tests.{ltb, if◌then◌else◌}

module _ {ℓ} {A : Type ℓ} where
  abbrev pub length : List A → ℕ
  length [] = 0
  length (x ∷ xs) = suc (length xs)

  abbrev pub get_or : List A → ℕ → A → A
  get_or [] i d = d
  get_or (x ∷ xs) zero d = x
  get_or (x ∷ xs) (suc i) d = get_or xs i d

  abbrev pub take : ℕ → List A → List A
  take zero xs = []
  take (suc n) [] = []
  take (suc n) (x ∷ xs) = x ∷ take n xs

  abbrev pub drop : ℕ → List A → List A
  drop zero xs = xs
  drop (suc n) [] = []
  drop (suc n) (x ∷ xs) = drop n xs

  abbrev pub replicate : ℕ → A → List A
  replicate zero a = []
  replicate (suc n) a = a ∷ replicate n a

  pub length-append : (xs ys : List A) → length (xs ++ ys) ≡ length xs + length ys
  length-append [] ys = omega arith
  length-append (x ∷ xs) ys = omega (arith, length-append xs ys)

  pub length-take : (n : ℕ) (xs : List A) → length (take n xs) ≡ min n (length xs)
  length-take zero xs = omega arith
  length-take (suc n) [] = omega arith
  length-take (suc n) (x ∷ xs) = omega (arith, length-take n xs)

  pub length-drop : (n : ℕ) (xs : List A) → length (drop n xs) ≡ length xs - n
  length-drop zero xs = omega arith
  length-drop (suc n) [] = omega arith
  length-drop (suc n) (x ∷ xs) = omega (arith, length-drop n xs)

  pub length-replicate : (n : ℕ) (a : A) → length (replicate n a) ≡ n
  length-replicate zero a = refl
  length-replicate (suc n) a = ap suc (length-replicate n a)

  pub get_or-append :
      (xs ys : List A) (i : ℕ) (d : A)
      → get_or (xs ++ ys) i d
        ≡ (if ltb i (length xs) then get_or xs i d else get_or ys (i - length xs) d)
  get_or-append [] ys i d = ground arith
  get_or-append (x ∷ xs) ys zero d = ground arith
  get_or-append (x ∷ xs) ys (suc i) d = ground (arith, get_or-append xs ys i d)

  pub get_or-take :
      (n : ℕ) (xs : List A) (i : ℕ) (d : A)
      → get_or (take n xs) i d ≡ (if ltb i n then get_or xs i d else d)
  get_or-take zero xs i d = ground arith
  get_or-take (suc n) [] i d = ground arith
  get_or-take (suc n) (x ∷ xs) zero d = ground arith
  get_or-take (suc n) (x ∷ xs) (suc i) d = ground (arith, get_or-take n xs i d)

  pub get_or-drop :
      (n : ℕ) (xs : List A) (i : ℕ) (d : A) → get_or (drop n xs) i d ≡ get_or xs (n + i) d
  get_or-drop zero xs i d = ground arith
  get_or-drop (suc n) [] i d = ground arith
  get_or-drop (suc n) (x ∷ xs) i d = ground (arith, get_or-drop n xs i d)

  pub get_or-replicate : (n : ℕ) (a : A) (i : ℕ) → get_or (replicate n a) i a ≡ a
  get_or-replicate zero a i = refl
  get_or-replicate (suc n) a zero = refl
  get_or-replicate (suc n) a (suc i) = get_or-replicate n a i

  pub get_or_beyond : (xs : List A) (i : ℕ) (d : A) → length xs ≤ i → get_or xs i d ≡ d
  get_or_beyond [] i d h = refl
  get_or_beyond (x ∷ xs) zero d h = absurd (omega arith)
  get_or_beyond (x ∷ xs) (suc i) d h = get_or_beyond xs i d (omega arith)

  pub take_of_length : (xs : List A) (n : ℕ) → length xs ≡ n → take n xs ≡ xs
  take_of_length [] zero h = refl
  take_of_length [] (suc n) h = refl
  take_of_length (x ∷ xs) zero h = absurd (omega arith)
  take_of_length (x ∷ xs) (suc n) h = ap (◌∷◌ x) (take_of_length xs n (omega arith))

  pub drop-append : (xs ys : List A) (n : ℕ) → length xs ≡ n → drop n (xs ++ ys) ≡ ys
  drop-append [] ys zero h = refl
  drop-append [] ys (suc n) h = absurd (omega arith)
  drop-append (x ∷ xs) ys zero h = absurd (omega arith)
  drop-append (x ∷ xs) ys (suc n) h = drop-append xs ys n (omega arith)

  pub take-append : (xs ys : List A) (n : ℕ) → length xs ≡ n → take n (xs ++ ys) ≡ xs
  take-append [] ys zero h = refl
  take-append [] ys (suc n) h = absurd (omega arith)
  take-append (x ∷ xs) ys zero h = absurd (omega arith)
  take-append (x ∷ xs) ys (suc n) h = ap (◌∷◌ x) (take-append xs ys n (omega arith))

  pub take-append-drop : (n : ℕ) (xs : List A) → take n xs ++ drop n xs ≡ xs
  take-append-drop zero xs = refl
  take-append-drop (suc n) [] = refl
  take-append-drop (suc n) (x ∷ xs) = ap (◌∷◌ x) (take-append-drop n xs)

  pub drop_beyond : (n : ℕ) (xs : List A) → length xs ≤ n → drop n xs ≡ []
  drop_beyond zero [] h = refl
  drop_beyond zero (x ∷ xs) h = absurd (omega arith)
  drop_beyond (suc n) [] h = refl
  drop_beyond (suc n) (x ∷ xs) h = drop_beyond n xs (omega arith)

  pub drop-drop : (xs : List A) (m n : ℕ) → drop n (drop m xs) ≡ drop (m + n) xs
  drop-drop xs zero n = let e : 0 + n ≡ n = omega arith in rw e refl
  drop-drop [] (suc m) n =
      drop_beyond n [] (omega arith) ∙ sym (drop_beyond (suc m + n) [] (omega arith))
  drop-drop (x ∷ xs) (suc m) n =
      let e : suc m + n ≡ suc (m + n) = omega arith in rw e (drop-drop xs m n)

  -- Two lists of one length that agree at each index are equal.
  pub ext_get_or :
      (d : A) (xs ys : List A)
      → length xs ≡ length ys
      → ((i : ℕ) → i < length xs → get_or xs i d ≡ get_or ys i d)
      → xs ≡ ys
  ext_get_or d [] [] e h = refl
  ext_get_or d [] (y ∷ ys) e h = absurd (omega arith)
  ext_get_or d (x ∷ xs) [] e h = absurd (omega arith)
  ext_get_or d (x ∷ xs) (y ∷ ys) e h =
      ap₂ ◌∷◌ (h 0 (omega arith))
        (ext_get_or d xs ys (omega arith) (λ i p. h (suc i) (omega arith)))

  -- `xs[at..at + ys.len()]` overwritten by `ys`.
  abbrev pub splice : List A → ℕ → List A → List A
  splice xs at ys = take at xs ++ (ys ++ drop (at + length ys) xs)

  -- `Vec::resize`
  abbrev pub resize : List A → ℕ → A → List A
  resize xs n a = take n xs ++ replicate (n - length xs) a

  pub length-splice :
      (xs : List A) (at : ℕ) (ys : List A)
      → at + length ys ≤ length xs
      → length (splice xs at ys) ≡ length xs
  length-splice xs at ys h = omega (
    arith,
    length-append (take at xs) (ys ++ drop (at + length ys) xs),
    length-append ys (drop (at + length ys) xs),
    length-take at xs,
    length-drop (at + length ys) xs,
  )

  pub length-resize : (xs : List A) (n : ℕ) (a : A) → length (resize xs n a) ≡ n
  length-resize xs n a = omega (
    arith,
    length-append (take n xs) (replicate (n - length xs) a),
    length-take n xs,
    length-replicate (n - length xs) a,
  )

-- What an overwritten and a grown vector hold at an index.
module _ {A : Type 0} where
  pub get_or-splice :
      (xs : List A) (at : ℕ) (ys : List A) (i : ℕ) (d : A)
      → at + length ys ≤ length xs
      → get_or (splice xs at ys) i d ≡ (
          if ltb i at
          then get_or xs i d
          else (if ltb i (at + length ys) then get_or ys (i - at) d else get_or xs i d))
  get_or-splice xs at ys i d h = ground (
    arith,
    get_or-append (take at xs) (ys ++ drop (at + length ys) xs) i d,
    get_or-append ys (drop (at + length ys) xs) (i - at) d,
    length-take at xs,
    get_or-take at xs i d,
    get_or-drop (at + length ys) xs (i - at - length ys) d,
  )

  pub get_or-resize :
      (xs : List A) (n : ℕ) (d : A) (i : ℕ)
      → length xs ≤ n
      → get_or (resize xs n d) i d ≡ get_or xs i d
  get_or-resize xs n d i h = ground (
    arith,
    get_or-append (take n xs) (replicate (n - length xs) d) i d,
    length-take n xs,
    get_or-take n xs i d,
    get_or-replicate (n - length xs) d (i - length (take n xs)),
    get_or_beyond xs i d,
  )

-- A property of every element.
abbrev pub Every {ℓ} : {A : Type ℓ} → (A → Type 0) → List A → Type 0
Every P [] = Unit {0}
Every P (x ∷ xs) = P x × Every P xs

pub Every-map {ℓ} :
    {A : Type ℓ} (P Q : A → Type 0) (xs : List A) → ((x : A) → P x → Q x) → Every P xs → Every Q xs
Every-map P Q [] f h = tt
Every-map P Q (x ∷ xs) f (h, k) = (f x h, Every-map P Q xs f k)
