-- ===== src/Redirector/Udp/Listed.antt =====
-- An LRU cache as a list, the most recently used entry first: the interface can be filled.
use pcap2socks.Base.{
  ℕ, zero, suc, ◌≤◌, ◌<◌, ◌≡◌, refl, ◌==◌, ==_self, if◌then◌else◌, Option, none, some, List, [],
  ◌∷◌, length, arith, Bool-cases, inl, inr, take, length-take, sym, ◌∙◌, ap,
}
use pcap2socks.Net.{SocketAddr}
use pcap2socks.Redirector.Udp.Lru.{LruCache}

abbrev Entries : Type 0
Entries = List (ℕ × SocketAddr)

unfoldable pub peek : Entries → ℕ → Option SocketAddr
peek [] k = none
peek ((j, a) ∷ c) k = if j == k then some a else peek c k

unfoldable pub without : ℕ → Entries → Entries
without k [] = []
without k ((j, a) ∷ c) = if j == k then without k c else (j, a) ∷ without k c

-- The entry to the front, for a key that is there.
unfoldable pub promote : ℕ → Option SocketAddr → Entries → Entries
promote k none c = c
promote k (some a) c = (k, a) ∷ without k c

unfoldable pub last_key : ℕ → Entries → ℕ
last_key k [] = k
last_key k ((j, a) ∷ c) = last_key j c

-- The entry of a key taken out, for a key that is there.
unfoldable pub taken :
    ℕ → ℕ → Option SocketAddr → Entries → Option ((ℕ × SocketAddr) × (ℕ × Entries))
taken n k none c = none
taken n k (some a) c = some ((k, a), (n, without k c))

unfoldable pub pop_last : ℕ × Entries → Option ((ℕ × SocketAddr) × (ℕ × Entries))
pop_last (n, []) = none
pop_last (n, (j, a) ∷ c) = taken n (last_key j c) (peek ((j, a) ∷ c) (last_key j c)) ((j, a) ∷ c)

pub peek-nil : (k : ℕ) → peek [] k ≡ none
unfolding peek
peek-nil k = refl

pub peek-without :
    (j : ℕ) (c : Entries) (k : ℕ) → peek (without j c) k ≡ (if j == k then none else peek c k)
unfolding peek without
peek-without j [] k = ground arith
peek-without j ((i, a) ∷ c) k = ground (arith, peek-without j c k)

pub length-without : (j : ℕ) (c : Entries) → length (without j c) ≤ length c
unfolding without
length-without j [] = omega arith
length-without j ((i, a) ∷ c) = ground (arith, length-without j c)

length-without-lt :
    (j : ℕ) (a : SocketAddr) (c : Entries) → peek c j ≡ some a → length (without j c) < length c
unfolding peek without
length-without-lt j a [] h = absurd (cc)
length-without-lt j a ((i, b) ∷ c) h = ground (arith, length-without-lt j a c, length-without j c)

peek-last_key :
    (j : ℕ) (a : SocketAddr) (c : Entries)
    → (b : SocketAddr) × (peek ((j, a) ∷ c) (last_key j c) ≡ some b)
unfolding peek last_key
peek-last_key j a [] = (a, rw (==_self j) refl)
peek-last_key j a ((i, b) ∷ c) =
    let (d, e) = peek-last_key i b c in
    elim (Bool-cases (j == last_key i c)) [ inl s ↦ (a, rw s refl) | inr s ↦ (d, rw s e) ]

pub peek-promote :
    (j : ℕ) (o : Option SocketAddr) (c : Entries) (k : ℕ)
    → peek c j ≡ o
    → peek (promote j o c) k ≡ peek c k
unfolding promote peek
peek-promote j none c k h = refl
peek-promote j (some a) c k h = elim (Bool-cases (j == k)) [
  | inl e ↦ let same : j ≡ k = ground arith in rw e (sym h ∙ ap (peek c) same)
  | inr e ↦ rw (e, peek-without j c k, e) refl
]

pub length-promote :
    (j : ℕ) (o : Option SocketAddr) (c : Entries) → peek c j ≡ o → length (promote j o c) ≤ length c
unfolding promote
length-promote j none c h = omega arith
length-promote j (some a) c h = omega (arith, length-without-lt j a c h)

take_within : (c : Entries) (n : ℕ) → length c ≤ n → take n c ≡ c
take_within [] zero h = refl
take_within [] (suc n) h = refl
take_within (e ∷ c) zero h = absurd (omega arith)
take_within (e ∷ c) (suc n) h = ap (◌∷◌ e) (take_within c n (omega arith))

pub peek-put_front :
    (n j : ℕ) (a : SocketAddr) (c : Entries) (k : ℕ)
    → length c < n
    → peek (take n ((j, a) ∷ without j c)) k ≡ (if j == k then some a else peek c k)
unfolding peek
peek-put_front n j a c k h =
    rw (take_within ((j, a) ∷ without j c) n (omega (arith, length-without j c)), peek)
      (elim (Bool-cases (j == k)) [
        | inl e ↦ rw e refl
        | inr e ↦ rw (e, peek-without j c k, e) refl
      ])

taken-eq-some :
    (n k : ℕ) (o : Option SocketAddr) (c : Entries) (j : ℕ) (a : SocketAddr) (rest : ℕ × Entries)
    → taken n k o c ≡ some ((j, a), rest)
    → (k ≡ j) × (o ≡ some a) × (rest ≡ (n, without k c))
unfolding taken
taken-eq-some n k none c j a rest h = absurd (cc)
taken-eq-some n k (some b) c j a rest h = ground arith

pub pop_last-some :
    (c : ℕ × Entries) (j : ℕ) (a : SocketAddr) (rest : ℕ × Entries)
    → pop_last c ≡ some ((j, a), rest)
    → (peek c.1 j ≡ some a)
      × ((k : ℕ) → peek rest.1 k ≡ (if j == k then none else peek c.1 k))
      × (length rest.1 < length c.1)
      × (rest.0 ≡ c.0)
unfolding pop_last
pop_last-some (n, []) j a rest h = absurd (cc)
pop_last-some (n, (i, b) ∷ c) j a rest h =
    let all : Entries = (i, b) ∷ c in
    let (e, f, g) = taken-eq-some n (last_key i c) (peek all (last_key i c)) all j a rest h in
    let found : peek all j ≡ some a = ap (peek all) (sym e) ∙ f in
    (
      found,
      λ k. rw (g, e) (peek-without j all k),
      rw (g, e) (length-without-lt j a all found),
      ap (λ r. r.0) g,
    )

pub pop_last-none : (c : ℕ × Entries) → pop_last c ≡ none → length c.1 ≡ 0
unfolding pop_last taken
pop_last-none (n, []) h = refl
pop_last-none (n, (i, b) ∷ c) h =
    let (d, e) = peek-last_key i b c in absurd (let h' = rw e at h in cc)

abbrev pub listed : LruCache
listed = record {
  Lru = ℕ × Entries;
  new = λ n. (n, []);
  get = λ k c. (c.0, promote k (peek c.1 k) c.1);
  put = λ k a c. (c.0, take c.0 ((k, a) ∷ without k c.1));
  pop = λ k c. (c.0, without k c.1);
  pop_lru = pop_last;
  len = λ c. length c.1;
  cap = λ c. c.0;
  peek = λ c. peek c.1;
  peek-new = λ n k. peek-nil k;
  len-new = λ n. refl;
  cap-new = λ n. refl;
  peek-get = λ j c k. peek-promote j (peek c.1 j) c.1 k refl;
  len-get = λ j c. length-promote j (peek c.1 j) c.1 refl;
  cap-get = λ j c. refl;
  peek-put = λ j a c k. peek-put_front c.0 j a c.1 k;
  len-put =
      λ j a c h. omega (arith, length-take c.0 ((j, a) ∷ without j c.1), length-without j c.1);
  cap-put = λ j a c. refl;
  peek-pop = λ j c k. peek-without j c.1 k;
  len-pop = λ j c. length-without j c.1;
  cap-pop = λ j c. refl;
  pop_lru-none = pop_last-none;
  pop_lru-some = pop_last-some;
}
