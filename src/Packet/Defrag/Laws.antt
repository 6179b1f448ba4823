-- ===== src/Packet/Defrag/Laws.antt =====
-- The fragments that `Forwarder` makes of a datagram are put together to that datagram.
use pcap2socks.Base.{
  take-append, ℕ, zero, suc, ap₂, if◌then◌else◌, ◌+◌, ◌*◌, ◌≤◌, ◌<◌, ◌≡◌, refl, sym, ◌∙◌, ap, subst,
  ltb, not, true, false, some, List, [], ◌∷◌, ◌++◌, length, take, drop, splice, done, write-eq-done,
  arith, ==_self, take_of_length, length-take, length-drop, length-splice, length-append,
  length-replicate, drop-drop, append_assoc,
}
use pcap2socks.Timer.{Instant}
use pcap2socks.Forwarder.Fragments.{Fragment}
use pcap2socks.Forwarder.Fragments.Laws.{AreFragments}
use pcap2socks.Packet.Ipv4
use pcap2socks.Packet.Ipv4.{Ipv4}
use pcap2socks.Packet.Defrag.{Fragmentation, new, add, add_all, is_completed}

-- A fragment behind the IPv4 layer that it is sent with.
abbrev pub framed : Ipv4 → Fragment → Ipv4 × List ℕ
framed ipv4 frag =
    (record ipv4 { fragment_offset = frag.offset; more_fragments = frag.more }, frag.payload)

abbrev pub all_framed : Ipv4 → List Fragment → List (Ipv4 × List ℕ)
all_framed ipv4 [] = []
all_framed ipv4 (frag ∷ frags) = framed ipv4 frag ∷ all_framed ipv4 frags

-- The first `n` bytes of the datagram are there, and no end was seen before they all are.
record Holds (datagram : List ℕ) (n : ℕ) (f : Fragmentation) : Type 0 where
  size : length f.buffer ≡ 65535
  count : f.length ≡ n
  bytes : take n f.buffer ≡ take n datagram
  total : n ≡ length datagram → f.total_length ≡ some (length datagram)

take_of_nil : (n : ℕ) → take {A = ℕ} n [] ≡ []
take_of_nil zero = refl
take_of_nil (suc n) = refl

take-sum : (m n : ℕ) (xs : List ℕ) → take (m + n) xs ≡ take m xs ++ take n (drop m xs)
take-sum zero n xs = let e : 0 + n ≡ n = omega arith in rw e refl
take-sum (suc m) n [] = let e : suc m + n ≡ suc (m + n) = omega arith in rw e (sym (take_of_nil n))
take-sum (suc m) n (x ∷ xs) =
    let e : suc m + n ≡ suc (m + n) = omega arith in rw e (ap (◌∷◌ x) (take-sum m n xs))

take-splice :
    (xs ys : List ℕ) (n : ℕ)
    → n + length ys ≤ length xs
    → take (n + length ys) (splice xs n ys) ≡ take n xs ++ ys
take-splice xs ys n h =
    let l = length-append (take n xs) ys in
    let m = length-take n xs in
    ap (take (n + length ys)) (sym (append_assoc (take n xs) ys (drop (n + length ys) xs)))
    ∙ take-append (take n xs ++ ys) (drop (n + length ys) xs) (n + length ys) (omega (arith, l, m))

add-Holds :
    (datagram : List ℕ) (n : ℕ) (f : Fragmentation) (ipv4 : Ipv4) (frag : Fragment)
    → length datagram ≤ 65535
    → Holds datagram n f
    → frag.offset * 8 ≡ n
    → n + length frag.payload ≤ length datagram
    → frag.payload ≡ take (length frag.payload) (drop n datagram)
    → frag.more ≡ ltb (length frag.payload) (length (drop n datagram))
    → (f' : Fragmentation) × (add f (framed ipv4 frag).0 frag.payload ≡ done f')
      × Holds datagram (n + length frag.payload) f'
unfolding add Ipv4.is_more_fragment
add-Holds datagram n f ipv4 frag h v offset within payload more =
    let len = length frag.payload in
    let left = length-drop n datagram in
    let written = write-eq-done f.buffer n (n + len) frag.payload refl (omega (arith, v.size)) in
    let f' : Fragmentation = record f {
      buffer = splice f.buffer n frag.payload;
      length = f.length + len;
      total_length = if not frag.more then some (n + len) else f.total_length;
    } in
    (
      f',
      rw (offset, written) refl,
      record {
        size = length-splice f.buffer n frag.payload (omega (arith, v.size)) ∙ v.size;
        count = ap (λ m. m + len) v.count;
        bytes =
            take-splice f.buffer frag.payload n (omega (arith, v.size))
            ∙ ap₂ ◌++◌ v.bytes payload
            ∙ sym (take-sum n len datagram);
        total = λ e.
            let last : ltb len (length (drop n datagram)) ≡ false = ground (arith, left) in
            rw (more, last) (ap some e);
      },
    )

add_all-Holds :
    (datagram : List ℕ) (mss n : ℕ) (f : Fragmentation) (ipv4 : Ipv4) (frags : List Fragment)
    → length datagram ≤ 65535
    → Holds datagram n f
    → n ≤ length datagram
    → AreFragments mss n (drop n datagram) frags
    → (f' : Fragmentation) × (add_all f (all_framed ipv4 frags) ≡ done f')
      × Holds datagram (length datagram) f'
unfolding add_all
add_all-Holds datagram mss n f ipv4 [] h v k a =
    let l = length-drop n datagram in
    let all : n ≡ length datagram = omega (arith, ap length a) in
    (f, refl, subst (λ m. Holds datagram m f) all v)
add_all-Holds datagram mss n f ipv4 (frag ∷ frags) h v k
      (offset, some_bytes, fits, payload, more, rest) =
    let l = length-drop n datagram in
    let m = length-take (length frag.payload) (drop n datagram) in
    let same : length frag.payload ≡ length (take (length frag.payload) (drop n datagram)) =
      ap length payload in
    let (f1, e, w) =
      add-Holds datagram n f ipv4 frag h v offset (omega (arith, same)) payload more in
    let (f', e', w') =
      add_all-Holds datagram mss (n + length frag.payload) f1 ipv4 frags h w (omega (arith, same)) (
        subst (λ bytes. AreFragments mss (n + length frag.payload) bytes frags)
          (drop-drop datagram n (length frag.payload)) rest) in
    (f', rw (e, e') refl, w')

new-Holds :
    (datagram : List ℕ) (ipv4 : Ipv4) (now : Instant)
    → 0 < length datagram
    → Holds datagram 0 (new ipv4 now)
unfolding new
new-Holds datagram ipv4 now h = record {
  size = length-replicate {A = ℕ} 65535 0;
  count = refl;
  bytes = refl;
  total = λ e. absurd (omega arith);
}

completed : (f : Fragmentation) → f.total_length ≡ some f.length → is_completed f ≡ true
unfolding is_completed
completed f e = rw (e, is_completed) (==_self f.length)

-- Fragments of a datagram of at most 65,535 bytes, each in its place, are put together in a new
-- group without a panic. It is complete then, and holds the datagram.
pub add_all-AreFragments :
    (datagram : List ℕ) (mss : ℕ) (now : Instant) (ipv4 : Ipv4) (frags : List Fragment)
    → 0 < length datagram
    → length datagram ≤ 65535
    → AreFragments mss 0 datagram frags
    → (f : Fragmentation) × (add_all (new ipv4 now) (all_framed ipv4 frags) ≡ done f)
      × (is_completed f ≡ true)
      × (take f.length f.buffer ≡ datagram)
add_all-AreFragments datagram mss now ipv4 frags p h a =
    let (f, e, v) =
      add_all-Holds datagram mss 0 (new ipv4 now) ipv4 frags h (new-Holds datagram ipv4 now p)
        (omega arith) a in
    let whole = v.total refl in
    (
      f,
      e,
      completed f (whole ∙ ap some (sym v.count)),
      ap (λ n. take n f.buffer) v.count ∙ v.bytes ∙ take_of_length datagram (length datagram) refl,
    )
