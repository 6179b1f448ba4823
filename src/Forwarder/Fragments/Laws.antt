-- ===== src/Forwarder/Fragments/Laws.antt =====
-- The fragments hold the datagram, each in its place.
use pcap2socks.Base.{
  drop-drop, out_of_fuel, ℕ, zero, suc, ◌+◌, ◌-◌, ◌*◌, ◌/◌, ◌%◌, ◌≤◌, ◌<◌, ◌≡◌, refl, sym, ◌∙◌, ap,
  subst, ltb, leb, min, true, Bool-cases, inl, inr, Option, List, [], ◌∷◌, length, take, drop, done,
  slice-eq-done, ok, arith, length-take, length-drop, drop_beyond, le→ltb, lt→ltb, lt→leb, as_u16,
}
use pcap2socks.Forwarder.Segments.{mtu_of}
use pcap2socks.Forwarder.Fragments.{
  Fragment, fragment, aligned_length, spared_length, send_fragments, fragments, send_udp,
}

-- Fragments that hold the bytes from `n` on, in order and without a gap: each stands at its offset,
-- is not empty and no longer than the limit, and says whether more bytes follow.
abbrev pub AreFragments : ℕ → ℕ → List ℕ → List Fragment → Type 0
AreFragments mss n bytes [] = bytes ≡ []
AreFragments mss n bytes (f ∷ fs) =
    (f.offset * 8 ≡ n)
    × (0 < length f.payload)
    × (length f.payload ≤ mss)
    × (f.payload ≡ take (length f.payload) bytes)
    × (f.more ≡ ltb (length f.payload) (length bytes))
    × AreFragments mss (n + length f.payload) (drop (length f.payload) bytes) fs

aligned_over : (mss left : ℕ) → mss < left → aligned_length mss left ≡ mss / 8 * 8
unfolding aligned_length
aligned_over mss left h =
    let m : min left mss ≡ mss = omega arith in rw (m, lt→ltb 0 (left - mss) (omega arith)) refl

aligned_within : (mss left : ℕ) → left ≤ mss → aligned_length mss left ≡ left
unfolding aligned_length
aligned_within mss left h =
    let m : min left mss ≡ left = omega arith in
    let z : left - left ≡ 0 = omega arith in rw (m, z) refl

-- What the length of a fragment is like.
record IsLength (mss left size : ℕ) : Type 0 where
  positive : 0 < size
  bounded : size ≤ mss
  within : size ≤ left
  more : ltb 0 (left - aligned_length mss left) ≡ ltb size left
  aligned : size < left → size % 8 ≡ 0

spared_length_run :
    (mss left : ℕ)
    → 0 < left
    → 16 ≤ mss
    → (size : ℕ) × (spared_length mss left ≡ done size) × IsLength mss left size
unfolding spared_length
spared_length_run mss left p h = elim (Bool-cases (leb left mss)) [
  | inl e ↦
      let a = aligned_within mss left (ground arith) in
      let z : left - left ≡ 0 = omega arith in
      (
        left,
        rw (a, z) refl,
        record {
          positive = p;
          bounded = ground arith;
          within = omega arith;
          more = rw (a, z) (sym (le→ltb left left (omega arith)));
          aligned = λ k. absurd (omega arith);
        },
      )
  | inr e ↦
      let a = aligned_over mss left (ground arith) in
      let b : mss < left = ground arith in
      let rest : ltb 0 (left - mss / 8 * 8) ≡ true = lt→ltb 0 (left - mss / 8 * 8) (omega arith) in
      elim (Bool-cases (ltb (left - mss / 8 * 8) 8)) [
        | inl s ↦ (
          mss / 8 * 8 - 8,
          rw (a, rest, s, le→ltb (mss / 8 * 8) 8 (omega arith)) refl,
          record {
            positive = omega arith;
            bounded = omega arith;
            within = omega arith;
            more = rw (a, rest) (sym (lt→ltb (mss / 8 * 8 - 8) left (omega arith)));
            aligned = λ k. omega arith;
          },
        )
        | inr s ↦ (
          mss / 8 * 8,
          rw (a, rest, s) refl,
          record {
            positive = omega arith;
            bounded = omega arith;
            within = omega arith;
            more = rw (a, rest) (sym (lt→ltb (mss / 8 * 8) left (omega arith)));
            aligned = λ k. omega arith;
          },
        )
      ]
]

fragment_run :
    (mss : ℕ) (buffer : List ℕ) (n : ℕ)
    → 16 ≤ mss
    → n < length buffer
    → n % 8 ≡ 0
    → length buffer ≤ 524280
    → (f : Fragment) × (size : ℕ) × (fragment mss buffer n ≡ done (f, size))
      × IsLength mss (length buffer - n) size
      × (f.offset * 8 ≡ n)
      × (f.payload ≡ take size (drop n buffer))
      × (f.more ≡ ltb size (length buffer - n))
unfolding fragment
fragment_run mss buffer n h p d k =
    let (size, e, s) = spared_length_run mss (length buffer - n) (omega arith) h in
    let cut = slice-eq-done buffer n (n + size) (omega arith) (omega (arith, s.within)) in
    let cast : n + size - n ≡ size = omega arith in
    (
      record {
        offset = as_u16 (n / 8);
        more = ltb 0 (length buffer - n - aligned_length mss (length buffer - n));
        payload = take size (drop n buffer);
      },
      size,
      rw (e, cut, cast) refl,
      s,
      omega arith,
      refl,
      s.more,
    )

AreFragments-behind :
    (mss : ℕ) (buffer : List ℕ) (n size l : ℕ) (fs : List Fragment)
    → l ≡ size
    → AreFragments mss (n + size) (drop (n + size) buffer) fs
    → AreFragments mss (n + l) (drop l (drop n buffer)) fs
AreFragments-behind mss buffer n size l fs e a =
    subst (λ k. AreFragments mss (n + k) (drop k (drop n buffer)) fs) (sym e)
      (subst (λ bytes. AreFragments mss (n + size) bytes fs) (sym (drop-drop buffer n size)) a)

send_fragments_run :
    (fuel mss : ℕ) (buffer : List ℕ) (n : ℕ)
    → 16 ≤ mss
    → length buffer ≤ 524280
    → (n < length buffer → n % 8 ≡ 0)
    → length buffer - n < fuel
    → (fs : List Fragment) × (send_fragments fuel mss buffer n (λ j. ok tt) ≡ done (fs, ok tt))
      × AreFragments mss n (drop n buffer) fs
unfolding send_fragments
send_fragments_run zero mss buffer n h k d f = absurd (omega arith)
send_fragments_run (suc fuel) mss buffer n h k d f = elim (Bool-cases (ltb n (length buffer))) [
  | inl more ↦
      let here : n < length buffer = ground arith in
      let (g, size, e, s, offset, payload, m) = fragment_run mss buffer n h here (d here) k in
      let (fs, e', rest) =
        send_fragments_run fuel mss buffer (n + size) h k
          (λ q. omega (arith, d here, s.aligned (omega (arith, q)))) (omega (arith, s.positive)) in
      let len : length g.payload ≡ size =
        ap length payload
        ∙ length-take size (drop n buffer)
        ∙ omega (arith, length-drop n buffer, s.within) in
      (
        g ∷ fs,
        rw (more, e, e') refl,
        (
          offset,
          omega (arith, len, s.positive),
          omega (arith, len, s.bounded),
          rw len payload,
          rw (len, length-drop n buffer) m,
          AreFragments-behind mss buffer n size (length g.payload) fs len rest,
        ),
      )
  | inr over ↦ ([], rw over refl, drop_beyond n buffer (ground arith))
]

-- Where every packet can be sent and the MTU is 36 at least, the loop over the fragments of a
-- datagram that does not fit ends. The fragments hold the whole datagram in its order: each stands
-- at its offset, a multiple of 8, is not empty, fits, and says whether more bytes follow.
pub send_udp_run :
    (local_mtu : ℕ) (src_mtu : Option ℕ) (payload buffer : List ℕ)
    → 36 ≤ mtu_of local_mtu src_mtu
    → length buffer ≡ 8 + length payload
    → length buffer ≤ 524280
    → mtu_of local_mtu src_mtu < 20 + length buffer
    → (fs : List Fragment) × (send_udp local_mtu src_mtu payload buffer (λ j. ok tt)
        ≡ done (fragments fs, ok tt))
      × AreFragments (mtu_of local_mtu src_mtu - 20) 0 buffer fs
unfolding send_udp
send_udp_run local_mtu src_mtu payload buffer h l k m =
    let mss = mtu_of local_mtu src_mtu - 20 in
    let (fs, e, a) =
      send_fragments_run (suc (length buffer)) mss buffer 0 (omega arith) k (λ q. refl)
        (omega arith) in
    (
      fs,
      rw
          (
            le→ltb (mtu_of local_mtu src_mtu) 20 (omega arith),
            lt→leb (8 + length payload) mss (omega arith),
            e,
          )
          refl,
      a,
    )

spared_length-stalled :
    (mss left : ℕ) → 8 ≤ mss → mss < left → left < 16 → spared_length mss left ≡ done 0
unfolding spared_length
spared_length-stalled mss left h k l =
    let a = aligned_over mss left k in
    let q : mss / 8 * 8 ≡ 8 = omega arith in
    rw (a, q, lt→ltb 0 (left - 8) (omega arith), lt→ltb (left - 8) 8 (omega arith)) refl

-- A round with room for 8 bytes and less than 16 left makes a fragment of no byte.
fragment_empty :
    (mss : ℕ) (buffer : List ℕ)
    → 8 ≤ mss
    → mss < length buffer
    → length buffer < 16
    → (frag : Fragment) × (fragment mss buffer 0 ≡ done (frag, 0)) × (frag.payload ≡ [])
unfolding fragment
fragment_empty mss buffer h k l =
    let e = spared_length-stalled mss (length buffer) h k l in
    let cut = slice-eq-done buffer 0 0 (omega arith) (omega arith) in
    let z : length buffer - 0 ≡ length buffer = omega arith in
    (
      record {
        offset = as_u16 (0 / 8);
        more = ltb 0 (length buffer - 0 - aligned_length mss (length buffer - 0));
        payload = [];
      },
      rw (z, e, cut) refl,
      refl,
    )

stalls_from :
    (fuel mss : ℕ) (buffer : List ℕ)
    → 8 ≤ mss
    → mss < length buffer
    → length buffer < 16
    → send_fragments fuel mss buffer 0 (λ j. ok tt) ≡ out_of_fuel
unfolding send_fragments
stalls_from zero mss buffer h k l = refl
stalls_from (suc fuel) mss buffer h k l =
    let (frag, made, _) = fragment_empty mss buffer h k l in
    rw (lt→ltb 0 (length buffer) (omega arith), made, stalls_from fuel mss buffer h k l) refl

-- Where a packet has room for 8 bytes at least, every packet is sent, and the datagram has more
-- bytes than there is room for and fewer than 16, the loop over its fragments uses up any fuel: each
-- round is made without a panic, at the start of the datagram, and its fragment holds no byte.
pub send_fragments_stalls :
    (fuel mss : ℕ) (buffer : List ℕ)
    → 8 ≤ mss
    → mss < length buffer
    → length buffer < 16
    → (send_fragments fuel mss buffer 0 (λ j. ok tt) ≡ out_of_fuel)
      × (frag : Fragment) × (fragment mss buffer 0 ≡ done (frag, 0))
      × (frag.payload ≡ [])
send_fragments_stalls fuel mss buffer h k l =
    let (frag, made, empty) = fragment_empty mss buffer h k l in
    (stalls_from fuel mss buffer h k l, frag, made, empty)
