-- ===== src/Cache/Window/Merge.antt =====
-- The merging of ranges in `Window::append`.
use pcap2socks.Base.{ℕ, zero, suc, ◌+◌, ◌-◌, ◌≤◌, ◌<◌, ◌≡◌, refl, List, [], ◌∷◌, length, arith}
use pcap2socks.Cache.Window.Edges.{
  EdgeMap, remove, select, remove_all, keys, furthest_end, absorb, insert_range,
}

length-remove-le : (k : ℕ) (m : EdgeMap) → length (remove k m) ≤ length m
unfolding remove
length-remove-le k [] = omega arith
length-remove-le k ((j, u) ∷ m) = ground (arith, length-remove-le k m)

length-remove_all-le : (ks : List ℕ) (m : EdgeMap) → length (remove_all ks m) ≤ length m
unfolding remove_all
length-remove_all-le [] m = omega arith
length-remove_all-le (k ∷ ks) m =
    omega (arith, length-remove_all-le ks (remove k m), length-remove-le k m)

length-remove_selected :
    (lo hi k v : ℕ) (es m : EdgeMap) → select lo hi m ≡ (k, v) ∷ es → length (remove k m) < length m
unfolding select remove
length-remove_selected lo hi k v es [] h = absurd (cc)
length-remove_selected lo hi k v es ((j, u) ∷ m) h =
    ground (arith, length-remove_selected lo hi k v es m, length-remove-le k m)

absorb_step :
    (fuel lo hi end : ℕ) (sel m : EdgeMap)
    → select lo hi m ≡ sel
    → length m ≤ fuel
    → ((end' : ℕ) (m' : EdgeMap)
        → length m' < length m
        → select lo hi (absorb fuel lo hi end' m').0 ≡ [])
    → select lo hi (absorb (suc fuel) lo hi end m).0 ≡ []
unfolding absorb remove_all
absorb_step fuel lo hi end [] m e h ih = rw (e, absorb) e
absorb_step fuel lo hi end ((k, v) ∷ es) m e h ih =
    rw (e, absorb)
      (ih (furthest_end end ((k, v) ∷ es)) (remove_all (keys ((k, v) ∷ es)) m)
        (shorter (length-remove_selected lo hi k v es m e)))
  where
    shorter : length (remove k m) < length m → length (remove_all (keys ((k, v) ∷ es)) m) < length m
    shorter p = omega (arith, length-remove_all-le (keys es) (remove k m))

-- With one round more than there are ranges, the loop ends because no range is left that starts
-- in the new one.
pub absorb_ends :
    (fuel lo hi end : ℕ) (m : EdgeMap)
    → length m < fuel
    → select lo hi (absorb fuel lo hi end m).0 ≡ []
absorb_ends zero lo hi end m h = absurd (omega arith)
absorb_ends (suc fuel) lo hi end m h =
    absorb_step fuel lo hi end (select lo hi m) m refl (omega arith)
      (λ end' m' p. absorb_ends fuel lo hi end' m' (omega arith))

-- A payload that lies inside a stored range cuts that range off at the payload's end: the bytes
-- behind it are forgotten.
pub insert_range_inside :
    (window_sequence k v s n : ℕ)
    → window_sequence < k
    → k < s
    → s + n < k + v
    → insert_range ((k, v) ∷ []) window_sequence s n ≡ (k, s + n - k) ∷ []
unfolding insert_range
insert_range_inside window_sequence k v s n h p q = ground arith
