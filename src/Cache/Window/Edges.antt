-- ===== src/Cache/Window/Edges.antt =====
-- The filled ranges of `Window`: a `BTreeMap` from the first sequence of a range to its size, as an
-- association list in the order of the keys. A key below the window's sequence has `u32::MAX`
-- added, since the sequences go round.
use pcap2socks.Base.{
  ℕ, zero, suc, ◌+◌, ◌-◌, ltb, leb, ◌==◌, if◌then◌else◌, max, ◌&&◌, Option, none, some, List, [],
  ◌∷◌, length, Run, done, ◌>>=◌, sub, unwrap, u32_max,
}

abbrev pub EdgeMap : Type 0
EdgeMap = List (ℕ × ℕ)

unfoldable pub insert : ℕ → ℕ → EdgeMap → EdgeMap
insert k v [] = (k, v) ∷ []
insert k v ((j, u) ∷ m) =
    if ltb k j then (k, v) ∷ (j, u) ∷ m else (if k == j then (k, v) ∷ m else (j, u) ∷ insert k v m)

unfoldable pub remove : ℕ → EdgeMap → EdgeMap
remove k [] = []
remove k ((j, u) ∷ m) = if k == j then m else (j, u) ∷ remove k m

unfoldable pub first_edge : EdgeMap → Option (ℕ × ℕ)
first_edge [] = none
first_edge (e ∷ m) = some e

abbrev pub keys : EdgeMap → List ℕ
keys [] = []
keys ((k, v) ∷ m) = k ∷ keys m

-- `range(lo..=hi)`
unfoldable pub select : ℕ → ℕ → EdgeMap → EdgeMap
select lo hi [] = []
select lo hi ((k, v) ∷ m) = if leb lo k && leb k hi then (k, v) ∷ select lo hi m else select lo hi m

unfoldable pub remove_all : List ℕ → EdgeMap → EdgeMap
remove_all [] m = m
remove_all (k ∷ ks) m = remove_all ks (remove k m)

unfoldable pub furthest_end : ℕ → EdgeMap → ℕ
furthest_end end [] = end
furthest_end end ((k, v) ∷ m) = furthest_end (max end (k + v)) m

-- The loop that takes out the ranges that start in the new one, and finds the furthest end. Each
-- round takes one out at least, so as many rounds as there are ranges suffice.
unfoldable pub absorb : ℕ → ℕ → ℕ → ℕ → EdgeMap → EdgeMap × ℕ
absorb zero lo hi end m = (m, end)
absorb (suc fuel) lo hi end m = elim (select lo hi m) [
  | [] ↦ (m, end)
  | e ∷ es ↦ absorb fuel lo hi (furthest_end end (e ∷ es)) (remove_all (keys (e ∷ es)) m)
]

-- The last range that starts before a sequence.
unfoldable pub last_before : ℕ → Option (ℕ × ℕ) → EdgeMap → Option (ℕ × ℕ)
last_before s prev [] = prev
last_before s prev ((k, v) ∷ m) = last_before s (if ltb k s then some (k, v) else prev) m

-- The new range, from the start of the previous one if that reaches it.
unfoldable pub join_previous : Option (ℕ × ℕ) → ℕ → ℕ → ℕ × ℕ
join_previous none s size = (s, size)
join_previous (some (k, v)) s size = if leb s (k + v) then (k, size + (s - k)) else (s, size)

-- The block "insert and merge ranges" of `append`.
unfoldable pub insert_range : EdgeMap → ℕ → ℕ → ℕ → EdgeMap
unfolding insert absorb last_before join_previous select remove_all furthest_end remove
insert_range edges window_sequence sequence len =
    let s = if ltb sequence window_sequence then sequence + u32_max else sequence in
    let (m, end) = absorb (suc (length edges)) s (s + len) (s + len) edges in
    let (k, size) = join_previous (last_before s none m) s (end - s) in insert k size m

unfoldable pub lookup : ℕ → EdgeMap → Option ℕ
lookup k [] = none
lookup k ((j, u) ∷ m) = if k == j then some u else lookup k m

-- Every key less `u32::MAX`, once the window's sequence goes round.
unfoldable pub shift_from : List ℕ → EdgeMap → Run EdgeMap
unfolding insert remove lookup
shift_from [] m = done m
shift_from (k ∷ ks) m = do
  value ← unwrap (lookup k m)
  key ← sub k u32_max
  shift_from ks (insert key value (remove k m))

unfoldable pub shift_keys : EdgeMap → Run EdgeMap
unfolding shift_from
shift_keys m = shift_from (keys m) m
