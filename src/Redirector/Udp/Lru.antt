-- ===== src/Redirector/Udp/Lru.antt =====
-- The interface of the crate `lru`, at the types it is used at, with what its documentation says:
-- a cache of bounded capacity, whose `pop_lru` takes the least recently used entry out.
use pcap2socks.Base.{ℕ, suc, ◌≤◌, ◌<◌, ◌≡◌, ◌==◌, if◌then◌else◌, Option, none, some}
use pcap2socks.Net.{SocketAddr}

pub record LruCache : Type 1 where
  pub Lru : Type 0
  pub new : ℕ → Lru
  -- The cache after a `get`, whose value is not used.
  pub get : ℕ → Lru → Lru
  pub put : ℕ → SocketAddr → Lru → Lru
  pub pop : ℕ → Lru → Lru
  pub pop_lru : Lru → Option ((ℕ × SocketAddr) × Lru)
  pub len : Lru → ℕ
  pub cap : Lru → ℕ
  -- `peek`
  pub peek : Lru → ℕ → Option SocketAddr
  pub peek-new : (n k : ℕ) → peek (new n) k ≡ none
  pub len-new : (n : ℕ) → len (new n) ≡ 0
  pub cap-new : (n : ℕ) → cap (new n) ≡ n
  pub peek-get : (j : ℕ) (c : Lru) (k : ℕ) → peek (get j c) k ≡ peek c k
  pub len-get : (j : ℕ) (c : Lru) → len (get j c) ≤ len c
  pub cap-get : (j : ℕ) (c : Lru) → cap (get j c) ≡ cap c
  pub peek-put :
      (j : ℕ) (a : SocketAddr) (c : Lru) (k : ℕ)
      → len c < cap c
      → peek (put j a c) k ≡ (if j == k then some a else peek c k)
  pub len-put : (j : ℕ) (a : SocketAddr) (c : Lru) → len c < cap c → len (put j a c) ≤ suc (len c)
  pub cap-put : (j : ℕ) (a : SocketAddr) (c : Lru) → cap (put j a c) ≡ cap c
  pub peek-pop : (j : ℕ) (c : Lru) (k : ℕ) → peek (pop j c) k ≡ (if j == k then none else peek c k)
  pub len-pop : (j : ℕ) (c : Lru) → len (pop j c) ≤ len c
  pub cap-pop : (j : ℕ) (c : Lru) → cap (pop j c) ≡ cap c
  pub pop_lru-none : (c : Lru) → pop_lru c ≡ none → len c ≡ 0
  pub pop_lru-some :
      (c : Lru) (j : ℕ) (a : SocketAddr) (rest : Lru)
      → pop_lru c ≡ some ((j, a), rest)
      → (peek c j ≡ some a)
        × ((k : ℕ) → peek rest k ≡ (if j == k then none else peek c k))
        × (len rest < len c)
        × (cap rest ≡ cap c)
