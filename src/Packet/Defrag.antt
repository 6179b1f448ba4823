-- ===== src/Packet/Defrag.antt =====
-- `Fragmentation` and `Defraggler` of src/packet/mod.rs: the fragments of a datagram are put
-- together in a buffer of 65,535 bytes. What pnet parses from the buffer is left out.
mod Laws
mod Tests
use pcap2socks.Base.{
  ℕ, ◌+◌, ◌*◌, ltb, ◌==◌, if◌then◌else◌, Bool, true, false, not, Option, none, some, List, [], ◌∷◌,
  length, replicate, Run, done, ◌>>=◌, write, Map, empty_map, insert, remove, Key, nat_key,
  pair_key,
}
use pcap2socks.Net.{Ipv4Addr}
use pcap2socks.Timer.{Instant, elapsed_since, as_millis}
use pcap2socks.Packet.Ipv4
use pcap2socks.Packet.Ipv4.{Ipv4}

-- `EXPIRE_TIME`, in milliseconds.
abbrev pub expire_time : ℕ
expire_time = 10000

-- The link layer's addresses, which nothing reads, are left out.
pub record Fragmentation : Type 0 where
  pub ipv4 : Ipv4
  pub buffer : List ℕ
  pub length : ℕ
  pub total_length : Option ℕ
  pub last_seen : Instant

-- The layer is that of the first fragment to arrive.
unfoldable pub new : Ipv4 → Instant → Fragmentation
new ipv4 now = record {
  ipv4 = ipv4;
  buffer = replicate 65535 0;
  length = 0;
  total_length = none;
  last_seen = now;
}

-- The last fragment tells the length of the whole.
unfoldable pub add : Fragmentation → Ipv4 → List ℕ → Run Fragmentation
unfolding Ipv4.is_more_fragment
add f ipv4 payload = do
  let offset = ipv4.fragment_offset * 8
  let total_length =
      if not (Ipv4.is_more_fragment ipv4) then some (offset + length payload) else f.total_length
  buffer ← write f.buffer offset (offset + length payload) payload
  done (record f {
    buffer = buffer;
    length = f.length + length payload;
    total_length = total_length;
  })

unfoldable pub is_completed : Fragmentation → Bool
is_completed f = elim f.total_length [ none ↦ false | some total_length ↦ f.length == total_length ]

unfoldable pub is_expired : Fragmentation → Instant → Bool
is_expired f now = ltb expire_time (as_millis (elapsed_since now f.last_seen))

-- The key has a fourth part in the source, `ipv4.kind()`, which is the kind of the IPv4 layer, the
-- same for every packet.
abbrev pub Defraggler : Type 0
Defraggler = Map ((Ipv4Addr × Ipv4Addr) × ℕ) Fragmentation

-- What the fragments so far are, or a new one if there are none or they are expired.
unfoldable pub group : Option Fragmentation → Ipv4 → Instant → Fragmentation
unfolding is_expired new
group none ipv4 now = new ipv4 now
group (some f) ipv4 now = if is_expired f now then new ipv4 now else f

-- A fragment, without the headers, is added. The group is returned once it is complete.
unfoldable pub defrag :
    Defraggler → Ipv4 → List ℕ → Instant → Run (Defraggler × Option Fragmentation)
unfolding group add is_completed
defrag frags ipv4 payload now = do
  let key : (Ipv4Addr × Ipv4Addr) × ℕ = ((ipv4.source, ipv4.destination), ipv4.identification)
  added ← add (group (frags key) ipv4 now) ipv4 payload
  if is_completed added
      then done (remove key frags, some added)
      else done (insert key added frags, none)

-- The fragments of one datagram, one after the other.
unfoldable pub add_all : Fragmentation → List (Ipv4 × List ℕ) → Run Fragmentation
unfolding add
add_all f [] = done f
add_all f ((ipv4, payload) ∷ rest) = do added ← add f ipv4 payload; add_all added rest
