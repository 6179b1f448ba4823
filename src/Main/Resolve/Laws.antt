-- ===== src/Main/Resolve/Laws.antt =====
-- A name with a port.
use pcap2socks.Base.{ℕ, ◌≡◌, refl, ◌==◌, false, none, some, List, [], ◌∷◌, ◌++◌, Every, ok}
use pcap2socks.Net.{Ipv4Addr}
use pcap2socks.Main.Resolve.{
  Resolver, IpAddr, v4, v6, parsed, split, first_v4, resolve, from_str, colon,
}

abbrev pub HasNoColon : List ℕ → Type 0
HasNoColon s = Every (λ c. (c == colon) ≡ false) s

split_whole : (s : List ℕ) → HasNoColon s → split s ≡ s ∷ []
unfolding split
split_whole [] h = refl
split_whole (c ∷ s) (h, k) = rw (h, split_whole s k) refl

split_pair :
    (host service : List ℕ)
    → HasNoColon host
    → HasNoColon service
    → split (host ++ colon ∷ service) ≡ host ∷ service ∷ []
unfolding split
split_pair [] service h k = rw (split_whole service k) refl
split_pair (c ∷ host) service (h, hs) k = rw (h, split_pair host service hs k) refl

-- The first address of IPv4 in the list.
pub data IsFirst (ip : Ipv4Addr) : List IpAddr → Type 0 where
  here : (addrs : List IpAddr) → IsFirst ip (v4 ip ∷ addrs)
  later : (addrs : List IpAddr) → IsFirst ip addrs → IsFirst ip (v6 ∷ addrs)

first_v4-IsFirst :
    (ip : Ipv4Addr) {addrs : List IpAddr} → IsFirst ip addrs → first_v4 addrs ≡ some ip
unfolding first_v4
first_v4-IsFirst ip (here addrs) = refl
first_v4-IsFirst ip (later addrs h) = first_v4-IsFirst ip h

-- A text that is no address, but a host and a port with a colon between them and none inside, is
-- resolved to the first address of IPv4 that the lookup of the host gives, with the port, and keeps
-- the text as its alias.
pub from_str-lookup_host :
    (r : Resolver) (host service : List ℕ) (port : ℕ) (ip : Ipv4Addr) (addrs : List IpAddr)
    → HasNoColon host
    → HasNoColon service
    → r.parse_addr (host ++ colon ∷ service) ≡ none
    → r.parse_port service ≡ some port
    → r.lookup_host host ≡ ok addrs
    → IsFirst ip addrs
    → from_str r (host ++ colon ∷ service)
      ≡ parsed (record {
        addr = record { ip = ip; port = port };
        alias = some (host ++ colon ∷ service);
      })
unfolding from_str resolve
from_str-lookup_host r host service port ip addrs h k not_addr p l first =
    rw (not_addr, split_pair host service h k, p, l, first_v4-IsFirst ip first, from_str, resolve)
      refl
