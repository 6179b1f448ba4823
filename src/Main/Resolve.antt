-- ===== src/Main/Resolve.antt =====
-- `ResolvableSocketAddrV4` of src/main.rs: an address with a port, or a name with one that is looked
-- up. Texts are lists of bytes; the parsers of addresses and ports, and the lookup, are arguments.
pub mod Laws
use pcap2socks.Base.{
  ℕ, ◌==◌, if◌then◌else◌, Bool, true, false, Option, none, some, List, [], ◌∷◌, Result, ok, err,
  ErrorKind,
}
use pcap2socks.Net.{Ipv4Addr, SocketAddr}

-- `ResolvableAddrParseError`
pub data ParseError : Type 0 where
  addr_parse_error : ParseError
  resolve_error : ErrorKind → ParseError

pub record ResolvableSocketAddr : Type 0 where
  pub addr : SocketAddr
  pub alias : Option (List ℕ)

-- An address that a name stands for.
pub data IpAddr : Type 0 where
  v4 : Ipv4Addr → IpAddr
  v6 : IpAddr

pub record Resolver : Type 0 where
  pub parse_addr : List ℕ → Option SocketAddr
  pub parse_port : List ℕ → Option ℕ
  pub lookup_host : List ℕ → Result (List IpAddr)

pub data Parsed : Type 0 where
  parsed : ResolvableSocketAddr → Parsed
  failed : ParseError → Parsed

-- The byte of ":".
abbrev pub colon : ℕ
colon = 58

-- The first part of a split, with the rest of the parts.
abbrev push : ℕ → List (List ℕ) → List (List ℕ)
push c [] = (c ∷ []) ∷ []
push c (part ∷ parts) = (c ∷ part) ∷ parts

-- `split(":")`
unfoldable pub split : List ℕ → List (List ℕ)
split [] = [] ∷ []
split (c ∷ s) = let parts = split s in if c == colon then [] ∷ parts else push c parts

-- The loop over the addresses.
unfoldable pub first_v4 : List IpAddr → Option Ipv4Addr
first_v4 [] = none
first_v4 (v4 ip ∷ addrs) = some ip
first_v4 (v6 ∷ addrs) = first_v4 addrs

-- A name and a port.
unfoldable pub resolve : Resolver → List ℕ → List ℕ → List ℕ → Parsed
unfolding first_v4
resolve r s host service = elim (r.parse_port service) [
  | none ↦ failed addr_parse_error
  | some port ↦ elim (r.lookup_host host) [
    | err e ↦ failed (resolve_error e)
    | ok addrs ↦ elim (first_v4 addrs) [
      | none ↦ failed addr_parse_error
      | some ip ↦ parsed (record { addr = record { ip = ip; port = port }; alias = some s })
    ]
  ]
]

abbrev resolve_parts : Resolver → List ℕ → List (List ℕ) → Parsed
resolve_parts r s [] = failed addr_parse_error
resolve_parts r s (host ∷ []) = failed addr_parse_error
resolve_parts r s (host ∷ service ∷ []) = resolve r s host service
resolve_parts r s (host ∷ service ∷ part ∷ parts) = failed addr_parse_error

-- `from_str`
unfoldable pub from_str : Resolver → List ℕ → Parsed
unfolding split resolve
from_str r s = elim (r.parse_addr s) [
  | some addr ↦ parsed (record { addr = addr; alias = none })
  | none ↦ resolve_parts r s (split s)
]
