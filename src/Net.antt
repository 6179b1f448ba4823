-- ===== src/Net.antt =====
-- Addresses. An IPv4 address is its 32-bit number, a hardware address its 48-bit number.
use pcap2socks.Base.{ℕ, Bool, true, ◌&&◌, ◌==◌, ◌≡◌, ◌↔◌, arith, Key}

abbrev pub Ipv4Addr : Type 0
Ipv4Addr = ℕ

abbrev pub HardwareAddr : Type 0
HardwareAddr = ℕ

-- `SocketAddrV4`
pub record SocketAddr : Type 0 where
  pub ip : Ipv4Addr
  pub port : ℕ

-- The equality that the maps' keys are compared by.
unfoldable pub same_addr : SocketAddr → SocketAddr → Bool
same_addr a b = (a.ip == b.ip) && (a.port == b.port)

pub same_addr_iff : (a b : SocketAddr) → (same_addr a b ≡ true) ↔ (a ≡ b)
unfolding same_addr
same_addr_iff a b = ground arith

instance abbrev pub addr_key : Key SocketAddr
addr_key = record { same = same_addr; same_iff = same_addr_iff }
