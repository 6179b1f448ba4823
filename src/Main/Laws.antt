-- ===== src/Main/Laws.antt =====
-- What the flags and the interface come to.
use Prim.Native.String.{String}
use pcap2socks.Base.{◌<◌, ◌≡◌, ◌==◌, ◌&&◌, ◌⊎◌, false, none, some, Run, done}
use pcap2socks.Net.{Ipv4Addr}
use pcap2socks.Pcap
use pcap2socks.Pcap.Laws.{IsAvailable}
use pcap2socks.Forwarder.State
use pcap2socks.Forwarder.State.{Forwarder}
use pcap2socks.Redirector.Tcp
use pcap2socks.Main.{
  Networks, Flags, Setup, Outcome, no_interface, no_mtu, no_preset, same_gateway, ready, or_addr,
  Proxied,
}

-- What structopt makes sure of: without a preset there is a source, and with a user a password.
pub record IsParsed (N : Networks) (flags : Flags N) : Type 0 where
  pub src_or_preset : flags.preset ≡ none → (n : N.Ipv4Network) × (flags.src ≡ some n)
  pub user_with_password :
      (name : String) → flags.username ≡ some name → (p : String) × (flags.password ≡ some p)

-- What the program listens with.
pub record IsSound (N : Networks) (flags : Flags N) (s : Setup N) : Type 0 where
  pub available : IsAvailable s.inter
  pub mtu : (flags.mtu ≡ some s.mtu) ⊎ (0 < s.mtu)
  pub gw : (ip : Ipv4Addr) × (Pcap.ip_addr s.inter ≡ some ip) × (s.gw ≡ or_addr s.publish ip)
  pub distinct : (N.size s.src == 1) && (N.network s.src == s.gw) ≡ false

-- A property of the setup if there is one.
abbrev pub OnReady : {N : Networks} → (Setup N → Type 0) → Outcome N → Type 0
OnReady P (ready s) = P s
OnReady P no_interface = Unit {0}
OnReady P no_mtu = Unit {0}
OnReady P no_preset = Unit {0}
OnReady P same_gateway = Unit {0}

-- A run that ends, with a property of its result.
abbrev pub Ends {ℓ} : {A : Type ℓ} → (A → Type 0) → Run A → Type ℓ
Ends {A = A} P run = (a : A) × (run ≡ done a) × P a

module _ (N : Networks) where
  -- The redirector that starts with a setup.
  abbrev pub Starts : Flags N → Setup N → Proxied N → Type 0
  Starts flags s p =
      (p.redirector.local_ip_addr ≡ s.gw)
      × (p.redirector.tx.local_mtu ≡ s.mtu)
      × (p.remote ≡ flags.dst)
