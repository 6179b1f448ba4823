-- ===== src/Main.antt =====
-- src/main.rs: what the program makes of its flags before it listens. Flags are parsed by the crate
-- structopt, networks are those of the crate ipnetwork, and log lines are left out.
pub mod Mask
pub mod Resolve
mod Laws
mod Tests
use Prim.Native.String.{String}
use text.Mathlib.Text as Text
use pcap2socks.Base.{
  ◌≡◌, ℕ, ◌+◌, ◌*◌, ◌/◌, ◌%◌, ◌==◌, ltb, ◌&&◌, ◌||◌, if◌then◌else◌, Bool, true, false, Option, none,
  some, List, Run, done, panic, ◌>>=◌, unwrap, Result, ok, err, ErrorKind, u8_max,
}
use pcap2socks.Net.{Ipv4Addr, SocketAddr}
use pcap2socks.Pcap
use pcap2socks.Pcap.{Interface, same_name}
use pcap2socks.Socks.Client.{SocksAuth, SocksOption, of_octets}
use pcap2socks.Forwarder.State
use pcap2socks.Redirector.Tcp
use pcap2socks.Redirector.Tcp.{Redirector}

-- `Ipv4Network`: a network of an address and a length of the prefix is one if that is at most 32,
-- and with 32 it has this address alone.
pub record Networks : Type 1 where
  pub Ipv4Network : Type 0
  pub new_network : Ipv4Addr → ℕ → Option Ipv4Network
  pub size : Ipv4Network → ℕ
  pub network : Ipv4Network → Ipv4Addr
  pub contains : Ipv4Network → Ipv4Addr → Bool
  pub new_host :
      (a : Ipv4Addr)
      → (n : Ipv4Network) × (new_network a 32 ≡ some n) × (size n ≡ 1) × (network n ≡ a)

pub record Flags (N : Networks) : Type 0 where
  pub inter : Option String
  pub mtu : Option ℕ
  pub preset : Option String
  pub src : Option N.Ipv4Network
  pub publish : Option Ipv4Addr
  pub dst : SocketAddr
  pub force_associate_dst : Bool
  pub force_associate_bind_addr : Bool
  pub username : Option String
  pub password : Option String

-- The presets that have names.
pub data Preset : Type 0 where
  tencent netease not_available : Preset

unfoldable pub preset_of : String → Preset
preset_of name =
    if same_name name "t" || same_name name "tencent"
    then tencent
    else (if same_name name "n"
          || (same_name name "netease" || (same_name name "u" || same_name name "uu"))
        then netease
        else not_available)

-- How the program goes on: it lists the interfaces or reports what is wrong and ends, or it opens
-- the interface with these values.
pub record Setup (N : Networks) : Type 0 where
  pub inter : Interface
  pub mtu : ℕ
  pub src : N.Ipv4Network
  pub publish : Option Ipv4Addr
  pub gw : Ipv4Addr

pub data Outcome (N : Networks) : Type 0 where
  no_interface no_mtu no_preset same_gateway : Outcome N
  ready : Setup N → Outcome N

-- An octet one up, with 0 for an overflow.
abbrev pub next_octet : ℕ → ℕ
next_octet n = if ltb n u8_max then n + 1 else 0

-- The addresses of the device and of the gateway that the preset of Netease has: 172.24, and the
-- last octets of the interface, the third of them one up for the device.
abbrev pub netease_src : Ipv4Addr → Ipv4Addr
netease_src ip = of_octets 172 24 (next_octet (ip / 256 % 256)) (ip % 256)

abbrev pub netease_publish : Ipv4Addr → Ipv4Addr
netease_publish ip = of_octets 172 24 (ip / 256 % 256) (ip % 256)

abbrev pub or_addr : Option Ipv4Addr → Ipv4Addr → Ipv4Addr
or_addr (some a) b = a
or_addr none b = b

module _ (N : Networks) where
  unfoldable pub mtu_of : Option ℕ → Interface → Option ℕ
  mtu_of (some mtu) inter = some mtu
  mtu_of none inter = if inter.mtu == 0 then none else some inter.mtu

  -- The network of the source; without one, the preset is not available.
  unfoldable pub preset_src : Preset → Interface → Run (Option N.Ipv4Network)
  unfolding Pcap.ip_addr
  preset_src tencent inter = do
    src ← unwrap (N.new_network (of_octets 10 6 0 1) 32)
    done (some src)
  preset_src netease inter = do
    ip ← unwrap (Pcap.ip_addr inter)
    src ← unwrap (N.new_network (netease_src ip) 32)
    done (some src)
  preset_src not_available inter = done none

  unfoldable pub src_of : Flags N → Interface → Run (Option N.Ipv4Network)
  unfolding preset_of preset_src
  src_of flags inter = elim flags.preset [
    | some preset ↦ preset_src (preset_of preset) inter
    | none ↦ (do src ← unwrap flags.src; done (some src))
  ]

  unfoldable pub preset_publish : Preset → Interface → Run (Option (Option Ipv4Addr))
  unfolding Pcap.ip_addr
  preset_publish tencent inter = done (some (some (of_octets 10 6 0 2)))
  preset_publish netease inter = do
    ip ← unwrap (Pcap.ip_addr inter)
    done (some (some (netease_publish ip)))
  preset_publish not_available inter = done none

  unfoldable pub publish_of : Flags N → Interface → Run (Option (Option Ipv4Addr))
  unfolding preset_of preset_publish
  publish_of flags inter = elim flags.preset [
    | some preset ↦ preset_publish (preset_of preset) inter
    | none ↦ done (some flags.publish)
  ]

  -- The gateway: the device cannot be its own.
  unfoldable pub gateway : Interface → ℕ → N.Ipv4Network → Option Ipv4Addr → Run (Outcome N)
  unfolding Pcap.ip_addr
  gateway inter mtu src publish = do
    ip ← unwrap (Pcap.ip_addr inter)
    let gw = or_addr publish ip
    if (N.size src == 1) && (N.network src == gw)
        then done same_gateway
        else done
            (ready (record { inter = inter; mtu = mtu; src = src; publish = publish; gw = gw }))

  unfoldable pub route : Flags N → Interface → ℕ → Run (Outcome N)
  unfolding src_of publish_of gateway
  route flags inter mtu = do
    found ← src_of flags inter
    elim found [
      | none ↦ done no_preset
      | some src ↦ (do
        published ← publish_of flags inter
        elim published [ none ↦ done no_preset | some publish ↦ gateway inter mtu src publish ])
    ]

  -- `main`, up to the opening of the interface that was found.
  unfoldable pub setup : Flags N → Option Interface → Run (Outcome N)
  unfolding route
  setup flags none = done no_interface
  setup flags (some inter) = elim (mtu_of flags.mtu inter) [
    | none ↦ done no_mtu
    | some mtu ↦ route flags inter mtu
  ]

  -- `auth`: a user without a password panics.
  unfoldable pub auth_of : Flags N → Run (Option SocksAuth)
  auth_of flags = elim flags.username [
    | none ↦ done none
    | some username ↦ (do
      password ← unwrap flags.password
      done (some (record { username = username; password = password })))
  ]

  -- The rest of `main` once the interface is open: the redirector with its options and the proxy.
  pub record Proxied : Type 0 where
    pub redirector : Redirector
    pub remote : SocketAddr
    pub options : SocksOption

  unfoldable pub start : Flags N → Setup N → (ℕ → Result (Unit {0})) → Run Proxied
  unfolding auth_of Pcap.ip_addr
  start flags s outcome = do
    ip ← unwrap (Pcap.ip_addr s.inter)
    let forwarder = State.new outcome s.mtu s.inter.hardware_addr ip
    auth ← auth_of flags
    done (record {
      redirector = Tcp.new forwarder (N.contains s.src) s.gw s.publish;
      remote = flags.dst;
      options = record {
        force_associate_remote = flags.force_associate_dst;
        force_associate_bind_addr = flags.force_associate_bind_addr;
        auth = auth;
      };
    })
