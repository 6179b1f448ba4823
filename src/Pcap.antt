-- ===== src/Pcap.antt =====
-- src/pcap/mod.rs and the choice of an interface in src/lib.rs. What pnet and the system say of
-- their interfaces is an argument.
pub mod Laws
mod Tests
use Prim.Native.String.{String}
use Prim.Native.Char.{code}
use text.Mathlib.Text as Text
use pcap2socks.Base.{
  ℕ, zero, suc, ◌-◌, ◌==◌, ◌&&◌, if◌then◌else◌, Bool, true, false, not, Option, none, some, List,
  [], ◌∷◌, length, drop, Result, ok, err, other, not_found,
}
use pcap2socks.Net.{Ipv4Addr, HardwareAddr}

abbrev pub same_name : String → String → Bool
same_name = Text.◌==◌

pub record Interface : Type 0 where
  pub name : String
  pub alias : Option String
  pub hardware_addr : HardwareAddr
  pub ip_addrs : List Ipv4Addr
  pub mtu : ℕ
  pub is_up : Bool
  pub is_loopback : Bool

unfoldable pub new : Interface
new = record {
  name = "";
  alias = none;
  hardware_addr = 0;
  ip_addrs = [];
  mtu = 0;
  is_up = false;
  is_loopback = false;
}

-- `ipnetwork::IpNetwork`
pub data IpNetwork : Type 0 where
  v4 : Ipv4Addr → IpNetwork
  v6 : IpNetwork

-- `datalink::NetworkInterface`
pub record Device : Type 0 where
  pub name : String
  pub mac : Option HardwareAddr
  pub ips : List IpNetwork
  pub is_up : Bool
  pub is_loopback : Bool

-- What `Channel` a device has, of those that pnet knows.
pub data Channel : Type 0 where
  ethernet unknown : Channel

-- `filter` and `next`: the first device of the name.
unfoldable pub find_device : String → List Device → Option Device
find_device name [] = none
find_device name (device ∷ devices) =
    if same_name device.name name then some device else find_device name devices

-- `open`, with what opening a channel gives. The channel itself has no state here.
unfoldable pub open_channel :
    Interface → List Device → (Device → Result Channel) → Result (Unit {0})
unfolding find_device
open_channel inter devices channel = elim (find_device inter.name devices) [
  | none ↦ err not_found
  | some device ↦ elim (channel device) [
    | err e ↦ err e
    | ok c ↦ elim c [ ethernet ↦ ok tt | unknown ↦ err other ]
  ]
]

-- The first address.
unfoldable pub ip_addr : Interface → Option Ipv4Addr
ip_addr inter = elim inter.ip_addrs [ [] ↦ none | ip ∷ ips ↦ some ip ]

unfoldable pub ipv4_addrs : List IpNetwork → List Ipv4Addr
ipv4_addrs [] = []
ipv4_addrs (v4 ip ∷ ips) = ip ∷ ipv4_addrs ips
ipv4_addrs (v6 ∷ ips) = ipv4_addrs ips

-- A device without an address of IPv4 is left out, and one without a hardware address.
unfoldable pub with_addrs : Device → HardwareAddr → List Ipv4Addr → Option Interface
unfolding new
with_addrs device mac [] = none
with_addrs device mac (ip ∷ ips) = some (record new {
  name = device.name;
  hardware_addr = mac;
  ip_addrs = ip ∷ ips;
  is_up = device.is_up;
  is_loopback = device.is_loopback;
})

unfoldable pub of_device : Device → Option Interface
unfolding ipv4_addrs with_addrs
of_device device = elim device.mac [
  | none ↦ none
  | some mac ↦ with_addrs device mac (ipv4_addrs device.ips)
]

abbrev cons_some : Option Interface → List Interface → List Interface
cons_some none ifs = ifs
cons_some (some i) ifs = i ∷ ifs

unfoldable pub of_devices : List Device → List Interface
unfolding of_device
of_devices [] = []
of_devices (device ∷ devices) = cons_some (of_device device) (of_devices devices)

-- What the system says of an interface, on Windows and elsewhere.
pub record WindowsInterface : Type 0 where
  pub name : String
  pub display_name : String
  pub mtu : ℕ
  pub is_up : Bool
  pub is_loopback : Bool

pub record UnixInterface : Type 0 where
  pub name : String
  pub mtu : Result ℕ

pub data System : Type 0 where
  windows : Result (List WindowsInterface) → System
  unix : Result (List UnixInterface) → System

abbrev codes : String → List ℕ
codes String.[] = []
codes (String.◌∷◌ c s) = code c ∷ codes s

abbrev same_codes : List ℕ → List ℕ → Bool
same_codes [] [] = true
same_codes [] (d ∷ ds) = false
same_codes (c ∷ cs) [] = false
same_codes (c ∷ cs) (d ∷ ds) = (c == d) && same_codes cs ds

-- `ends_with`
unfoldable pub ends_with : String → String → Bool
ends_with s t = same_codes (drop (length (codes s) - length (codes t)) (codes s)) (codes t)

unfoldable pub mark_windows : WindowsInterface → Interface → Interface
unfolding ends_with
mark_windows inter i =
    if ends_with i.name inter.name
    then record i {
      alias = some inter.display_name;
      mtu = inter.mtu;
      is_up = inter.is_up;
      is_loopback = inter.is_loopback;
    }
    else i

unfoldable pub mark_unix : UnixInterface → Interface → Interface
mark_unix inter i =
    if same_name i.name inter.name
    then (elim inter.mtu [ ok mtu ↦ record i { mtu = mtu } | err e ↦ i ])
    else i

-- Every interface, and then the rest of what the system says.
unfoldable pub mark_all :
    {A : Type 0} → (A → Interface → Interface) → List A → Interface → Interface
mark_all mark [] i = i
mark_all mark (inter ∷ inters) i = mark_all mark inters (mark inter i)

unfoldable pub mark_interface : System → Interface → Interface
unfolding mark_all mark_windows mark_unix
mark_interface (windows (ok inters)) i = mark_all mark_windows inters i
mark_interface (windows (err e)) i = i
mark_interface (unix (ok inters)) i = mark_all mark_unix inters i
mark_interface (unix (err e)) i = i

unfoldable pub mark_interfaces : System → List Interface → List Interface
unfolding mark_interface
mark_interfaces system [] = []
mark_interfaces system (i ∷ ifs) = mark_interface system i ∷ mark_interfaces system ifs

unfoldable pub interfaces : System → List Device → List Interface
unfolding of_devices mark_interfaces
interfaces system devices = mark_interfaces system (of_devices devices)

unfoldable pub retain : (Interface → Bool) → List Interface → List Interface
retain p [] = []
retain p (i ∷ ifs) = let rest = retain p ifs in if p i then i ∷ rest else rest

-- `interfaces` of src/lib.rs: those that are up, and no loopback.
unfoldable pub available : System → List Device → List Interface
unfolding interfaces retain
available system devices = retain (λ i. i.is_up && not i.is_loopback) (interfaces system devices)

abbrev only : List Interface → Option Interface
only [] = none
only (i ∷ []) = some i
only (i ∷ j ∷ ifs) = none

-- `interface` of src/lib.rs: the only one, of the name if there is one.
unfoldable pub interface : System → List Device → Option String → Option Interface
unfolding available retain
interface system devices none = only (available system devices)
interface system devices (some name) =
    only (retain (λ i. same_name i.name name) (available system devices))
