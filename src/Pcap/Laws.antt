-- ===== src/Pcap/Laws.antt =====
-- The interface that is chosen.
use Prim.Native.String.{String}
use text.Mathlib.TextEquality.{eq_iff}
use pcap2socks.Base.{
  ◌≡◌, refl, ◌∙◌, Option-cases, subst, Result-cases, Every-map, ◌&&◌, Bool, Bool-cases, inl, inr,
  true, false, not, Option, none, some, List, [], ◌∷◌, Every, ok, err, arith,
}
use pcap2socks.Net.{Ipv4Addr, HardwareAddr}
use pcap2socks.Pcap.{
  Interface, Device, System, windows, unix, WindowsInterface, UnixInterface, ip_addr, ipv4_addrs,
  with_addrs, of_device, of_devices, mark_all, mark_windows, mark_unix, mark_interface,
  mark_interfaces, interfaces, retain, available, interface, cons_some, only, same_name,
}

abbrev HasAddr : Interface → Type 0
HasAddr i = (ip : Ipv4Addr) × (ips : List Ipv4Addr) × (i.ip_addrs ≡ ip ∷ ips)

with_addrs-HasAddr :
    (device : Device) (mac : HardwareAddr) (ips : List Ipv4Addr) (i : Interface)
    → with_addrs device mac ips ≡ some i
    → HasAddr i
unfolding with_addrs ip_addr
with_addrs-HasAddr device mac [] i h = cc
with_addrs-HasAddr device mac (ip ∷ ips) i h = (ip, ips, cc)

mark_unix-ip_addrs :
    (inter : UnixInterface) (i : Interface) → (mark_unix inter i).ip_addrs ≡ i.ip_addrs
unfolding mark_unix
mark_unix-ip_addrs inter i = elim (Bool-cases (same_name i.name inter.name)) [
  | inl same ↦
      rw same elim (Result-cases inter.mtu) [ inl (mtu, e) ↦ rw e refl | inr (e, e') ↦ rw e' refl ]
  | inr differ ↦ rw differ refl
]

mark_windows-ip_addrs :
    (inter : WindowsInterface) (i : Interface) → (mark_windows inter i).ip_addrs ≡ i.ip_addrs
unfolding mark_windows
mark_windows-ip_addrs inter i = ground arith

mark_all-ip_addrs :
    {A : Type 0} (mark : A → Interface → Interface) (inters : List A) (i : Interface)
    → ((a : A) (j : Interface) → (mark a j).ip_addrs ≡ j.ip_addrs)
    → (mark_all mark inters i).ip_addrs ≡ i.ip_addrs
unfolding mark_all
mark_all-ip_addrs mark [] i keep = refl
mark_all-ip_addrs mark (a ∷ inters) i keep =
    mark_all-ip_addrs mark inters (mark a i) keep ∙ keep a i

mark_interface-ip_addrs :
    (system : System) (i : Interface) → (mark_interface system i).ip_addrs ≡ i.ip_addrs
unfolding mark_interface
mark_interface-ip_addrs (windows (ok inters)) i =
    mark_all-ip_addrs mark_windows inters i mark_windows-ip_addrs
mark_interface-ip_addrs (windows (err e)) i = refl
mark_interface-ip_addrs (unix (ok inters)) i =
    mark_all-ip_addrs mark_unix inters i mark_unix-ip_addrs
mark_interface-ip_addrs (unix (err e)) i = refl

mark_interfaces-HasAddr :
    (system : System) (ifs : List Interface)
    → Every HasAddr ifs
    → Every HasAddr (mark_interfaces system ifs)
unfolding mark_interfaces
mark_interfaces-HasAddr system [] h = tt
mark_interfaces-HasAddr system (i ∷ ifs) ((ip, ips, e), rest) =
    ((ip, ips, mark_interface-ip_addrs system i ∙ e), mark_interfaces-HasAddr system ifs rest)

cons_some-HasAddr :
    (o : Option Interface) (ifs : List Interface)
    → ((i : Interface) → o ≡ some i → HasAddr i)
    → Every HasAddr ifs
    → Every HasAddr (cons_some o ifs)
cons_some-HasAddr none ifs h k = k
cons_some-HasAddr (some i) ifs h k = (h i refl, k)

of_device-HasAddr : (device : Device) (i : Interface) → of_device device ≡ some i → HasAddr i
unfolding of_device
of_device-HasAddr device i h = elim (Option-cases device.mac) [
  | inl missing ↦ absurd (cc (rw missing at h))
  | inr (mac, there) ↦ with_addrs-HasAddr device mac (ipv4_addrs device.ips) i (rw there at h)
]

of_devices-HasAddr : (devices : List Device) → Every HasAddr (of_devices devices)
unfolding of_devices
of_devices-HasAddr [] = tt
of_devices-HasAddr (device ∷ devices) =
    cons_some-HasAddr (of_device device) (of_devices devices) (of_device-HasAddr device)
      (of_devices-HasAddr devices)

retain-Every :
    (P : Interface → Type 0) (p : Interface → Bool) (ifs : List Interface)
    → Every P ifs
    → Every (λ i. P i × (p i ≡ true)) (retain p ifs)
unfolding retain
retain-Every P p [] h = tt
retain-Every P p (i ∷ ifs) (h, k) = elim (Bool-cases (p i)) [
  | inl kept ↦ rw kept ((h, kept), retain-Every P p ifs k)
  | inr dropped ↦ rw dropped (retain-Every P p ifs k)
]

only-Every :
    (P : Interface → Type 0) (ifs : List Interface) (i : Interface)
    → Every P ifs
    → only ifs ≡ some i
    → P i
only-Every P [] i h e = cc
only-Every P (j ∷ []) i (h, k) e = subst P (cc) h
only-Every P (j ∷ l ∷ ifs) i h e = cc

some_addr : (i : Interface) → HasAddr i → (ip : Ipv4Addr) × (ip_addr i ≡ some ip)
unfolding ip_addr
some_addr i (ip, ips, e) = (ip, rw e refl)

abbrev pub IsAvailable : Interface → Type 0
IsAvailable i =
    ((ip : Ipv4Addr) × (ip_addr i ≡ some ip)) × (i.is_up ≡ true) × (i.is_loopback ≡ false)

available-IsAvailable :
    (system : System) (devices : List Device) → Every IsAvailable (available system devices)
unfolding available interfaces
available-IsAvailable system devices =
    Every-map (λ i. HasAddr i × ((i.is_up && not i.is_loopback) ≡ true)) IsAvailable _
      (λ i (addr, kept). (some_addr i addr, ground arith, ground arith))
      (retain-Every HasAddr (λ i. i.is_up && not i.is_loopback) (interfaces system devices)
        (mark_interfaces-HasAddr system (of_devices devices) (of_devices-HasAddr devices)))

-- An interface that is chosen is up and no loopback, has an address of IPv4, and has the name that
-- was asked for.
pub interface-IsAvailable :
    (system : System) (devices : List Device) (name : Option String) (i : Interface)
    → interface system devices name ≡ some i
    → IsAvailable i × ((n : String) → name ≡ some n → i.name ≡ n)
unfolding interface
interface-IsAvailable system devices none i h = (
  only-Every IsAvailable (available system devices) i (available-IsAvailable system devices) h,
  λ n e. cc,
)
interface-IsAvailable system devices (some name) i h =
    let (fine, e) =
      only-Every (λ i. IsAvailable i × (same_name i.name name ≡ true)) _ i
        (retain-Every IsAvailable (λ i. same_name i.name name) (available system devices)
          (available-IsAvailable system devices))
        h in
    (fine, λ n same. (eq_iff i.name name).0 e ∙ (cc))
