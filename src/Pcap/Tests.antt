-- ===== src/Pcap/Tests.antt =====
-- Examples for the choice of an interface: one device beside a loopback.
use pcap2socks.Base.{◌≡◌, refl, true, false, none, some, List, [], ◌∷◌, ok}
use pcap2socks.Pcap.{Interface, Device, System, v4, v6, unix, interface}

abbrev devices : List Device
devices =
    record { name = "lo"; mac = some 0; ips = v4 2130706433 ∷ []; is_up = true; is_loopback = true }
    ∷ record {
      name = "eth0";
      mac = some 2;
      ips = v6 ∷ v4 168430082 ∷ [];
      is_up = true;
      is_loopback = false;
    }
    ∷ []

abbrev system : System
system = unix (ok (record { name = "eth0"; mtu = ok 1500 } ∷ []))

abbrev eth0 : Interface
eth0 = record {
  name = "eth0";
  alias = none;
  hardware_addr = 2;
  ip_addrs = 168430082 ∷ [];
  mtu = 1500;
  is_up = true;
  is_loopback = false;
}

eth0_chosen : interface system devices (some "eth0") ≡ some eth0
unfolding interface
eth0_chosen = refl
