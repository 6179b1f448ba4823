-- ===== src/Main/Tests.antt =====
-- Examples for the setup: the preset of Tencent on one device, and a name that is looked up.
use pcap2socks.Base.{
  ◌≡◌, ◌-◌, ◌==◌, refl, true, false, none, some, List, [], ◌∷◌, ◌++◌, replicate, ok,
}
use pcap2socks.Net.{Ipv4Addr, SocketAddr}
use pcap2socks.Pcap.{Device, System, v4, unix}
use pcap2socks.Socks.Client.{octets}
use pcap2socks.Main.{Networks, Flags}
use pcap2socks.Main.Mask.{mask_octets}
use pcap2socks.Main.Mask.Laws.{common, mask_octets_lem}
use pcap2socks.Main.Resolve.{Resolver, from_str, parsed, colon, v6}
use pcap2socks.Main.Resolve as Resolve
use pcap2socks.Main.Resolve.Laws.{here, later, from_str-lookup_host}

-- Networks of one address.
abbrev hosts : Networks
hosts = record {
  Ipv4Network = Ipv4Addr;
  new_network = λ a n. some a;
  size = λ n. 1;
  network = λ n. n;
  contains = λ n a. a == n;
  new_host = λ a. (a, refl, refl, refl);
}

abbrev proxy : SocketAddr
proxy = record { ip = 2130706433; port = 1080 }

abbrev flags : Flags hosts
flags = record {
  inter = none;
  mtu = some 1400;
  preset = some "t";
  src = none;
  publish = none;
  dst = proxy;
  force_associate_dst = false;
  force_associate_bind_addr = false;
  username = none;
  password = none;
}

abbrev devices : List Device
devices =
    record {
      name = "eth0";
      mac = some 2;
      ips = v4 168430082 ∷ [];
      is_up = true;
      is_loopback = false;
    }
    ∷ []

abbrev system : System
system = unix (ok [])

mask_octets_lem_example :
    mask_octets 168165377 168165378 4294967295
    ≡ replicate (common (octets 168165377) (octets 168165378) (octets 4294967295)) 255
      ++ replicate (4 - common (octets 168165377) (octets 168165378) (octets 4294967295)) 0
mask_octets_lem_example = mask_octets_lem 168165377 168165378 4294967295

-- The host "a" and the port "1".
abbrev resolver : Resolver
resolver = record {
  parse_addr = λ s. none;
  parse_port = λ s. some 1;
  lookup_host = λ s. ok (v6 ∷ Resolve.v4 134744072 ∷ []);
}

from_str-lookup_host_example :
    from_str resolver ((97 ∷ []) ++ colon ∷ 49 ∷ [])
    ≡ parsed (record {
      addr = record { ip = 134744072; port = 1 };
      alias = some ((97 ∷ []) ++ colon ∷ 49 ∷ []);
    })
from_str-lookup_host_example =
    from_str-lookup_host resolver (97 ∷ []) (49 ∷ []) 1 134744072 (v6 ∷ Resolve.v4 134744072 ∷ [])
      (refl, tt) (refl, tt) refl refl refl (later (Resolve.v4 134744072 ∷ []) (here []))
