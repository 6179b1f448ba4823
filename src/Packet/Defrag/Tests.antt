-- ===== src/Packet/Defrag/Tests.antt =====
-- Examples for the defragmentation: 20 bytes in two fragments.
use pcap2socks.Base.{ℕ, ◌≡◌, refl, true, false, List, [], ◌∷◌, ◌++◌, take, done, arith}
use pcap2socks.Forwarder.Fragments.{Fragment}
use pcap2socks.Packet.Ipv4.{Ipv4, udp_protocol}
use pcap2socks.Packet.Defrag.{Fragmentation, new, add_all, is_completed}
use pcap2socks.Packet.Defrag.Laws.{all_framed, add_all-AreFragments}

abbrev ipv4 : Ipv4
ipv4 = record {
  identification = 7;
  more_fragments = false;
  fragment_offset = 0;
  next_level_protocol = udp_protocol;
  source = 168430081;
  destination = 16843009;
}

abbrev first : List ℕ
first = 0 ∷ 53 ∷ 156 ∷ 64 ∷ 0 ∷ 20 ∷ 0 ∷ 0 ∷ []

abbrev second : List ℕ
second = 1 ∷ 2 ∷ 3 ∷ 4 ∷ 5 ∷ 6 ∷ 7 ∷ 8 ∷ 9 ∷ 10 ∷ 11 ∷ 12 ∷ []

abbrev frags : List Fragment
frags =
    record { offset = 0; more = true; payload = first }
    ∷ record { offset = 1; more = false; payload = second }
    ∷ []

add_all-AreFragments_example :
    (f : Fragmentation) × (add_all (new ipv4 5) (all_framed ipv4 frags) ≡ done f)
    × (is_completed f ≡ true)
    × (take f.length f.buffer ≡ first ++ second)
add_all-AreFragments_example =
    add_all-AreFragments (first ++ second) 12 5 ipv4 frags (omega arith) (omega arith) (
      refl,
      omega arith,
      omega arith,
      refl,
      refl,
      (refl, omega arith, omega arith, refl, refl, refl),
    )
