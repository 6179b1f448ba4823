-- ===== src/Forwarder/Fragments/Tests.antt =====
-- Examples for the fragments: a datagram of 20 bytes over an MTU of 36, with room for 16.
use pcap2socks.Base.{ℕ, ◌≡◌, refl, none, List, [], ◌∷◌, ◌++◌, done, out_of_fuel, ok, arith}
use pcap2socks.Forwarder.Segments.{mtu_of}
use pcap2socks.Forwarder.Fragments.{Fragment, fragment, fragments, send_fragments, send_udp}
use pcap2socks.Forwarder.Fragments.Laws.{AreFragments, send_udp_run, send_fragments_stalls}

abbrev header : List ℕ
header = 0 ∷ 53 ∷ 156 ∷ 64 ∷ 0 ∷ 20 ∷ 0 ∷ 0 ∷ []

abbrev payload : List ℕ
payload = 1 ∷ 2 ∷ 3 ∷ 4 ∷ 5 ∷ 6 ∷ 7 ∷ 8 ∷ 9 ∷ 10 ∷ 11 ∷ 12 ∷ []

send_udp_run_example :
    (fs : List Fragment) × (send_udp 36 none payload (header ++ payload) (λ j. ok tt)
      ≡ done (fragments fs, ok tt))
    × AreFragments 16 0 (header ++ payload) fs
unfolding mtu_of
send_udp_run_example =
    send_udp_run 36 none payload (header ++ payload) (omega arith) refl (omega arith) (omega arith)

-- An MTU of 28, and a payload of four bytes.
send_fragments_stalls_example :
    (send_fragments 1000 8 (header ++ (1 ∷ 2 ∷ 3 ∷ 4 ∷ [])) 0 (λ j. ok tt) ≡ out_of_fuel)
    × (frag : Fragment) × (fragment 8 (header ++ (1 ∷ 2 ∷ 3 ∷ 4 ∷ [])) 0 ≡ done (frag, 0))
    × (frag.payload ≡ [])
send_fragments_stalls_example =
    send_fragments_stalls 1000 8 (header ++ (1 ∷ 2 ∷ 3 ∷ 4 ∷ [])) (omega arith) (omega arith)
      (omega arith)
