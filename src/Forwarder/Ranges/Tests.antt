-- ===== src/Forwarder/Ranges/Tests.antt =====
-- Examples for the ranges of a retransmission.
use pcap2socks.Base.{◌≡◌, false, [], ◌∷◌, arith}
use pcap2socks.Forwarder.Ranges.{without_sacks}
use pcap2socks.Forwarder.Ranges.Laws.{covers, without_sacks-covers}

without_sacks-covers_example :
    covers 155 (without_sacks ((100, 200) ∷ []) ((110, 120) ∷ (150, 160) ∷ [])) ≡ false
without_sacks-covers_example =
    without_sacks-covers 100 200 (omega arith) (omega arith) 155 ((100, 200) ∷ [])
      ((110, 120) ∷ (150, 160) ∷ []) (omega arith) (omega arith)
