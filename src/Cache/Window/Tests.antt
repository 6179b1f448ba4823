-- ===== src/Cache/Window/Tests.antt =====
-- Examples for `Window`: a payload that came before.
use pcap2socks.Base.{◌≡◌, [], ◌∷◌, panic, arith}
use pcap2socks.Cache.Window.{Window, append}
use pcap2socks.Cache.Window.Laws.{append_old_panics}

abbrev fresh : Window
fresh = record {
  buffer = 0 ∷ 0 ∷ 0 ∷ 0 ∷ [];
  capacity = 6;
  sequence = 100;
  head = 3;
  size = 0;
  edges = [];
}

append_old_panics_example : append fresh 90 (1 ∷ 2 ∷ 3 ∷ []) ≡ panic
append_old_panics_example =
    append_old_panics fresh 90 (1 ∷ 2 ∷ 3 ∷ []) (omega arith) (omega arith) (omega arith)
      (omega arith)
