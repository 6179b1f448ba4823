-- ===== src/Sequence/Tests.antt =====
-- Examples for the sequence arithmetic, across the end of the range.
use pcap2socks.Base.{◌+◌, ◌%◌, ◌≡◌, arith}
use pcap2socks.Sequence.{seq_add}
use pcap2socks.Sequence.Laws.{seq_add-mod}

seq_add-mod_example : seq_add 4294967290 10 ≡ (4294967290 + 10) % 4294967296 + 1
seq_add-mod_example = seq_add-mod 4294967290 10 (omega arith) (omega arith)
