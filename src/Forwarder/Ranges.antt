-- ===== src/Forwarder/Ranges.antt =====
-- `disjoint_u32_range` of src/lib.rs, and the loop of `retransmit_tcp_ack_without` that takes the
-- selectively acknowledged ranges out of what is to be sent again.
pub mod Laws
mod Tests
use pcap2socks.Base.{ℕ, ltb, leb, if◌then◌else◌, List, [], ◌∷◌, ◌++◌}
use pcap2socks.Sequence.{seq_sub, max_window_size}

-- A range of sequences, its end not included.
abbrev pub Range : Type 0
Range = ℕ × ℕ

unfoldable pub disjoint_u32_range : Range → Range → List Range
disjoint_u32_range (main_0, main_1) (sub_0, sub_1) =
    let size_main = seq_sub main_1 main_0 in
    let diff_first = seq_sub sub_0 main_0 in
    let diff_second = seq_sub sub_1 main_1 in
    if leb diff_first max_window_size
    then (if ltb max_window_size diff_second
        then (main_0, sub_0) ∷ (sub_1, main_1) ∷ []
        else (if leb size_main diff_first then (main_0, main_1) ∷ [] else (main_0, sub_0) ∷ []))
    else (if ltb max_window_size diff_second
        then (if ltb max_window_size (seq_sub sub_1 main_0)
            then (main_0, main_1) ∷ []
            else (sub_1, main_1) ∷ [])
        else [])

-- One round of the loop over the SACKs: the loop over the ranges left.
unfoldable pub without_sack : Range → List Range → List Range
unfolding disjoint_u32_range
without_sack sack [] = []
without_sack sack (range ∷ ranges) = disjoint_u32_range range sack ++ without_sack sack ranges

unfoldable pub without_sacks : List Range → List Range → List Range
unfolding without_sack
without_sacks ranges [] = ranges
without_sacks ranges (sack ∷ sacks) = without_sacks (without_sack sack ranges) sacks
