-- ===== src/Tcp/Rx/Duplicates.antt =====
-- When duplicate acknowledgements call for a fast retransmission.
use pcap2socks.Base.{
  ℕ, zero, suc, ◌+◌, ◌-◌, Option, none, some, ◌≤◌, ◌<◌, ◌≡◌, ◌≢◌, refl, ap, ◌∙◌, ◌&&◌, leb, ◌==◌,
  true, false, not, arith, usize_max, ==_self, le→ltb, ◌↔◌,
}
use pcap2socks.Timer.{Instant}
use pcap2socks.Tcp.Rx.{TcpRxState, increase_duplicate, is_cooled_down}

-- The state after the same acknowledgement arrives `n` times in a row, at one time.
pub repeat_duplicate : ℕ → TcpRxState → ℕ → Instant → TcpRxState
repeat_duplicate zero s acknowledgement now = s
repeat_duplicate (suc n) s acknowledgement now =
    repeat_duplicate n (increase_duplicate s acknowledgement now).0 acknowledgement now

repeat_duplicate_count :
    (n : ℕ) (s : TcpRxState) (now : Instant)
    → s.duplicate + n ≤ usize_max
    → repeat_duplicate n s s.last_acknowledgement now ≡ record s { duplicate = s.duplicate + n }
unfolding repeat_duplicate increase_duplicate
repeat_duplicate_count zero s now h = ap (λ k. record s { duplicate = k }) (omega arith)
repeat_duplicate_count (suc n) s now h =
    let s' : TcpRxState = record s { duplicate = s.duplicate + 1 } in
    rw (==_self s.last_acknowledgement, le→ltb usize_max (s.duplicate + 1) (omega arith))
      (repeat_duplicate_count n s' now (omega arith)
        ∙ ap (λ k. record s { duplicate = k }) (omega arith))

-- The last retransmission is at least 200 milliseconds ago, in nanoseconds, or there was none.
abbrev pub IsLongAgo : Option Instant → Instant → Type 0
IsLongAgo none now = Unit {0}
IsLongAgo (some last) now = 200000000 ≤ now - last

is_cooled_down_iff :
    (last_retrans : Option Instant) (now : Instant)
    → (is_cooled_down last_retrans now ≡ false) ↔ IsLongAgo last_retrans now
unfolding is_cooled_down
is_cooled_down_iff none now = ground arith
is_cooled_down_iff (some last) now = ground arith

increase_duplicate_tests :
    (s : TcpRxState) (acknowledgement : ℕ) (now : Instant)
    → s.duplicate ≤ usize_max
    → ((increase_duplicate s acknowledgement now).1 ≡ true) ↔ (
        (s.last_acknowledgement ≡ acknowledgement)
        × (2 ≤ s.duplicate)
        × (is_cooled_down s.last_retrans now ≡ false))
unfolding increase_duplicate
increase_duplicate_tests s acknowledgement now h = ground arith

-- An acknowledgement calls for a retransmission exactly when it repeats the last one, for the third
-- time or more, and no retransmission was made less than 200 milliseconds ago.
pub increase_duplicate_iff :
    (s : TcpRxState) (acknowledgement : ℕ) (now : Instant)
    → s.duplicate ≤ usize_max
    → ((increase_duplicate s acknowledgement now).1 ≡ true) ↔ (
        (s.last_acknowledgement ≡ acknowledgement)
        × (2 ≤ s.duplicate)
        × IsLongAgo s.last_retrans now)
increase_duplicate_iff s acknowledgement now h =
    let (to, from) = is_cooled_down_iff s.last_retrans now in
    let (holds, calls) = increase_duplicate_tests s acknowledgement now h in
    (
      λ r. let (same, many, quiet) = holds r in (same, many, to quiet),
      λ (same, many, long_ago). calls (same, many, from long_ago),
    )

increase_new :
    (s : TcpRxState) (acknowledgement : ℕ) (now : Instant)
    → s.last_acknowledgement ≢ acknowledgement
    → increase_duplicate s acknowledgement now
      ≡ (record s { duplicate = 0; last_acknowledgement = acknowledgement }, false)
unfolding increase_duplicate
increase_new s acknowledgement now ne =
    let fresh : (s.last_acknowledgement == acknowledgement) ≡ false = ground arith in rw fresh refl

increase_repeated :
    (s : TcpRxState) (n : ℕ) (now : Instant)
    → n < usize_max
    → (increase_duplicate (record s { duplicate = n }) s.last_acknowledgement now).1
      ≡ (leb 3 (suc n) && not (is_cooled_down s.last_retrans now))
unfolding increase_duplicate
increase_repeated s n now h = ground arith

-- After a new acknowledgement, the fourth arrival and those behind it call for a retransmission,
-- unless one was made less than 200 milliseconds ago.
pub fourth_arrival :
    (n : ℕ) (s : TcpRxState) (acknowledgement : ℕ) (now : Instant)
    → s.last_acknowledgement ≢ acknowledgement
    → n ≤ usize_max
    → (increase_duplicate (repeat_duplicate n s acknowledgement now) acknowledgement now).1
      ≡ (leb 3 n && not (is_cooled_down s.last_retrans now))
unfolding repeat_duplicate
fourth_arrival zero s acknowledgement now ne h = rw (increase_new s acknowledgement now ne) refl
fourth_arrival (suc n) s acknowledgement now ne h =
    let s' : TcpRxState = record s { duplicate = 0; last_acknowledgement = acknowledgement } in
    rw (increase_new s acknowledgement now ne, repeat_duplicate_count n s' now (omega arith))
      (ap (λ k. (increase_duplicate (record s' { duplicate = k }) acknowledgement now).1)
          (omega arith)
        ∙ increase_repeated s' n now (omega arith))
