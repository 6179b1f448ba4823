-- ===== src/Cache/Queue/Valid.antt =====
-- The invariant of the send window.
use pcap2socks.Base.{ℕ, ◌≤◌, length, arith, u32_max}
use pcap2socks.Cache.Queue.{Queue, with_capacity}

-- The capacity is a `u32`, so that no cast and no `usize` operation wraps.
pub record IsValid (q : Queue) : Type 0 where
  pub sequence_in : q.sequence ≤ u32_max
  pub capacity_in : q.capacity ≤ u32_max
  pub buffer_in : length q.buffer ≤ q.capacity
  pub size_in : q.size ≤ length q.buffer
  pub head_in : q.head ≤ length q.buffer

pub with_capacity-IsValid :
    (capacity sequence : ℕ)
    → capacity ≤ u32_max
    → sequence ≤ u32_max
    → IsValid (with_capacity capacity sequence)
unfolding with_capacity
with_capacity-IsValid capacity sequence h k = omega arith
