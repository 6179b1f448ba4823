-- ===== src/Forwarder/Segments/Moved.antt =====
-- What segmentation changes of the state: the sequence alone.
use pcap2socks.Base.{ℕ, ◌≤◌, ◌≡◌, refl, leb, Bool-cases, inl, inr, leb→le, arith, u32_max}
use pcap2socks.Sequence.{seq_add, seq_sub, max_window_size}
use pcap2socks.Sequence.Laws.{seq_bounds}
use pcap2socks.Tcp.Tx.{TcpTxState, add_sequence}
use pcap2socks.Tcp.Tx.Valid
use pcap2socks.Forwarder.Segments.{advance}

-- The states that differ in the sequence alone, which stays in range.
abbrev pub Moved : TcpTxState → TcpTxState → Type 0
Moved s s' =
    (sequence : ℕ) × (s' ≡ record s { sequence = sequence })
    × (s.sequence ≤ u32_max → sequence ≤ u32_max)

pub Moved-refl : (s : TcpTxState) → Moved s s
Moved-refl s = (s.sequence, refl, λ h. h)

pub Moved-trans : {a b c : TcpTxState} → Moved a b → Moved b c → Moved a c
Moved-trans {a} {b} {c} (m, e, h) (n, e', k) = (n, rw (e', e) refl, λ l. k (rw e (h l)))

pub advance-Moved : (s : TcpTxState) (recv_next : ℕ) → Moved s (advance s recv_next)
unfolding advance add_sequence
advance-Moved s recv_next = elim (Bool-cases (leb (seq_sub recv_next s.sequence) max_window_size)) [
  | inl near ↦
      let n = seq_sub recv_next s.sequence in
      let small = leb→le n max_window_size near in
      (seq_add s.sequence n, rw near refl, λ h. (seq_bounds s.sequence n h (omega arith)).0)
  | inr far ↦ (s.sequence, rw far refl, λ h. h)
]

pub Moved-IsValid : {s s' : TcpTxState} → Moved s s' → Valid.IsValid s → Valid.IsValid s'
Moved-IsValid {s} {s'} (n, e, h) v = let k = h v.sequence_in in rw e (ground arith)
