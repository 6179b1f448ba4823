-- ===== src/Tcp/Tx/Valid.antt =====
-- The invariant of `TcpTxState`, and that the operations keep it.
use native.Mathlib.Nat.{pow-le-pow_right, mod-eq_of_lt}
use pcap2socks.Base.{
  ℕ, ◌*◌, ◌^◌, ◌≤◌, ◌<◌, ◌≡◌, refl, min, Bool, Option, none, some, List, [], ◌∷◌, length,
  length-take, done, arith, u32_max, u16_max, lt→leb,
}
use pcap2socks.Net.{SocketAddr}
use pcap2socks.Sequence.Laws.{seq_bounds}
use pcap2socks.Cache.Queue
use pcap2socks.Cache.Queue.{Queue}
use pcap2socks.Cache.Queue.Valid
use pcap2socks.Tcp.Tx.{
  TcpTxState, min_rto, max_rto, recv_window, shift_left, or_zero, initial, new, add_sequence,
  add_acknowledgement, set_sacks, set_rto, double_rto, update_fin_timer, append_cache_fin,
}
use pcap2socks.Timer.{Instant}
use pcap2socks.Tcp.Tx.Rto.{IsTimed}

-- No SACK list is empty or longer than four.
abbrev pub IsSackList : Option (List (ℕ × ℕ)) → Type 0
IsSackList none = Unit {0}
IsSackList (some l) = (0 < length l) × (length l ≤ 4)

pub record IsValid (s : TcpTxState) : Type 0 where
  pub cache : Valid.IsValid s.cache
  pub sequence_in : s.sequence ≤ u32_max
  pub acknowledgement_in : s.acknowledgement ≤ u32_max
  pub rto_low : min_rto ≤ s.rto
  pub rto_high : s.rto ≤ max_rto
  pub timed : IsTimed s.srtt s.rttvar
  pub sacks : IsSackList s.sacks

-- A 16-bit window scaled by at most 14, the limit of RFC 7323, loses no bit.
pub shift_left_run :
    (n s : ℕ)
    → n ≤ u16_max
    → s ≤ 14
    → (shift_left n s ≡ done (n * 2 ^ s)) × (n * 2 ^ s ≤ 1073725440)
unfolding shift_left
shift_left_run n s h t =
    let p : 2 ^ s ≤ 2 ^ 14 = pow-le-pow_right {n = 2} (omega arith) t in
    let q : n * 2 ^ s ≤ u16_max * 2 ^ 14 = grind arith in
    (
      rw (lt→leb 64 s (omega arith), mod-eq_of_lt {n = n * 2 ^ s} {m = 2 ^ 64} (omega arith)),
      omega arith,
    )

abbrev pub IsScale : Option ℕ → Type 0
IsScale none = Unit {0}
IsScale (some s) = s ≤ 14

or_zero_le : (o : Option ℕ) → IsScale o → or_zero o ≤ 14
or_zero_le none h = omega arith
or_zero_le (some s) h = h

-- With a 16-bit send window and scales of at most 14, a new connection does not panic and is
-- valid. Its cache is empty with the scaled receive window as its capacity, and its send window is
-- the one given, scaled.
pub new-IsValid :
    (src dst : SocketAddr) (sequence acknowledgement send_window : ℕ) (send_wscale : Option ℕ)
    (sack_perm : Bool) (wscale : Option ℕ)
    → sequence ≤ u32_max
    → acknowledgement ≤ u32_max
    → send_window ≤ u16_max
    → IsScale send_wscale
    → IsScale wscale
    → (s : TcpTxState) × (new src dst sequence acknowledgement send_window send_wscale sack_perm
          wscale
        ≡ done s)
      × IsValid s
      × (s.cache.capacity ≡ recv_window * 2 ^ or_zero wscale)
      × (s.send_window ≡ send_window * 2 ^ or_zero send_wscale)
      × (Queue.contents s.cache ≡ [])
unfolding new Queue.with_capacity
new-IsValid src dst sequence acknowledgement send_window send_wscale sack_perm wscale h1 h2 h3 h4
      h5 =
    let a = shift_left_run send_window (or_zero send_wscale) h3 (or_zero_le send_wscale h4) in
    let b = shift_left_run recv_window (or_zero wscale) (omega arith) (or_zero_le wscale h5) in
    (
      initial src dst sequence acknowledgement (send_window * 2 ^ or_zero send_wscale) send_wscale
          sack_perm (recv_window * 2 ^ or_zero wscale),
      rw (a.0, b.0) refl,
      omega arith,
      refl,
      refl,
      refl,
    )

module _ {s : TcpTxState} (v : IsValid s) where
  pub add_sequence-IsValid : (n : ℕ) → n ≤ u32_max → IsValid (add_sequence s n)
  unfolding add_sequence
  add_sequence-IsValid n h = ground (arith, seq_bounds s.sequence n)

  pub add_acknowledgement-IsValid : (n : ℕ) → n ≤ u32_max → IsValid (add_acknowledgement s n)
  unfolding add_acknowledgement
  add_acknowledgement-IsValid n h = ground (arith, seq_bounds s.acknowledgement n)

  pub set_sacks-IsValid : (sacks : List (ℕ × ℕ)) → IsValid (set_sacks s sacks)
  unfolding set_sacks
  set_sacks-IsValid [] = ground arith
  set_sacks-IsValid (x ∷ xs) =
      let l = length-take (min 4 (length (x ∷ xs))) (x ∷ xs) in ground arith

  pub set_rto-IsValid : (rto : ℕ) → IsValid (set_rto s rto)
  unfolding set_rto
  set_rto-IsValid rto = ground arith

  pub double_rto-IsValid : IsValid (double_rto s)
  unfolding double_rto
  double_rto-IsValid = ground arith

  pub update_fin_timer-IsValid : (now : Instant) → IsValid (update_fin_timer s now)
  unfolding update_fin_timer
  update_fin_timer-IsValid now = ground arith

  pub append_cache_fin-IsValid : (now : Instant) → IsValid (append_cache_fin s now)
  unfolding append_cache_fin update_fin_timer
  append_cache_fin-IsValid now = ground arith

  pub buffers-IsValid :
      {queue : List ℕ} {cache : Queue}
      → Valid.IsValid cache
      → IsValid (record s { queue = queue; cache = cache })
  buffers-IsValid w = ground arith
