-- ===== src/Tcp/Tx/Rto.antt =====
-- The retransmission timeout of `TcpTxState`.
use pcap2socks.Base.{
  ℕ, zero, suc, ◌+◌, ◌*◌, ◌/◌, ◌≤◌, ◌≡◌, refl, min, max, Option, none, some, done, arith, u64_max,
}
use pcap2socks.Timer.{Duration, as_millis}
use pcap2socks.Tcp.Tx.{
  TcpTxState, min_rto, max_rto, set_rto, double_rto, update_rto, estimate, saturating_add,
  saturating_mul,
}

-- Whatever is set, the timeout lies between the minimum and the maximum, and a value between them
-- is set as it is.
pub set_rto_bounds :
    (s : TcpTxState) (rto : ℕ)
    → (min_rto ≤ (set_rto s rto).rto)
      × ((set_rto s rto).rto ≤ max_rto)
      × (min_rto ≤ rto → rto ≤ max_rto → (set_rto s rto).rto ≡ rto)
unfolding set_rto
set_rto_bounds s rto = omega arith

-- A timeout within the bounds is doubled, up to the maximum.
pub double_rto_lem :
    (s : TcpTxState)
    → min_rto ≤ s.rto
    → s.rto ≤ max_rto
    → (double_rto s).rto ≡ min max_rto (2 * s.rto)
unfolding double_rto
double_rto_lem s h k = ground arith

pub double_times : ℕ → TcpTxState → TcpTxState
double_times zero s = s
double_times (suc n) s = double_times n (double_rto s)

-- Six timeouts in a row take the timeout from anywhere within the bounds to the maximum.
pub six_doublings :
    (s : TcpTxState) → min_rto ≤ s.rto → s.rto ≤ max_rto → (double_times 6 s).rto ≡ max_rto
unfolding double_times
six_doublings s h k =
    let s1 = double_rto s in
    let s2 = double_rto s1 in
    let s3 = double_rto s2 in
    let s4 = double_rto s3 in
    let s5 = double_rto s4 in
    let e1 = double_rto_lem s h k in
    let e2 = double_rto_lem s1 (omega arith) (omega arith) in
    let e3 = double_rto_lem s2 (omega arith) (omega arith) in
    let e4 = double_rto_lem s3 (omega arith) (omega arith) in
    let e5 = double_rto_lem s4 (omega arith) (omega arith) in
    let e6 = double_rto_lem s5 (omega arith) (omega arith) in omega arith

-- The smoothed RTT has a variance beside it.
abbrev pub IsTimed : Option ℕ → Option ℕ → Type 0
IsTimed none rttvar = Unit {0}
IsTimed (some srtt) none = ⊥
IsTimed (some srtt) (some rttvar) = Unit {0}

pub estimate_run :
    (srtt rttvar : Option ℕ) (rtt : ℕ)
    → IsTimed srtt rttvar
    → (a : ℕ) × (b : ℕ) × (estimate srtt rttvar rtt ≡ done (a, b))
unfolding estimate
estimate_run none rttvar rtt h = (rtt, rtt / 2, refl)
estimate_run (some a) none rtt h = absurd h
estimate_run (some a) (some b) rtt h = (_, _, refl)

-- A measured RTT is taken in without a panic. The timeout is then the estimate with four times the
-- variance, at least one millisecond, on top, within the bounds; nothing but the three fields
-- changes.
pub update_rto_run :
    (s : TcpTxState) (rtt : Duration)
    → IsTimed s.srtt s.rttvar
    → (srtt : ℕ) × (rttvar : ℕ) × (rto : ℕ) × (estimate s.srtt s.rttvar
          (min u64_max (as_millis rtt))
        ≡ done (srtt, rttvar))
      × (update_rto s rtt ≡ done (record s { rto = rto; srtt = some srtt; rttvar = some rttvar }))
      × (rto ≡ min max_rto (max min_rto (srtt + max 1 (4 * rttvar))))
unfolding update_rto
update_rto_run s rtt h =
    let (a, b, e) = estimate_run s.srtt s.rttvar (min u64_max (as_millis rtt)) h in
    (
      a,
      b,
      min max_rto (max min_rto (saturating_add a (max 1 (saturating_mul b 4)))),
      e,
      rw e refl,
      ground arith,
    )

-- After the first measurement, the smoothed RTT that it replaces has no part in the next one: two
-- connections that differ only in it have the same smoothed RTT afterwards.
pub update_rto_forgets_srtt :
    (s : TcpTxState) (a b v : ℕ) (rtt : Duration)
    → (s' : TcpTxState) × (s'' : TcpTxState) × (update_rto
          (record s { srtt = some a; rttvar = some v })
          rtt
        ≡ done s')
      × (update_rto (record s { srtt = some b; rttvar = some v }) rtt ≡ done s'')
      × (s'.srtt ≡ s''.srtt)
unfolding update_rto
update_rto_forgets_srtt s a b v rtt = (_, _, refl, refl, refl)
