-- ===== src/Tcp/Tx.antt =====
-- `TcpTxState` of src/lib.rs: what is sent towards the source. The `trace!` lines are left out.
pub mod Rto
pub mod Valid
pub mod Stream
pub mod Acknowledge
pub mod Fields
mod Tests
use pcap2socks.Base.{
  ℕ, ◌+◌, ◌-◌, ◌*◌, ◌/◌, ◌%◌, ◌^◌, ltb, leb, ◌==◌, if◌then◌else◌, min, max, Bool, true, false, ◌&&◌,
  not, Option, none, some, List, [], ◌∷◌, ◌++◌, length, take, drop, Run, done, panic, ◌>>=◌, unwrap,
  Result, ok, err, u64_max,
}
use pcap2socks.Net.{SocketAddr}
use pcap2socks.Sequence.{seq_add, seq_sub, max_window_size}
use pcap2socks.Timer
use pcap2socks.Timer.{Timer, Instant, Duration, elapsed_since, as_millis}
use pcap2socks.Cache.Queue
use pcap2socks.Cache.Queue.{Queue}

-- `RECV_WINDOW`, `INITIAL_RTO`, `MIN_RTO` and `MAX_RTO`, in milliseconds.
abbrev pub recv_window : ℕ
recv_window = 65535

abbrev pub initial_rto : ℕ
initial_rto = 1000

abbrev pub min_rto : ℕ
min_rto = 1000

abbrev pub max_rto : ℕ
max_rto = 60000

pub record TcpTxState : Type 0 where
  pub src : SocketAddr
  pub dst : SocketAddr
  pub send_window : ℕ
  pub send_wscale : Option ℕ
  pub sack_perm : Bool
  pub sequence : ℕ
  pub acknowledgement : ℕ
  pub window : ℕ
  pub sacks : Option (List (ℕ × ℕ))
  pub cache : Queue
  pub cache_syn : Option Instant
  pub cache_fin : Option Timer
  pub cache_fin_retrans : Bool
  pub queue : List ℕ
  pub queue_fin : Bool
  pub rto : ℕ
  pub srtt : Option ℕ
  pub rttvar : Option ℕ

-- `n << s` on `usize`: the bits shifted out are lost, and a shift by the width panics.
unfoldable pub shift_left : ℕ → ℕ → Run ℕ
shift_left n s = if leb 64 s then panic else done (n * 2 ^ s % 2 ^ 64)

abbrev pub or_zero : Option ℕ → ℕ
or_zero none = 0
or_zero (some n) = n

-- The state of a new connection, with its scaled window and the capacity of its cache.
unfoldable pub initial : SocketAddr → SocketAddr → ℕ → ℕ → ℕ → Option ℕ → Bool → ℕ → TcpTxState
initial src dst sequence acknowledgement scaled send_wscale sack_perm capacity = record {
  src = src;
  dst = dst;
  send_window = scaled;
  send_wscale = send_wscale;
  sack_perm = sack_perm;
  sequence = sequence;
  acknowledgement = acknowledgement;
  window = recv_window;
  sacks = none;
  cache = Queue.with_capacity capacity sequence;
  cache_syn = none;
  cache_fin = none;
  cache_fin_retrans = true;
  queue = [];
  queue_fin = false;
  rto = initial_rto;
  srtt = none;
  rttvar = none;
}

unfoldable pub new :
    SocketAddr → SocketAddr → ℕ → ℕ → ℕ → Option ℕ → Bool → Option ℕ → Run TcpTxState
unfolding initial
new src dst sequence acknowledgement send_window send_wscale sack_perm wscale = do
  scaled ← shift_left send_window (or_zero send_wscale)
  capacity ← shift_left recv_window (or_zero wscale)
  done (initial src dst sequence acknowledgement scaled send_wscale sack_perm capacity)

unfoldable pub set_send_window : TcpTxState → ℕ → TcpTxState
set_send_window s window = record s { send_window = window }

unfoldable pub add_sequence : TcpTxState → ℕ → TcpTxState
add_sequence s n = record s { sequence = seq_add s.sequence n }

unfoldable pub add_acknowledgement : TcpTxState → ℕ → TcpTxState
add_acknowledgement s n = record s { acknowledgement = seq_add s.acknowledgement n }

unfoldable pub set_window : TcpTxState → ℕ → TcpTxState
set_window s window = record s { window = window }

unfoldable pub set_sacks : TcpTxState → List (ℕ × ℕ) → TcpTxState
set_sacks s [] = record s { sacks = none }
set_sacks s (sack ∷ sacks) = record s {
  sacks = some (take (min 4 (length (sack ∷ sacks))) (sack ∷ sacks));
}

-- `ENABLE_RTO_COMPUTE` is `true`.
unfoldable pub set_rto : TcpTxState → ℕ → TcpTxState
set_rto s rto = record s { rto = min max_rto (max min_rto rto) }

-- `checked_add` and `checked_mul` on `u64`, with `u64::MAX` for an overflow.
unfoldable pub saturating_add : ℕ → ℕ → ℕ
saturating_add a b = if ltb u64_max (a + b) then u64_max else a + b

unfoldable pub saturating_mul : ℕ → ℕ → ℕ
saturating_mul a b = if ltb u64_max (a * b) then u64_max else a * b

unfoldable pub double_rto : TcpTxState → TcpTxState
unfolding set_rto saturating_mul
double_rto s = set_rto s (saturating_mul s.rto 2)

-- `checked_sub` one way, and the subtraction the other way where it fails.
unfoldable pub distance : ℕ → ℕ → ℕ
distance a b = if ltb a b then b - a else a - b

-- The smoothed RTT and its variance after a measured RTT, in milliseconds.
unfoldable pub estimate : Option ℕ → Option ℕ → ℕ → Run (ℕ × ℕ)
unfolding saturating_add distance
estimate (some prev_srtt) rttvar rtt = do
  prev_rttvar ← unwrap rttvar
  done (
    saturating_add (prev_rttvar / 8 * 7) (rtt / 8),
    saturating_add (prev_rttvar / 8 * 7) (distance prev_srtt rtt / 4),
  )
estimate none rttvar rtt = done (rtt, rtt / 2)

unfoldable pub update_rto : TcpTxState → Duration → Run TcpTxState
unfolding estimate set_rto saturating_add saturating_mul
update_rto s rtt = do
  (srtt, rttvar) ← estimate s.srtt s.rttvar (min u64_max (as_millis rtt))
  let timed = record s { srtt = some srtt; rttvar = some rttvar }
  done (set_rto timed (saturating_add srtt (max 1 (saturating_mul rttvar 4))))

unfoldable pub update_syn_timer : TcpTxState → Instant → TcpTxState
update_syn_timer s now = record s { cache_syn = some now }

abbrev pub is_some {ℓ} : {A : Type ℓ} → Option A → Bool
is_some none = false
is_some (some a) = true

unfoldable pub update_fin_timer : TcpTxState → Instant → TcpTxState
update_fin_timer s now = record s {
  cache_fin_retrans = if is_some s.cache_fin then true else s.cache_fin_retrans;
  cache_fin = some (Timer.new now s.rto);
}

-- The SYN part of `acknowledge`: the state, and the RTT if the SYN is acknowledged.
unfoldable pub acknowledge_syn :
    TcpTxState → Option Instant → ℕ → Instant → TcpTxState × Option Duration
unfolding add_sequence
acknowledge_syn s none sequence now = (s, none)
acknowledge_syn s (some instant) sequence now =
    if leb (seq_sub sequence s.sequence) max_window_size
    then (add_sequence (record s { cache_syn = none }) 1, some (elapsed_since now instant))
    else (s, none)

-- The RTT of the FIN's timer, which counts if there is no other and the FIN was sent once.
unfoldable pub fin_rtt : TcpTxState → Timer → Option Duration → Instant → Option Duration
fin_rtt s timer (some rtt) now = some rtt
fin_rtt s timer none now =
    if not s.cache_fin_retrans && not (Timer.is_timedout now timer)
    then some (Timer.elapsed now timer)
    else none

-- The FIN part of `acknowledge`.
unfoldable pub acknowledge_fin :
    TcpTxState → Option Timer → ℕ → Option Duration → Instant → TcpTxState × Option Duration
unfolding add_sequence fin_rtt
acknowledge_fin s none sequence rtt now = (s, rtt)
acknowledge_fin s (some timer) sequence rtt now =
    if leb (seq_sub sequence (Queue.recv_next s.cache)) max_window_size
    then (
      add_sequence (record s { cache_fin = none; cache_fin_retrans = false }) 1,
      fin_rtt s timer rtt now,
    )
    else (s, rtt)

abbrev pub or_else {ℓ} : {A : Type ℓ} → Option A → Option A → Option A
or_else none b = b
or_else (some a) b = some a

unfoldable pub apply_rtt : TcpTxState → Option Duration → Run TcpTxState
apply_rtt s none = done s
apply_rtt s (some rtt) = update_rto s rtt

unfoldable pub acknowledge : TcpTxState → ℕ → Instant → Run TcpTxState
unfolding apply_rtt
acknowledge s sequence now = do
  let (opened, syn_rtt) = acknowledge_syn s s.cache_syn sequence now
  (cache, cache_rtt) ← Queue.invalidate_to opened.cache sequence now
  let cleared = record opened { cache = cache }
  let (closed, rtt) =
      acknowledge_fin cleared cleared.cache_fin sequence (or_else syn_rtt cache_rtt) now
  apply_rtt closed rtt

-- `drain` panics beyond the end of the queue. What is drained is gone where the cache refuses it.
unfoldable pub append_cache : TcpTxState → ℕ → Instant → Run (TcpTxState × Result (List ℕ))
append_cache s size now = if ltb (length s.queue) size then panic else (do
  let payload = take size s.queue
  (cache, result) ← Queue.append s.cache payload s.rto now
  let drained = record s { queue = drop size s.queue; cache = cache }
  elim result [ ok _ ↦ done (drained, ok payload) | err e ↦ done (drained, err e) ])

unfoldable pub append_cache_fin : TcpTxState → Instant → TcpTxState
unfolding update_fin_timer
append_cache_fin s now = update_fin_timer (record s { queue_fin = false }) now

unfoldable pub append_queue : TcpTxState → List ℕ → TcpTxState
append_queue s payload = record s { queue = s.queue ++ payload }

unfoldable pub append_queue_fin : TcpTxState → TcpTxState
append_queue_fin s = record s { queue_fin = true }
