-- ===== src/Cache/Queue.antt =====
-- `Queue` of src/cache/mod.rs: the send window of a TCP connection, a ring buffer of the bytes sent
-- and not acknowledged, with a clock for each append.
pub mod Valid
pub mod Store
pub mod Read
pub mod Release
pub mod Timed
pub mod Refine
mod Tests
use pcap2socks.Base.{
  ℕ, ◌+◌, ◌-◌, ◌*◌, ◌/◌, ltb, leb, ◌==◌, if◌then◌else◌, min, max, Bool, ◌&&◌, not, Option, none,
  some, List, [], ◌∷◌, ◌++◌, length, Run, done, ◌>>=◌, sub, add_usize, mul_usize, rem, unwrap_ok,
  Result, ok, err, other, invalid_input, as_u32,
}
use pcap2socks.Sequence.{seq_add, seq_sub, max_window_size}
use pcap2socks.Timer
use pcap2socks.Timer.{Timer, Instant, Duration}
use pcap2socks.Cache.Ring.{ring_index, extend_buffer, put_payload, take_payload, contents_of}

pub record Queue : Type 0 where
  pub buffer : List ℕ
  pub capacity : ℕ
  pub sequence : ℕ
  pub head : ℕ
  pub size : ℕ
  pub clocks : List (ℕ × Timer)
  pub retrans : Option ℕ

-- The allocation of the clocks' deque is left out.
unfoldable pub with_capacity : ℕ → ℕ → Queue
with_capacity capacity sequence = record {
  buffer = [];
  capacity = capacity;
  sequence = sequence;
  head = 0;
  size = 0;
  clocks = [];
  retrans = none;
}

unfoldable pub remaining : Queue → Run ℕ
remaining q = sub q.capacity q.size

unfoldable pub tail : Queue → ℕ
unfolding ring_index
tail q = ring_index (length q.buffer) q.head q.size

unfoldable pub recv_next : Queue → ℕ
recv_next q = seq_add q.sequence (as_u32 q.size)

unfoldable pub is_empty : Queue → Bool
is_empty q = q.size == 0

-- The buffer with room for the payload.
unfoldable pub grow : Queue → List ℕ → Run (List ℕ)
grow q payload = do
  room ← sub (length q.buffer) q.size
  if ltb room (length payload)
      then (do
        tripled ← mul_usize (length q.buffer) 3
        wanted ← add_usize q.size (length payload)
        extend_buffer q.buffer q.head (tail q) (min q.capacity (max (tripled / 2) wanted)))
      else done q.buffer

pub append : Queue → List ℕ → ℕ → Instant → Run (Queue × Result (Unit {0}))
append q payload rto now = do
  room ← remaining q
  if ltb room (length payload) then done (q, err other) else (do
    grown ← grow q payload
    let clock : ℕ × Timer = (recv_next q, Timer.new now rto)
    filled ← put_payload grown (ring_index (length grown) q.head q.size) payload
    size ← add_usize q.size (length payload)
    done (record q { buffer = filled; clocks = q.clocks ++ (clock ∷ []); size = size }, ok tt))

-- The sequence of the clock behind the first one, or the receive next for the last clock.
abbrev next_sequence : ℕ → List (ℕ × Timer) → ℕ
next_sequence recv [] = recv
next_sequence recv ((s, t) ∷ clocks) = s

-- The RTT after a clock is popped: the first that counts, unless a retransmission covers it.
pop_rtt : Instant → ℕ → Option ℕ → Timer → Option Duration → Option Duration
pop_rtt now sequence retrans timer (some rtt) = some rtt
pop_rtt now sequence retrans timer none =
    if not (Timer.is_timedout now timer)
    then (elim retrans [
      | none ↦ some (Timer.elapsed now timer)
      | some r ↦
          if leb (seq_sub r sequence) max_window_size then none else some (Timer.elapsed now timer)
    ])
    else none

-- The loop that pops the clocks of what is acknowledged up to `sequence`.
pop_clocks :
    Instant
    → ℕ
    → ℕ
    → Option ℕ
    → List (ℕ × Timer)
    → Option Duration
    → List (ℕ × Timer) × Option Duration
pop_clocks now sequence recv retrans [] rtt = ([], rtt)
pop_clocks now sequence recv retrans ((s, timer) ∷ clocks) rtt =
    let within = leb (seq_sub sequence s) max_window_size in
    let rest =
      pop_clocks now sequence recv retrans clocks (pop_rtt now sequence retrans timer rtt) in
    if within && leb (seq_sub sequence (next_sequence recv clocks)) max_window_size
    then rest
    else (if within then ((sequence, timer) ∷ clocks, rtt) else ((s, timer) ∷ clocks, rtt))

-- A retransmission is over once it is acknowledged.
clear_retrans : ℕ → Option ℕ → Option ℕ
clear_retrans sequence none = none
clear_retrans sequence (some retrans) =
    if leb (seq_sub sequence retrans) max_window_size then none else some retrans

advance_head : Queue → ℕ → ℕ → Run ℕ
advance_head q size left = if left == 0 then done 0 else (do
  part ← rem size (length q.buffer)
  head ← add_usize q.head part
  rem head (length q.buffer))

-- The queue after its head moved, with the clocks and the retransmission of the rest.
released : Queue → ℕ → ℕ → ℕ → Instant → Queue × Option Duration
unfolding pop_clocks pop_rtt clear_retrans
released q sequence head size now =
    let moved = record q { sequence = sequence; size = size; head = head } in
    let (clocks, rtt) = pop_clocks now sequence (recv_next moved) q.retrans q.clocks none in
    (record moved { clocks = clocks; retrans = clear_retrans sequence q.retrans }, rtt)

pub invalidate_to : Queue → ℕ → Instant → Run (Queue × Option Duration)
unfolding advance_head released
invalidate_to q sequence now =
    let size = seq_sub sequence q.sequence in
    if leb size max_window_size
    then (do
      head ← advance_head q size (q.size - size)
      done (released q sequence head (q.size - size) now))
    else done (q, none)

pub get : Queue → ℕ → ℕ → Run (Result (List ℕ))
get q sequence size =
    if size == 0
    then done (ok [])
    else (let distance = seq_sub sequence q.sequence in
        if ltb q.size distance
        then done (err invalid_input)
        else (if ltb (q.size - distance) size then done (err invalid_input) else (do
          sum ← add_usize q.head distance
          let head = if ltb sum (length q.buffer) then sum else sum - length q.buffer
          payload ← take_payload q.buffer head size
          done (ok payload))))

pub get_all : Queue → Run (List ℕ)
get_all q = do result ← get q q.sequence q.size; unwrap_ok result

-- The sequence of the first clock that is not timed out.
unfoldable pub first_running : Instant → List (ℕ × Timer) → Option ℕ
first_running now [] = none
first_running now ((s, timer) ∷ clocks) =
    if not (Timer.is_timedout now timer) then some s else first_running now clocks

pub get_timed_out : Queue → Instant → Run (List ℕ)
unfolding first_running
get_timed_out q now = elim (first_running now q.clocks) [
  | some recv ↦ do result ← get q q.sequence (seq_sub recv q.sequence); unwrap_ok result
  | none ↦ get_all q
]

-- The loop that drops the clocks up to `recv` and starts a new one before the next.
pub restart_clocks : ℕ → ℕ → Timer → List (ℕ × Timer) → List (ℕ × Timer)
restart_clocks recv sequence timer [] = []
restart_clocks recv sequence timer ((s, t) ∷ clocks) =
    if leb (seq_sub recv s) max_window_size
    then restart_clocks recv sequence timer clocks
    else (sequence, timer) ∷ (s, t) ∷ clocks

pub get_timed_out_and_update : Queue → ℕ → Instant → Run (Queue × List ℕ)
unfolding first_running restart_clocks
get_timed_out_and_update q rto now = elim (first_running now q.clocks) [
  | some recv ↦ do
    result ← get q q.sequence (seq_sub recv q.sequence)
    payload ← unwrap_ok result
    let clocks = restart_clocks recv q.sequence (Timer.new now rto) q.clocks
    done (record q { clocks = clocks; retrans = some recv }, payload)
  | none ↦ do
    payload ← get_all q
    let clocks = (q.sequence, Timer.new now rto) ∷ []
    done (record q { clocks = clocks; retrans = some (recv_next q) }, payload)
]

-- The bytes that the queue holds, the oldest first.
abbrev pub contents : Queue → List ℕ
contents q = contents_of q.buffer q.head q.size
