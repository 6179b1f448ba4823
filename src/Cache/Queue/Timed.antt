-- ===== src/Cache/Queue/Timed.antt =====
-- `Queue::get_timed_out_and_update`: what is sent again, and the clocks left.
use pcap2socks.Base.{ℕ, ◌≤◌, ◌≡◌, refl, false, none, some, [], ◌∷◌, take, done, arith}
use pcap2socks.Timer
use pcap2socks.Timer.{Timer}
use pcap2socks.Sequence.{seq_sub}
use pcap2socks.Cache.Queue.{
  Queue, recv_next, first_running, restart_clocks, get_timed_out_and_update, contents,
}
use pcap2socks.Cache.Queue.Valid.{IsValid}
use pcap2socks.Cache.Queue.Read.{get-eq-ok, get_all-eq-done, seq_sub_self}

-- Where every clock is timed out, all the bytes are sent again, under one new clock for all.
pub all_timed_out :
    {q : Queue} (rto now : ℕ)
    → IsValid q
    → first_running now q.clocks ≡ none
    → get_timed_out_and_update q rto now
      ≡ done (
        record q { clocks = (q.sequence, Timer.new now rto) ∷ []; retrans = some (recv_next q) },
        contents q,
      )
unfolding get_timed_out_and_update
all_timed_out rto now v e = rw (e, get_timed_out_and_update, get_all-eq-done v)

-- Where a clock still runs, the bytes before it are sent again.
pub some_running :
    {q : Queue} (rto now recv : ℕ)
    → IsValid q
    → first_running now q.clocks ≡ some recv
    → seq_sub recv q.sequence ≤ q.size
    → get_timed_out_and_update q rto now
      ≡ done (
        record q {
          clocks = restart_clocks recv q.sequence (Timer.new now rto) q.clocks;
          retrans = some recv;
        },
        take (seq_sub recv q.sequence) (contents q),
      )
unfolding get_timed_out_and_update
some_running {q} rto now recv v e h = rw (
  e,
  get_timed_out_and_update,
  get-eq-ok q.sequence (seq_sub recv q.sequence) 0 v (seq_sub_self q.sequence) (omega arith),
)

restart_clocks_lone :
    (s sequence : ℕ) (t t' : Timer) → restart_clocks s sequence t ((s, t') ∷ []) ≡ []
unfolding restart_clocks
restart_clocks_lone s sequence t t' = rw (seq_sub_self s)

-- A lone clock that still runs is dropped, and no other is started: the next call sends all the
-- bytes again, at whatever time it is made.
pub lone_clock_dropped :
    {q : Queue} (s : ℕ) (t : Timer) (rto now later : ℕ)
    → IsValid q
    → q.clocks ≡ (s, t) ∷ []
    → Timer.is_timedout now t ≡ false
    → seq_sub s q.sequence ≤ q.size
    → (q' : Queue) × (q'' : Queue) × (get_timed_out_and_update q rto now
        ≡ done (q', take (seq_sub s q.sequence) (contents q)))
      × (q'.clocks ≡ [])
      × (get_timed_out_and_update q' rto later ≡ done (q'', contents q))
unfolding first_running
lone_clock_dropped {q} s t rto now later v e r h =
    let q' : Queue = record q { clocks = []; retrans = some s } in
    let runs : first_running now q.clocks ≡ some s = rw (e, r) refl in
    (
      q',
      record q' { clocks = (q.sequence, Timer.new later rto) ∷ []; retrans = some (recv_next q') },
      rw
          (
            some_running rto now s v runs h,
            e,
            restart_clocks_lone s q.sequence (Timer.new now rto) t,
          )
          refl,
      refl,
      all_timed_out rto later (omega arith) refl,
    )
