-- ===== src/Timer.antt =====
-- `Timer` of src/lib.rs. An instant and a duration are numbers of nanoseconds; the clock is
-- monotonic, and its reading `now` is an argument of each operation that asks for it.
use pcap2socks.Base.{ℕ, ◌-◌, ◌*◌, ◌/◌, Bool, ltb}

abbrev pub Instant : Type 0
Instant = ℕ

abbrev pub Duration : Type 0
Duration = ℕ

abbrev pub nanos_per_milli : ℕ
nanos_per_milli = 1000000

-- `Duration::from_millis` and `Duration::as_millis`
abbrev pub from_millis : ℕ → Duration
from_millis ms = ms * nanos_per_milli

abbrev pub as_millis : Duration → ℕ
as_millis d = d / nanos_per_milli

-- `Instant::elapsed`
abbrev pub elapsed_since : Instant → Instant → Duration
elapsed_since now instant = now - instant

pub record Timer : Type 0 where
  pub instant : Instant
  pub timeout : Duration

unfoldable pub new : Instant → ℕ → Timer
new now timeout = record { instant = now; timeout = from_millis timeout }

unfoldable pub elapsed : Instant → Timer → Duration
elapsed now t = elapsed_since now t.instant

unfoldable pub is_timedout : Instant → Timer → Bool
is_timedout now t = ltb t.timeout (elapsed_since now t.instant)
