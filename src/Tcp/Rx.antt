-- ===== src/Tcp/Rx.antt =====
-- `TcpRxState` of src/lib.rs: what is received from the source. The `trace!` lines are left out.
pub mod Duplicates
mod Tests
use pcap2socks.Base.{
  ℕ, ◌+◌, ltb, leb, ◌==◌, if◌then◌else◌, Bool, true, false, not, Option, none, some, List, Run,
  done, ◌>>=◌, Result, u32_max, usize_max,
}
use pcap2socks.Net.{SocketAddr}
use pcap2socks.Sequence.{seq_add}
use pcap2socks.Timer.{Instant, elapsed_since, as_millis}
use pcap2socks.Cache.Window
use pcap2socks.Cache.Window.{Window}
use pcap2socks.Tcp.Tx.{recv_window, shift_left}

-- `DUPLICATES_THRESHOLD`, and `RETRANS_COOL_DOWN` in milliseconds.
abbrev pub duplicates_threshold : ℕ
duplicates_threshold = 3

abbrev pub retrans_cool_down : ℕ
retrans_cool_down = 200

pub record TcpRxState : Type 0 where
  pub src : SocketAddr
  pub dst : SocketAddr
  pub recv_next : ℕ
  pub last_acknowledgement : ℕ
  pub duplicate : ℕ
  pub last_retrans : Option Instant
  pub wscale : ℕ
  pub sack_perm : Bool
  pub cache : Window
  pub fin_sequence : Option ℕ

-- `checked_add(1)` on `u32`, with 0 for an overflow.
unfoldable pub next_u32 : ℕ → ℕ
next_u32 n = if ltb u32_max (n + 1) then 0 else n + 1

unfoldable pub new : SocketAddr → SocketAddr → ℕ → ℕ → Bool → Run TcpRxState
unfolding next_u32
new src dst sequence wscale sack_perm = do
  capacity ← shift_left recv_window wscale
  done (record {
    src = src;
    dst = dst;
    recv_next = next_u32 sequence;
    last_acknowledgement = 0;
    duplicate = 0;
    last_retrans = none;
    wscale = wscale;
    sack_perm = sack_perm;
    cache = Window.with_capacity capacity (next_u32 sequence);
    fin_sequence = none;
  })

unfoldable pub add_recv_next : TcpRxState → ℕ → TcpRxState
add_recv_next s n = record s { recv_next = seq_add s.recv_next n }

unfoldable pub clear_duplicate : TcpRxState → TcpRxState
clear_duplicate s = record s { duplicate = 0 }

-- Whether a retransmission was made less than the cool down time ago. (The source names this
-- `is_cooled_down`.)
unfoldable pub is_cooled_down : Option Instant → Instant → Bool
is_cooled_down none now = false
is_cooled_down (some instant) now = ltb (as_millis (elapsed_since now instant)) retrans_cool_down

-- The duplicates counted, and whether to retransmit.
unfoldable pub increase_duplicate : TcpRxState → ℕ → Instant → TcpRxState × Bool
unfolding clear_duplicate is_cooled_down
increase_duplicate s acknowledgement now =
    if s.last_acknowledgement == acknowledgement
    then (let duplicate : ℕ =
          if ltb usize_max (s.duplicate + 1) then usize_max else s.duplicate + 1 in
        (
          record s { duplicate = duplicate },
          if leb duplicates_threshold duplicate
              then not (is_cooled_down s.last_retrans now)
              else false,
        ))
    else (record (clear_duplicate s) { last_acknowledgement = acknowledgement }, false)

unfoldable pub set_last_retrans : TcpRxState → Instant → TcpRxState
set_last_retrans s now = record s { last_retrans = some now }

unfoldable pub append_cache : TcpRxState → ℕ → List ℕ → Run (TcpRxState × Result (Option (List ℕ)))
append_cache s sequence payload = do
  (cache, result) ← Window.append s.cache sequence payload
  done (record s { cache = cache }, result)

unfoldable pub set_fin_sequence : TcpRxState → ℕ → TcpRxState
set_fin_sequence s sequence = record s { fin_sequence = some sequence }

unfoldable pub admit_fin : TcpRxState → TcpRxState
admit_fin s = record s { fin_sequence = none }
