-- ===== src/Socks/Datagram.antt =====
-- `DatagramWorker` of src/socks/mod.rs. The task that `bind` spawns shares the source and the flag
-- with the worker, so that both are one state here; what `recv_from` gives it is an argument.
pub mod Laws
mod Tests
use pcap2socks.Base.{
  ℕ, ◌+◌, ◌*◌, ◌/◌, ◌^◌, if◌then◌else◌, Bool, true, false, Option, none, some, List, Result, ok,
  err, ErrorKind, other, invalid_input, invalid_data, not_connected, timed_out, write_zero, as_u16,
  as_u32,
}
use pcap2socks.Net.{SocketAddr}

-- The source as one atomic word.
unfoldable pub socket_addr_v4_to_u64 : SocketAddr → ℕ
socket_addr_v4_to_u64 a = a.ip * 65536 + a.port

unfoldable pub u64_to_socket_addr_v4 : ℕ → SocketAddr
u64_to_socket_addr_v4 v = record { ip = as_u32 (v / 65536); port = as_u16 v }

pub record DatagramWorker : Type 0 where
  pub src : ℕ
  pub local_port : ℕ
  pub is_closed : Bool

-- `bind`, once `socks::bind` has given the local port.
unfoldable pub bind : SocketAddr → ℕ → DatagramWorker
unfolding socket_addr_v4_to_u64
bind a local_port = record {
  src = socket_addr_v4_to_u64 a;
  local_port = local_port;
  is_closed = false;
}

unfoldable pub set_src : DatagramWorker → SocketAddr → DatagramWorker
unfolding socket_addr_v4_to_u64
set_src w a = record w { src = socket_addr_v4_to_u64 a }

unfoldable pub src : DatagramWorker → SocketAddr
unfolding u64_to_socket_addr_v4
src w = u64_to_socket_addr_v4 w.src

-- `drop`
unfoldable pub close : DatagramWorker → DatagramWorker
close w = record w { is_closed = true }

-- What is forwarded to the source.
pub record Forwarded : Type 0 where
  pub from : SocketAddr
  pub to : SocketAddr
  pub payload : List ℕ

-- Whether the task goes on after an error of `recv_from`.
unfoldable pub is_transient : ErrorKind → Bool
is_transient timed_out = true
is_transient e = false

-- One round of the task's loop: `closed` is whether the flag was set while `recv_from` waited.
unfoldable pub receive :
    DatagramWorker → Bool → Result (SocketAddr × List ℕ) → DatagramWorker × Option Forwarded
unfolding src is_transient close
receive w closed result = if w.is_closed then (w, none) else (elim result [
  | ok (addr, payload) ↦
      if closed
      then (close w, none)
      else (w, some (record { from = addr; to = src w; payload = payload }))
  | err e ↦ if is_transient e then (record w { is_closed = closed }, none) else (close w, none)
])
