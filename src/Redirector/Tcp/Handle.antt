-- ===== src/Redirector/Tcp/Handle.antt =====
-- `handle_tcp` of src/lib.rs: the handler that the flags select.
use pcap2socks.Base.{ℕ, if◌then◌else◌, List, done, panic, Result, ok}
use pcap2socks.Timer.{Instant}
use pcap2socks.Redirector.Tcp.{Redirector, Tcp, Handled, handle_tcp_rst}
use pcap2socks.Redirector.Tcp.Ack.{handle_tcp_ack}
use pcap2socks.Redirector.Tcp.Syn.{handle_tcp_syn}
use pcap2socks.Redirector.Tcp.Fin.{handle_tcp_fin}

-- What the surroundings give a packet's handler: the random sequence of a new connection, the
-- results of connecting to the proxy and of writing to it, and the time.
pub record Surroundings : Type 0 where
  pub sequence : ℕ
  pub proxy : Result (Unit {0})
  pub written : Result (Unit {0})
  pub now : Instant

-- A packet with none of the flags is `unreachable!`.
unfoldable pub handle_tcp : Redirector → Tcp → List ℕ → Surroundings → Handled
unfolding handle_tcp_rst handle_tcp_ack handle_tcp_syn handle_tcp_fin
handle_tcp r tcp payload e =
    if tcp.is_rst
    then done (handle_tcp_rst r tcp, ok tt)
    else (if tcp.is_ack
        then handle_tcp_ack r tcp payload e.written e.now
        else (if tcp.is_syn
            then handle_tcp_syn r tcp e.sequence e.proxy e.now
            else (if tcp.is_fin then handle_tcp_fin r tcp payload else panic)))
