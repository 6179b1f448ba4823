-- ===== src/Redirector/Tcp/Syn.antt =====
-- `handle_tcp_syn` of src/lib.rs. The random sequence and the result of the proxy are arguments.
use pcap2socks.Base.{
  ℕ, ◌+◌, min, Option, none, some, Run, done, ◌>>=◌, Result, ok, err, insert, pair_key,
}
use pcap2socks.Net.{addr_key}
use pcap2socks.Timer.{Instant}
use pcap2socks.Tcp.Tx
use pcap2socks.Tcp.Tx.{TcpTxState, or_zero, is_some}
use pcap2socks.Tcp.Rx
use pcap2socks.Tcp.Rx.{TcpRxState, next_u32}
use pcap2socks.Socks.Stream
use pcap2socks.Socks.Stream.{StreamWorker}
use pcap2socks.Forwarder.Segments.{ipv4_minimum_len, tcp_minimum_len}
use pcap2socks.Forwarder.State
use pcap2socks.Forwarder.State.{Forwarder}
use pcap2socks.Forwarder.Streams
use pcap2socks.Redirector.Tcp.{
  Redirector, Tcp, Handled, key, max_recv_wscale, clean_up, on_tx_state, refuse,
}

-- The scale that is announced.
abbrev pub recv_wscale : Option ℕ → Option ℕ
recv_wscale none = none
recv_wscale (some wscale) = some (min wscale max_recv_wscale)

-- An MSS option sets the MTU of the source, with the headers on top.
unfoldable pub set_mss : Forwarder → Tcp → Forwarder
set_mss tx tcp = elim tcp.mss [
  | none ↦ tx
  | some mss ↦ (State.set_src_mtu tx tcp.src.ip (ipv4_minimum_len + tcp_minimum_len + mss)).0
]

-- The states of both directions. That from the source is not in the map yet.
unfoldable pub admit_syn : Redirector → Tcp → ℕ → Run (Redirector × TcpRxState)
unfolding set_mss
admit_syn r tcp sequence = do
  state ← Rx.new tcp.src tcp.dst tcp.sequence (or_zero tcp.wscale) tcp.is_sack_perm
  tx_state ←
      Tx.new tcp.src tcp.dst sequence (next_u32 tcp.sequence) tcp.window (recv_wscale tcp.wscale)
        tcp.is_sack_perm tcp.wscale
  done (record r { tx = State.set_state (set_mss r.tx tcp) tcp.dst tcp.src tx_state }, state)

-- `StreamWorker::connect`: where the proxy accepts, the forwarder answers the SYN.
unfoldable pub connect :
    Redirector → Tcp → Result (Unit {0}) → Instant → Run (Redirector × Result StreamWorker)
connect r tcp (err e) now = done (r, err e)
connect r tcp (ok _) now = do
  (tx, opened) ← Streams.open_stream r.tx tcp.dst tcp.src now
  done (record r { tx = tx }, Stream.connect tcp.dst (ok tt) opened)

-- A connection that failed is refused, with the SYN acknowledged once more.
unfoldable pub settle : Redirector → Tcp → TcpRxState → Result StreamWorker → Handled
unfolding on_tx_state refuse
settle r tcp state (ok stream) = done (
  record r {
    states = insert (key tcp) state r.states;
    streams = insert (key tcp) stream r.streams;
  },
  ok tt,
)
settle r tcp state (err e) = do
  r' ← on_tx_state r tcp (λ s. Tx.add_acknowledgement s 1)
  refuse r' tcp (err e)

unfoldable pub handle_tcp_syn : Redirector → Tcp → ℕ → Result (Unit {0}) → Instant → Handled
unfolding admit_syn connect settle clean_up
handle_tcp_syn r tcp sequence proxy now = elim (r.streams (key tcp)) [
  | some stream ↦ done (r, ok tt)
  | none ↦ do
    (admitted, state) ← admit_syn (clean_up r tcp.src tcp.dst) tcp sequence
    (connected, stream) ← connect admitted tcp proxy now
    settle connected tcp state stream
]
