-- ===== src/Redirector/Tcp/Fin.antt =====
-- `handle_tcp_fin` of src/lib.rs.
use pcap2socks.Base.{
  ℕ, ◌==◌, if◌then◌else◌, not, none, some, List, length, Run, done, ◌>>=◌, unwrap, ok, err, as_u32,
  insert, pair_key,
}
use pcap2socks.Net.{addr_key}
use pcap2socks.Sequence.{seq_add}
use pcap2socks.Tcp.Tx
use pcap2socks.Tcp.Tx.{TcpTxState}
use pcap2socks.Tcp.Rx
use pcap2socks.Tcp.Rx.{TcpRxState}
use pcap2socks.Socks.Stream
use pcap2socks.Socks.Stream.{StreamWorker}
use pcap2socks.Forwarder.Streams
use pcap2socks.Redirector.Tcp.{
  Redirector, Tcp, Handled, key, clean_up, on_tx, on_tx_state, send_rst,
}

-- The stream is closed for writing, or given up if it was closed by the proxy before.
unfoldable pub close_stream : Redirector → Tcp → StreamWorker → Run Redirector
unfolding clean_up
close_stream r tcp stream =
    if not stream.is_read_closed
    then (do
      closed ← Stream.shutdown stream
      done (record r { streams = insert (key tcp) closed r.streams }))
    else done (clean_up r tcp.src tcp.dst)

-- The FIN is next: it is counted as received, and acknowledged.
unfoldable pub admit : Redirector → Tcp → StreamWorker → TcpRxState → Handled
unfolding close_stream on_tx on_tx_state
admit r tcp stream state = do
  let admitted = Rx.add_recv_next (Rx.admit_fin state) 1
  counted ←
      on_tx_state (record r { states = insert (key tcp) admitted r.states }) tcp
        (λ s. Tx.add_acknowledgement s 1)
  (r', result) ← on_tx counted (Streams.send_tcp_ack_0 counted.tx tcp.dst tcp.src)
  elim result [
    | err e ↦ done (r', err e)
    | ok _ ↦ do closed ← close_stream r' tcp stream; done (closed, ok tt)
  ]

-- A FIN that is not next is remembered. A packet without data is answered then.
unfoldable pub postpone : Redirector → Tcp → List ℕ → Handled
unfolding on_tx
postpone r tcp payload =
    if length payload == 0
    then on_tx r (Streams.send_tcp_ack_0 r.tx tcp.dst tcp.src)
    else done (r, ok tt)

-- The FIN of the packet, if it has one.
unfoldable pub note_fin : Tcp → List ℕ → TcpRxState → TcpRxState
note_fin tcp payload state =
    if tcp.is_fin
    then Rx.set_fin_sequence state (seq_add tcp.sequence (as_u32 (length payload)))
    else state

-- What becomes of a FIN that came now or before, with the state that is in the map.
unfoldable pub serve_noted : Redirector → Tcp → List ℕ → StreamWorker → TcpRxState → Handled
unfolding admit postpone
serve_noted r tcp payload stream noted = elim noted.fin_sequence [
  | none ↦ done (r, ok tt)
  | some fin_sequence ↦
      if fin_sequence == noted.recv_next then admit r tcp stream noted else postpone r tcp payload
]

unfoldable pub serve_fin : Redirector → Tcp → List ℕ → StreamWorker → Handled
unfolding serve_noted note_fin
serve_fin r tcp payload stream = do
  state ← unwrap (r.states (key tcp))
  let noted = note_fin tcp payload state
  serve_noted (record r { states = insert (key tcp) noted r.states }) tcp payload stream noted

unfoldable pub handle_tcp_fin : Redirector → Tcp → List ℕ → Handled
unfolding serve_fin send_rst
handle_tcp_fin r tcp payload = elim (r.streams (key tcp)) [
  | none ↦ done (send_rst r tcp)
  | some stream ↦ serve_fin r tcp payload stream
]
