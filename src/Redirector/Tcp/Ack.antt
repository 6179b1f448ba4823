-- ===== src/Redirector/Tcp/Ack.antt =====
-- `handle_tcp_ack` of src/lib.rs. What writing to the proxy gives is an argument, `written`.
use pcap2socks.Base.{
  ℕ, ◌/◌, ◌^◌, ltb, leb, ◌==◌, if◌then◌else◌, Bool, false, not, ◌&&◌, ◌||◌, Option, none, some,
  List, [], ◌∷◌, length, Run, done, panic, ◌>>=◌, unwrap, Result, ok, err, as_u16, as_u32, insert,
  pair_key,
}
use pcap2socks.Net.{addr_key}
use pcap2socks.Timer.{Instant}
use pcap2socks.Cache.Window
use pcap2socks.Tcp.Tx
use pcap2socks.Tcp.Tx.{TcpTxState, is_some, shift_left}
use pcap2socks.Tcp.Rx
use pcap2socks.Tcp.Rx.{TcpRxState}
use pcap2socks.Socks.Stream
use pcap2socks.Socks.Stream.{StreamWorker}
use pcap2socks.Forwarder.State
use pcap2socks.Forwarder.Streams
use pcap2socks.Redirector.Tcp.{
  Redirector, Tcp, Handled, key, clean_up, on_tx, on_tx_state, send_rst, refuse,
}
use pcap2socks.Redirector.Tcp.Fin.{handle_tcp_fin}

-- `(n >> s) as u16` on `usize`: a shift by the width panics.
unfoldable pub shift_right : ℕ → ℕ → Run ℕ
shift_right n s = if leb 64 s then panic else done (as_u16 (n / 2 ^ s))

-- Where the handler goes on, or with what result it returns.
abbrev pub Exit : Type 0
Exit = Option (Result (Unit {0}))

abbrev pub Part : Type 0
Part = Run (Redirector × Exit)

-- `?`: an error is returned.
abbrev pub question : Result (Unit {0}) → Exit
question (ok _) = none
question (err e) = some (err e)

abbrev pub tried : Handled → Part
tried call = do (r, result) ← call; done (r, question result)

abbrev pub returned : Handled → Part
returned call = do (r, result) ← call; done (r, some result)

-- The acknowledgement and the window are taken in.
unfoldable pub take_ack : Redirector → Tcp → TcpRxState → Instant → Run Redirector
take_ack r tcp state now = do
  s ← unwrap (State.get_state r.tx tcp.dst tcp.src)
  acknowledged ← Tx.acknowledge s tcp.acknowledgement now
  window ← shift_left tcp.window state.wscale
  done (record r {
    tx = State.set_state r.tx tcp.dst tcp.src (Tx.set_send_window acknowledged window);
  })

-- The room left in the receive window, scaled.
unfoldable pub room : TcpRxState → Run ℕ
unfolding shift_right
room state = do left ← Window.remaining state.cache; shift_right left state.wscale

-- Data that is next goes to the proxy, and is counted and acknowledged.
unfoldable pub deliver :
    Redirector → Tcp → TcpRxState → StreamWorker → List ℕ → Result (Unit {0}) → Part
unfolding room on_tx on_tx_state refuse
deliver r tcp state stream payload written = elim (Stream.send stream written) [
  | err e ↦ returned (refuse r tcp (err e))
  | ok _ ↦ do
    window ← room state
    let state' = Rx.add_recv_next state (as_u32 (length payload))
    counted ←
        on_tx_state (record r { states = insert (key tcp) state' r.states }) tcp
          (λ s. Tx.add_acknowledgement (Tx.set_window s window) (as_u32 (length payload)))
    tried (on_tx counted (Streams.send_tcp_ack_0 counted.tx tcp.dst tcp.src))
]

-- Data that is old or out of order is answered with what is still missing.
unfoldable pub answer : Redirector → Tcp → TcpRxState → Part
unfolding room on_tx on_tx_state
answer r tcp state = do
  window ← room state
  updated ← on_tx_state r tcp (λ s. Tx.set_window s window)
  tried (on_tx updated (Streams.send_tcp_ack_0 updated.tx tcp.dst tcp.src))

-- The ranges that are filled go to the state towards the source.
unfoldable pub report_sacks : Redirector → Tcp → TcpRxState → Run Redirector
unfolding on_tx_state
report_sacks r tcp state =
    if state.sack_perm
    then on_tx_state r tcp (λ s. Tx.set_sacks s (Window.filled state.cache))
    else done r

-- A packet with data.
unfoldable pub take_data :
    Redirector → Tcp → TcpRxState → StreamWorker → List ℕ → Result (Unit {0}) → Part
unfolding deliver answer report_sacks
take_data r tcp state stream payload written = do
  (state', result) ← Rx.append_cache state tcp.sequence payload
  let stored : Redirector = record r { states = insert (key tcp) state' r.states }
  elim result [
    | err e ↦ done (stored, some (err e))
    | ok cont_payload ↦ do
      reported ← report_sacks stored tcp state'
      elim cont_payload [
        | some bytes ↦ deliver reported tcp state' stream bytes written
        | none ↦ answer reported tcp state'
      ]
  ]

-- Whether the retransmission is selective, and after which SACKs.
abbrev pub selected : TcpRxState → Option (List (ℕ × ℕ)) → List (ℕ × ℕ)
selected state none = []
selected state (some sacks) = if state.sack_perm then sacks else []

unfoldable pub resend : Redirector → Tcp → List (ℕ × ℕ) → Handled
unfolding on_tx
resend r tcp [] = on_tx r (Streams.retransmit_tcp_ack r.tx tcp.dst tcp.src)
resend r tcp (sack ∷ sacks) =
    on_tx r (Streams.retransmit_tcp_ack_without r.tx tcp.dst tcp.src (sack ∷ sacks))

-- Fast retransmission.
unfoldable pub retransmit : Redirector → Tcp → TcpRxState → Instant → Part
unfolding resend
retransmit r tcp state now = do
  (r', result) ← resend r tcp (selected state tcp.sack)
  elim result [
    | err e ↦ done (r', some (err e))
    | ok _ ↦
        let state' = Rx.set_last_retrans (Rx.clear_duplicate state) now in
        done (record r' { states = insert (key tcp) state' r'.states }, none)
  ]

-- Whether the connection is closed for writing and has nothing left to send.
unfoldable pub is_last_ack : Redirector → Tcp → StreamWorker → Run Bool
is_last_ack r tcp stream =
    if stream.is_write_closed
    then (do left ← State.get_cache_size r.tx tcp.dst tcp.src; done (left == 0))
    else done false

-- A packet without data: it ends a connection that is at its last ACK, or it may be a duplicate.
unfoldable pub take_ack_0 : Redirector → Tcp → TcpRxState → StreamWorker → Instant → Part
unfolding retransmit clean_up is_last_ack
take_ack_0 r tcp state stream now = do
  is_last ← is_last_ack r tcp stream
  if is_last
      then done (clean_up r tcp.src tcp.dst, some (ok tt))
      else (let (state', is_retrans) = Rx.increase_duplicate state tcp.acknowledgement now in
          let r' : Redirector = record r { states = insert (key tcp) state' r.states } in
          if is_retrans && not (tcp.window == 0)
          then retransmit r' tcp state' now
          else done (r', none))

-- What is left is sent, and a FIN that came or is waiting is handled.
unfoldable pub send_rest : Redirector → Tcp → List ℕ → Instant → Handled
unfolding on_tx
send_rest r tcp payload now = do
  (r', result) ← on_tx r (Streams.send_tcp_ack r.tx tcp.dst tcp.src now)
  elim result [
    | err e ↦ done (r', err e)
    | ok _ ↦ do
      state ← unwrap (r'.states (key tcp))
      if tcp.is_fin || is_some state.fin_sequence
          then handle_tcp_fin r' tcp payload
          else done (r', ok tt)
  ]

unfoldable pub finish : Redirector → Tcp → List ℕ → Instant → Exit → Handled
unfolding send_rest
finish r tcp payload now (some result) = done (r, result)
finish r tcp payload now none = send_rest r tcp payload now

unfoldable pub serve_ack :
    Redirector → Tcp → List ℕ → StreamWorker → Result (Unit {0}) → Instant → Handled
unfolding take_ack take_data take_ack_0 finish
serve_ack r tcp payload stream written now = do
  state ← unwrap (r.states (key tcp))
  taken ← take_ack r tcp state now
  (r', exit) ←
      (if ltb 0 (length payload)
        then take_data taken tcp state stream payload written
        else take_ack_0 taken tcp state stream now)
  finish r' tcp payload now exit

unfoldable pub handle_tcp_ack : Redirector → Tcp → List ℕ → Result (Unit {0}) → Instant → Handled
unfolding serve_ack send_rst
handle_tcp_ack r tcp payload written now = elim (r.streams (key tcp)) [
  | none ↦ done (send_rst r tcp)
  | some stream ↦ serve_ack r tcp payload stream written now
]
