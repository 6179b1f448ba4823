-- ===== src/Redirector/Tcp/Deliver/Taken.antt =====
-- Data in order is taken in: the part of `handle_tcp_ack` up to the ACK.
use pcap2socks.Base.{
  ap₂, ◌++◌, ℕ, ◌≡◌, ◌≤◌, ◌<◌, ◌∷◌, [], refl, ◌∙◌, some, List, length, done, Result, ok, insert,
  pair_key, arith, ◌^◌, ◌*◌, u16_max, u32_max,
}
use pcap2socks.Net.{addr_key}
use pcap2socks.Sequence.{seq_add, max_window_size}
use pcap2socks.Cache.Window
use pcap2socks.Cache.Window.Laws.{IsValid, IsDelivered, append_in_order}
use pcap2socks.Tcp.Tx
use pcap2socks.Tcp.Tx.{TcpTxState}
use pcap2socks.Tcp.Tx.Valid
use pcap2socks.Tcp.Tx.Stream.{stream}
use pcap2socks.Tcp.Tx.Valid.{shift_left_run}
use pcap2socks.Tcp.Tx.Acknowledge.{left_by, acknowledge_run}
use pcap2socks.Timer.{Instant}
use pcap2socks.Tcp.Rx
use pcap2socks.Tcp.Rx.{TcpRxState}
use pcap2socks.Socks.Stream
use pcap2socks.Socks.Stream.{StreamWorker}
use pcap2socks.Forwarder.Packet
use pcap2socks.Forwarder.State
use pcap2socks.Forwarder.State.{send_packets, sent}
use pcap2socks.Forwarder.Streams.Mtus.{SameMtus}
use pcap2socks.Redirector.Tcp.{Redirector, Tcp, key}
use pcap2socks.Redirector.Tcp.Linked.{same_self}
use pcap2socks.Redirector.Tcp.Ack
use pcap2socks.Redirector.Tcp.Ack.{Exit, question}
use pcap2socks.Redirector.Tcp.Deliver.Steps.{CanSend, report_run, deliver_run}

-- The connection behind a packet whose `n` bytes of data were taken: they are counted on either
-- side, nothing is stored, `held` is what is in flight and queued, and one ACK is sent for all of it.
pub record IsTaken (r : Redirector) (tcp : Tcp) (state : TcpRxState) (held : List ℕ) (n : ℕ)
    (r' : Redirector) (exit : Exit) : Type 0 where
  pub state' : TcpRxState
  pub has_state : r'.states (key tcp) ≡ some state'
  pub received : state'.recv_next ≡ seq_add state.recv_next n
  pub window : IsDelivered state.cache n state'.cache
  pub tx_state : TcpTxState
  pub has_tx_state : r'.tx.states (key tcp) ≡ some tx_state
  pub acked : tx_state.acknowledgement ≡ state'.recv_next
  pub to_send : stream tx_state ≡ held
  pub ready : CanSend tx_state
  pub mtus : SameMtus r.tx r'.tx
  pub fin : state'.fin_sequence ≡ state.fin_sequence
  pub before : State.Forwarder
  pub frames : before.frames ≡ r.tx.frames
  pub ack_sent :
      r'.tx
      ≡ send_packets before tcp.dst tcp.src (Packet.send_tcp_ack_0 before.local_mtu tx_state ∷ [])
  pub exit_of : exit ≡ question (sent before 0)

append_run :
    (state : TcpRxState) (sequence : ℕ) (payload : List ℕ)
    → IsValid state.cache
    → state.cache.size ≡ 0
    → state.cache.edges ≡ []
    → sequence ≡ state.cache.sequence
    → 0 < length payload
    → length payload ≤ state.cache.capacity
    → length payload ≤ max_window_size
    → (w' : Window.Window) × (Rx.append_cache state sequence payload
        ≡ done (record state { cache = w' }, ok (some payload)))
      × IsDelivered state.cache (length payload) w'
unfolding Rx.append_cache
append_run state sequence payload v empty none_stored next some_data fits small =
    let (w', appended, delivered) =
      append_in_order payload v empty none_stored some_data fits small in
    (w', rw (next, appended) refl, delivered)

-- A packet with data at the window's sequence, with nothing stored and a proxy that takes
-- the bytes, is taken in without a panic.
pub take_data_in_order :
    (r : Redirector) (tcp : Tcp) (state : TcpRxState) (worker : StreamWorker) (payload : List ℕ)
    (s : TcpTxState) (written : Result (Unit {0}))
    → Stream.send worker written ≡ ok tt
    → r.tx.states (key tcp) ≡ some s
    → s.acknowledgement ≡ state.recv_next
    → state.wscale < 64
    → IsValid state.cache
    → state.cache.size ≡ 0
    → state.cache.edges ≡ []
    → tcp.sequence ≡ state.cache.sequence
    → 0 < length payload
    → length payload ≤ state.cache.capacity
    → length payload ≤ max_window_size
    → CanSend s
    → (r' : Redirector) × (exit : Exit) × (Ack.take_data r tcp state worker payload written
        ≡ done (r', exit))
      × IsTaken r tcp state (stream s) (length payload) r' exit
unfolding Ack.take_data Rx.add_recv_next
take_data_in_order r tcp state worker payload s written accepted here acked scale v empty
      none_stored next some_data fits small can =
    let (w', appended, delivered) =
      append_run state tcp.sequence payload v empty none_stored next some_data fits small in
    let state' : TcpRxState = record state { cache = w' } in
    let stored : Redirector = record r { states = insert (key tcp) state' r.states } in
    let (reported, s', of_report, states, there, same, cached, can', (local, src), frames) =
      report_run stored tcp state' s here can in
    let (
      r',
      exit,
      of_deliver,
      has_state,
      before,
      kept,
      s'',
      has_tx,
      counted,
      carried,
      ready,
      (local', src'),
      ack_sent,
      exit_of,
    ) =
      deliver_run reported tcp state' worker payload s' written (length payload) accepted there
        (same ∙ acked) (omega (arith, delivered.empty)) scale (omega arith) (omega arith) can' in
    (
      r',
      exit,
      rw (Ack.take_data, appended, of_report) of_deliver,
      record {
        state' = Rx.add_recv_next state' (length payload);
        has_state = has_state;
        received = refl;
        window = delivered;
        tx_state = s'';
        has_tx_state = has_tx;
        acked = counted;
        to_send = carried ∙ cached;
        ready = ready;
        mtus = (local' ∙ local, src' ∙ src);
        fin = refl;
        before = before;
        frames = kept ∙ frames;
        ack_sent = ack_sent;
        exit_of = exit_of;
      },
    )

-- The acknowledgement and the window of a packet.
pub take_ack_run :
    (r : Redirector) (tcp : Tcp) (state : TcpRxState) (s : TcpTxState) (now : Instant)
    → r.tx.states (key tcp) ≡ some s
    → Valid.IsValid s
    → tcp.acknowledgement ≤ u32_max
    → tcp.window ≤ u16_max
    → state.wscale ≤ 14
    → tcp.window * 2 ^ state.wscale ≤ s.cache.capacity
    → length s.queue ≤ u32_max
    → (r' : Redirector) × (s' : TcpTxState) × (Ack.take_ack r tcp state now ≡ done r')
      × (r'.states ≡ r.states)
      × (r'.tx.states (key tcp) ≡ some s')
      × (s'.acknowledgement ≡ s.acknowledgement)
      × (stream s' ≡ left_by s.cache tcp.acknowledgement ++ s.queue)
      × CanSend s'
      × SameMtus r.tx r'.tx
      × (r'.tx.frames ≡ r.tx.frames)
unfolding Ack.take_ack State.get_state State.set_state Tx.set_send_window
take_ack_run r tcp state s now here v in_range window scale room few =
    let (s', acknowledged, v', left, queue, acked, sequence, cap) =
      acknowledge_run tcp.acknowledgement now v in_range in
    let scaled = shift_left_run tcp.window state.wscale window scale in
    let opened = Tx.set_send_window s' (tcp.window * 2 ^ state.wscale) in
    (
      record r { tx = State.set_state r.tx tcp.dst tcp.src opened },
      opened,
      rw (here, acknowledged, scaled.0) refl,
      refl,
      rw (same_self (key tcp)) refl,
      acked,
      ap₂ ◌++◌ left queue,
      record { valid = ground arith; window_in = rw cap room; queue_in = rw queue few },
      (refl, refl),
      refl,
    )

-- What was in flight, and the frames that were sent, before the part that took the data.
pub IsTaken-before :
    {r taken r' : Redirector} {tcp : Tcp} {state : TcpRxState} {held left : List ℕ} {n : ℕ}
    {exit : Exit}
    → IsTaken taken tcp state held n r' exit
    → held ≡ left
    → taken.tx.frames ≡ r.tx.frames
    → SameMtus r.tx taken.tx
    → IsTaken r tcp state left n r' exit
IsTaken-before t same frames (local, src) = record {
  state' = t.state';
  has_state = t.has_state;
  received = t.received;
  window = t.window;
  tx_state = t.tx_state;
  has_tx_state = t.has_tx_state;
  acked = t.acked;
  to_send = t.to_send ∙ same;
  ready = t.ready;
  mtus = (t.mtus.0 ∙ local, t.mtus.1 ∙ src);
  fin = t.fin;
  before = t.before;
  frames = t.frames ∙ frames;
  ack_sent = t.ack_sent;
  exit_of = t.exit_of;
}
