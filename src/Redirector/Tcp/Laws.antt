-- ===== src/Redirector/Tcp/Laws.antt =====
-- Every handler of `Redirector` keeps its connections linked.
pub mod Syn
pub mod At
pub mod Ack
use pcap2socks.Base.{
  ℕ, ◌≡◌, refl, sym, ◌∙◌, ap, ◌==◌, ltb, ◌&&◌, ◌||◌, not, Bool, true, false, Bool-cases,
  Option-cases, Result-cases, inl, inr, Option, none, some, List, [], ◌∷◌, length, Run, done, panic,
  ◌>>=◌, Result, ok, err, as_u32, Key, pair_key, insert, remove, All, All-bind, All-map, All-any,
}
use pcap2socks.Net.{SocketAddr, addr_key}
use pcap2socks.Timer.{Instant}
use pcap2socks.Sequence.{seq_add}
use pcap2socks.Tcp.Tx
use pcap2socks.Tcp.Tx.{TcpTxState, is_some}
use pcap2socks.Tcp.Rx
use pcap2socks.Tcp.Rx.{TcpRxState}
use pcap2socks.Socks.Stream
use pcap2socks.Socks.Stream.{StreamWorker}
use pcap2socks.Forwarder.State
use pcap2socks.Forwarder.State.{Forwarder}
use pcap2socks.Forwarder.Streams
use pcap2socks.Forwarder.Streams.Table.{
  SameAcks, KeepsAcks, send_tcp_ack-KeepsAcks, send_tcp_ack_0-KeepsAcks, send_tcp_ack_rst-KeepsAcks,
  send_tcp_rst-SameAcks, retransmit_tcp_ack-KeepsAcks, retransmit_tcp_ack_without-KeepsAcks,
  open_stream-KeepsAcks,
}
use pcap2socks.Redirector.Tcp.{
  Redirector, Tcp, Handled, key, clean_up, on_tx, on_tx_state, send_rst, refuse,
}
use pcap2socks.Redirector.Tcp.Linked.{
  IsLinked, Connected, IsLinked-Connected, Alike, AlikeAfter, Alike-IsLinked, on_tx-Alike,
  put_tx_state-IsLinked, put_state-IsLinked, put_both-IsLinked, put_stream-IsLinked,
  clean_up-IsLinked, prepare-IsLinked, establish-IsLinked,
}
use pcap2socks.Redirector.Tcp.Fin

-- If the handler returns, its connections are linked.
abbrev pub LinkedAfter : Handled → Type 0
LinkedAfter run = All (λ (r', result). IsLinked r') run

-- The state of the connection is replaced, and the rest goes on from there.
pub on_tx_state_at :
    (r : Redirector) (tcp : Tcp) (change : TcpTxState → TcpTxState) (s : TcpTxState)
    → r.tx.states (key tcp) ≡ some s
    → on_tx_state r tcp change
      ≡ done (record r { tx = State.set_state r.tx tcp.dst tcp.src (change s) })
unfolding on_tx_state State.get_state
on_tx_state_at r tcp change s here = rw here refl

-- A call of the forwarder, and what is done with its result.
pub after_tx :
    (r : Redirector) (call : Run (Forwarder × Result (Unit {0})))
    (f : Redirector × Result (Unit {0}) → Handled)
    → IsLinked r
    → KeepsAcks r.tx call
    → ((r' : Redirector) (result : Result (Unit {0}))
        → Alike r r'
        → IsLinked r'
        → LinkedAfter (f (r', result)))
    → LinkedAfter (on_tx r call >>= f)
after_tx r call f linked keeps next =
    All-bind (λ (r', result). Alike r r') (λ (r', result). IsLinked r') (on_tx r call) f
      (on_tx-Alike r call keeps)
      (λ (r', result) alike. next r' result alike (Alike-IsLinked r r' alike linked))

close_stream-IsLinked :
    (r : Redirector) (tcp : Tcp) (w : StreamWorker)
    → IsLinked r
    → r.streams (key tcp) ≡ some w
    → All IsLinked (Fin.close_stream r tcp w)
unfolding Fin.close_stream
close_stream-IsLinked r tcp w linked here = elim (Bool-cases (not w.is_read_closed)) [
  | inl readable ↦ rw readable (
      All-bind (λ a. Unit {0}) IsLinked (Stream.shutdown w) _ (All-any _)
        (λ w' _. put_stream-IsLinked r tcp linked w w' here))
  | inr finished ↦ rw finished (clean_up-IsLinked r tcp linked)
]

admit-IsLinked :
    (r : Redirector) (tcp : Tcp) (w : StreamWorker) (state : TcpRxState) (s : TcpTxState)
    → IsLinked r
    → r.streams (key tcp) ≡ some w
    → r.tx.states (key tcp) ≡ some s
    → s.acknowledgement ≡ state.recv_next
    → LinkedAfter (Fin.admit r tcp w state)
unfolding Fin.admit Rx.add_recv_next Rx.admit_fin Tx.add_acknowledgement
admit-IsLinked r tcp w state s linked here there acked =
    let admitted = Rx.add_recv_next (Rx.admit_fin state) 1 in
    let stored : Redirector = record r { states = insert (key tcp) admitted r.states } in
    let counted : Redirector = record stored {
      tx = State.set_state r.tx tcp.dst tcp.src (Tx.add_acknowledgement s 1);
    } in
    let both =
      put_both-IsLinked r tcp linked w admitted (Tx.add_acknowledgement s 1) here
        (ap (λ n. seq_add n 1) acked) in
    rw (on_tx_state_at stored tcp (λ s. Tx.add_acknowledgement s 1) s there) (
      after_tx counted (Streams.send_tcp_ack_0 counted.tx tcp.dst tcp.src) _ both
        (send_tcp_ack_0-KeepsAcks counted.tx tcp.dst tcp.src)
        (λ r' result alike linked'. elim (Result-cases result) [
          | inr (e, failed) ↦ rw failed linked'
          | inl (_, sent_ok) ↦ rw sent_ok (
              All-bind IsLinked (λ (r', result). IsLinked r') (Fin.close_stream r' tcp w) _
                (close_stream-IsLinked r' tcp w linked' (alike.streams (key tcp) ∙ here))
                (λ closed q. q))
        ]))

note_fin_recv :
    (tcp : Tcp) (payload : List ℕ) (state : TcpRxState)
    → (Fin.note_fin tcp payload state).recv_next ≡ state.recv_next
unfolding Fin.note_fin Rx.set_fin_sequence
note_fin_recv tcp payload state = elim (Bool-cases tcp.is_fin) [
  | inl fin ↦ rw fin refl
  | inr more ↦ rw more refl
]

postpone-IsLinked :
    (r : Redirector) (tcp : Tcp) (payload : List ℕ)
    → IsLinked r
    → LinkedAfter (Fin.postpone r tcp payload)
unfolding Fin.postpone
postpone-IsLinked r tcp payload linked = elim (Bool-cases (length payload == 0)) [
  | inr some_data ↦ rw some_data linked
  | inl empty ↦ rw empty (
      All-map (λ (r', result). Alike r r') (λ (r', result). IsLinked r')
        (on_tx r (Streams.send_tcp_ack_0 r.tx tcp.dst tcp.src))
        (on_tx-Alike r (Streams.send_tcp_ack_0 r.tx tcp.dst tcp.src)
          (send_tcp_ack_0-KeepsAcks r.tx tcp.dst tcp.src))
        (λ (r', result) alike. Alike-IsLinked r r' alike linked))
]

serve_noted-IsLinked :
    (r : Redirector) (tcp : Tcp) (payload : List ℕ) (w : StreamWorker) (noted : TcpRxState)
    (s : TcpTxState)
    → IsLinked r
    → r.streams (key tcp) ≡ some w
    → r.tx.states (key tcp) ≡ some s
    → s.acknowledgement ≡ noted.recv_next
    → LinkedAfter (Fin.serve_noted r tcp payload w noted)
unfolding Fin.serve_noted Rx.admit_fin
serve_noted-IsLinked r tcp payload w noted s linked here there acked =
    elim (Option-cases noted.fin_sequence) [
      | inl none_waits ↦ rw none_waits linked
      | inr (fin_sequence, waits) ↦ elim (Bool-cases (fin_sequence == noted.recv_next)) [
        | inl next ↦ rw (waits, next) (admit-IsLinked r tcp w noted s linked here there acked)
        | inr later ↦ rw (waits, later) (postpone-IsLinked r tcp payload linked)
      ]
    ]

serve_fin-IsLinked :
    (r : Redirector) (tcp : Tcp) (payload : List ℕ) (w : StreamWorker)
    → IsLinked r
    → r.streams (key tcp) ≡ some w
    → LinkedAfter (Fin.serve_fin r tcp payload w)
unfolding Fin.serve_fin
serve_fin-IsLinked r tcp payload w linked here =
    let c = IsLinked-Connected r (key tcp) w linked here in
    let noted = Fin.note_fin tcp payload c.state in
    let same = note_fin_recv tcp payload c.state in
    let stored : Redirector = record r { states = insert (key tcp) noted r.states } in
    let kept = put_state-IsLinked r tcp linked c.state noted c.has_state same in
    rw c.has_state (
      serve_noted-IsLinked stored tcp payload w noted c.tx_state kept here c.has_tx_state
        (c.acked ∙ sym same))

pub send_rst-IsLinked : (r : Redirector) (tcp : Tcp) → IsLinked r → IsLinked (send_rst r tcp).0
unfolding send_rst
send_rst-IsLinked r tcp linked =
    Alike-IsLinked r (send_rst r tcp).0
      (record {
        streams = λ k. refl;
        states = λ k. refl;
        acks = send_tcp_rst-SameAcks r.tx tcp.dst tcp.src;
      })
      linked

pub handle_tcp_fin-IsLinked :
    (r : Redirector) (tcp : Tcp) (payload : List ℕ)
    → IsLinked r
    → LinkedAfter (Fin.handle_tcp_fin r tcp payload)
unfolding Fin.handle_tcp_fin
handle_tcp_fin-IsLinked r tcp payload linked = elim (Option-cases (r.streams (key tcp))) [
  | inl absent ↦ rw (absent, Fin.handle_tcp_fin) (send_rst-IsLinked r tcp linked)
  | inr (w, here) ↦ rw (here, Fin.handle_tcp_fin) (serve_fin-IsLinked r tcp payload w linked here)
]

pub refuse-IsLinked :
    (r : Redirector) (tcp : Tcp) (error : Result (Unit {0}))
    → IsLinked r
    → LinkedAfter (refuse r tcp error)
unfolding refuse
refuse-IsLinked r tcp error linked =
    after_tx r (Streams.send_tcp_ack_rst r.tx tcp.dst tcp.src) _ linked
      (send_tcp_ack_rst-KeepsAcks r.tx tcp.dst tcp.src)
      (λ r' result alike linked'. elim (Result-cases result) [
        | inr (e, failed) ↦ rw failed linked'
        | inl (_, sent_ok) ↦ rw sent_ok (clean_up-IsLinked r' tcp linked')
      ])
