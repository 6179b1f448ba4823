-- ===== src/Redirector/Tcp/Laws/At.antt =====
-- The parts of `handle_tcp_ack` that answer a connection at hand.
use pcap2socks.Base.{
  ℕ, if◌then◌else◌, ◌≡◌, refl, sym, ◌∙◌, ap, Bool, true, false, List, length, Result-cases, inl,
  inr, some, done, Result, err, as_u32, pair_key, insert, All, All-bind, All-map, All-any,
}
use pcap2socks.Net.{addr_key}
use pcap2socks.Timer.{Instant}
use pcap2socks.Sequence.{seq_add}
use pcap2socks.Cache.Window
use pcap2socks.Tcp.Tx
use pcap2socks.Tcp.Tx.{TcpTxState, is_some, shift_left}
use pcap2socks.Tcp.Tx.Fields.{acknowledge_ack, set_sacks_ack}
use pcap2socks.Tcp.Rx
use pcap2socks.Tcp.Rx.{TcpRxState}
use pcap2socks.Socks.Stream
use pcap2socks.Socks.Stream.{StreamWorker}
use pcap2socks.Forwarder.State
use pcap2socks.Forwarder.Streams
use pcap2socks.Forwarder.Streams.Table.{send_tcp_ack_0-KeepsAcks}
use pcap2socks.Redirector.Tcp.{Redirector, Tcp, Handled, key, on_tx, on_tx_state, refuse}
use pcap2socks.Redirector.Tcp.Linked.{
  IsLinked, Alike, Alike-IsLinked, on_tx-Alike, put_tx_state-IsLinked, put_state-IsLinked,
  put_both-IsLinked, same_self,
}
use pcap2socks.Redirector.Tcp.Ack
use pcap2socks.Redirector.Tcp.Ack.{Part, Exit, tried, returned}
use pcap2socks.Redirector.Tcp.Laws.{LinkedAfter, on_tx_state_at, refuse-IsLinked}

-- If a part of the handler ends, the connections are linked.
abbrev pub PartLinked : Part → Type 0
PartLinked part = All (λ (r', exit). IsLinked r') part

tried-Linked : (call : Handled) → LinkedAfter call → PartLinked (tried call)
tried-Linked call h =
    All-bind (λ (r', result). IsLinked r') (λ (r', exit). IsLinked r') call _ h (λ x q. q)

returned-Linked : (call : Handled) → LinkedAfter call → PartLinked (returned call)
returned-Linked call h =
    All-bind (λ (r', result). IsLinked r') (λ (r', exit). IsLinked r') call _ h (λ x q. q)

ack_0-Linked :
    (r : Redirector) (tcp : Tcp)
    → IsLinked r
    → PartLinked (tried (on_tx r (Streams.send_tcp_ack_0 r.tx tcp.dst tcp.src)))
ack_0-Linked r tcp linked =
    let call = on_tx r (Streams.send_tcp_ack_0 r.tx tcp.dst tcp.src) in
    tried-Linked call (
      All-map (λ (r', result). Alike r r') (λ (r', result). IsLinked r') call
        (on_tx-Alike r (Streams.send_tcp_ack_0 r.tx tcp.dst tcp.src)
          (send_tcp_ack_0-KeepsAcks r.tx tcp.dst tcp.src))
        (λ (r', result) alike. Alike-IsLinked r r' alike linked))

-- A connection whose stream, states and acknowledgement are at hand.
pub record At (r : Redirector) (tcp : Tcp) (w : StreamWorker) (state : TcpRxState) : Type 0 where
  pub linked : IsLinked r
  pub has_stream : r.streams (key tcp) ≡ some w
  pub has_state : r.states (key tcp) ≡ some state
  pub tx_state : TcpTxState
  pub has_tx_state : r.tx.states (key tcp) ≡ some tx_state
  pub acked : tx_state.acknowledgement ≡ state.recv_next

module _ {r : Redirector} {tcp : Tcp} {w : StreamWorker} {state : TcpRxState}
    (a : At r tcp w state) where
  put_tx_state-At :
      (s' : TcpTxState)
      → s'.acknowledgement ≡ a.tx_state.acknowledgement
      → At (record r { tx = State.set_state r.tx tcp.dst tcp.src s' }) tcp w state
  unfolding State.set_state
  put_tx_state-At s' same = record {
    linked = put_tx_state-IsLinked r tcp a.linked a.tx_state s' a.has_tx_state same;
    has_stream = a.has_stream;
    has_state = a.has_state;
    tx_state = s';
    has_tx_state = rw (same_self (key tcp)) refl;
    acked = same ∙ a.acked;
  }

  pub put_state-At :
      (state' : TcpRxState)
      → state'.recv_next ≡ state.recv_next
      → At (record r { states = insert (key tcp) state' r.states }) tcp w state'
  put_state-At state' same = record {
    linked = put_state-IsLinked r tcp a.linked state state' a.has_state same;
    has_stream = a.has_stream;
    has_state = rw (same_self (key tcp)) refl;
    tx_state = a.tx_state;
    has_tx_state = a.has_tx_state;
    acked = a.acked ∙ sym same;
  }

  on_tx_state-At :
      (change : TcpTxState → TcpTxState)
      → ((s : TcpTxState) → (change s).acknowledgement ≡ s.acknowledgement)
      → All (λ r'. At r' tcp w state) (on_tx_state r tcp change)
  on_tx_state-At change keeps =
      rw (on_tx_state_at r tcp change a.tx_state a.has_tx_state)
        (put_tx_state-At (change a.tx_state) (keeps a.tx_state))

  pub take_ack-At : (now : Instant) → All (λ r'. At r' tcp w state) (Ack.take_ack r tcp state now)
  unfolding Ack.take_ack State.get_state Tx.set_send_window
  take_ack-At now = rw a.has_tx_state (
      All-bind (λ s'. s'.acknowledgement ≡ a.tx_state.acknowledgement) (λ r'. At r' tcp w state)
        (Tx.acknowledge a.tx_state tcp.acknowledgement now) _
        (acknowledge_ack a.tx_state tcp.acknowledgement now)
        (λ s' same.
          All-bind (λ x. Unit {0}) (λ r'. At r' tcp w state) (shift_left tcp.window state.wscale) _
            (All-any (shift_left tcp.window state.wscale))
            (λ window _. put_tx_state-At (Tx.set_send_window s' window) same)))

  pub answer-Linked : PartLinked (Ack.answer r tcp state)
  unfolding Ack.answer Tx.set_window
  answer-Linked =
      All-bind (λ x. Unit {0}) (λ (r', exit). IsLinked r') (Ack.room state) _
        (All-any (Ack.room state))
        (λ window _.
          All-bind (λ r'. At r' tcp w state) (λ (r', exit). IsLinked r')
            (on_tx_state r tcp (λ s. Tx.set_window s window)) _
            (on_tx_state-At (λ s. Tx.set_window s window) (λ s. refl))
            (λ r' b. ack_0-Linked r' tcp b.linked))

  -- With or without SACKs.
  report-At :
      (permitted : Bool)
      → All
          (λ r'. At r' tcp w state)
          (if permitted
            then on_tx_state r tcp (λ s. Tx.set_sacks s (Window.filled state.cache))
            else done r)
  report-At true =
      on_tx_state-At (λ s. Tx.set_sacks s (Window.filled state.cache))
        (λ s. set_sacks_ack s (Window.filled state.cache))
  report-At false = a

  pub report_sacks-At : All (λ r'. At r' tcp w state) (Ack.report_sacks r tcp state)
  unfolding Ack.report_sacks
  report_sacks-At = report-At state.sack_perm

  pub deliver-Linked :
      (payload : List ℕ) (written : Result (Unit {0}))
      → PartLinked (Ack.deliver r tcp state w payload written)
  unfolding Ack.deliver Rx.add_recv_next Tx.add_acknowledgement Tx.set_window
  deliver-Linked payload written = elim (Result-cases (Stream.send w written)) [
    | inr (e, failed) ↦
        rw (failed, Ack.deliver)
          (returned-Linked (refuse r tcp (err e)) (refuse-IsLinked r tcp (err e) a.linked))
    | inl (_, sent_ok) ↦
        rw (sent_ok, Ack.deliver)
          (All-bind (λ x. Unit {0}) (λ (r', exit). IsLinked r') (Ack.room state) _
            (All-any (Ack.room state))
            (λ window _.
              let n = as_u32 (length payload) in
              let state' = Rx.add_recv_next state n in
              let s' = Tx.add_acknowledgement (Tx.set_window a.tx_state window) n in
              let stored : Redirector = record r { states = insert (key tcp) state' r.states } in
              let counted : Redirector = record stored {
                tx = State.set_state r.tx tcp.dst tcp.src s';
              } in
              rw
                (on_tx_state_at stored tcp (λ s. Tx.add_acknowledgement (Tx.set_window s window) n)
                  a.tx_state a.has_tx_state)
                (ack_0-Linked counted tcp (
                  put_both-IsLinked r tcp a.linked w state' s' a.has_stream
                    (ap (λ m. seq_add m n) a.acked)))))
  ]
