-- ===== src/Redirector/Tcp/Laws/Syn.antt =====
-- `handle_tcp_syn` keeps the connections linked.
use pcap2socks.Base.{
  ℕ, ◌≡◌, refl, ◌∙◌, ap, arith, Bool, Option-cases, inl, inr, Option, none, some, Result, ok, err,
  pair_key, All, All-bind, All-any,
}
use pcap2socks.Net.{SocketAddr, addr_key}
use pcap2socks.Timer.{Instant}
use pcap2socks.Tcp.Tx
use pcap2socks.Tcp.Tx.{TcpTxState, or_zero}
use pcap2socks.Tcp.Rx
use pcap2socks.Tcp.Rx.{TcpRxState, next_u32}
use pcap2socks.Socks.Stream.{StreamWorker}
use pcap2socks.Forwarder.State
use pcap2socks.Forwarder.State.{Forwarder, Connection}
use pcap2socks.Forwarder.Streams
use pcap2socks.Forwarder.Streams.Table.{open_stream-KeepsAcks, ack_of}
use pcap2socks.Redirector.Tcp.{Redirector, Tcp, key, clean_up}
use pcap2socks.Redirector.Tcp.Linked.{
  IsLinked, Alike-IsLinked, clean_up-IsLinked, prepare-IsLinked, establish-IsLinked, same_self,
}
use pcap2socks.Redirector.Tcp.Syn
use pcap2socks.Redirector.Tcp.Laws.{LinkedAfter, on_tx_state_at, refuse-IsLinked}

-- Before the stream is there: the states of the two directions, that from the source at hand.
record IsPrepared (r : Redirector) (tcp : Tcp) (state : TcpRxState) : Type 0 where
  linked : IsLinked r
  absent : r.streams (key tcp) ≡ none
  acks : ack_of (r.tx.states (key tcp)) ≡ some state.recv_next

new_recv :
    (src dst : SocketAddr) (sequence wscale : ℕ) (sack_perm : Bool)
    → All (λ s. s.recv_next ≡ next_u32 sequence) (Rx.new src dst sequence wscale sack_perm)
unfolding Rx.new
new_recv src dst sequence wscale sack_perm =
    All-bind (λ a. Unit {0}) (λ s. s.recv_next ≡ next_u32 sequence)
      (Tx.shift_left Tx.recv_window wscale) _ (All-any _) (λ capacity _. refl)

new_ack :
    (src dst : SocketAddr) (sequence acknowledgement window : ℕ) (send_wscale : Option ℕ)
    (sack_perm : Bool) (wscale : Option ℕ)
    → All
        (λ s. s.acknowledgement ≡ acknowledgement)
        (Tx.new src dst sequence acknowledgement window send_wscale sack_perm wscale)
unfolding Tx.new Tx.initial
new_ack src dst sequence acknowledgement window send_wscale sack_perm wscale =
    All-bind (λ a. Unit {0}) (λ s. s.acknowledgement ≡ acknowledgement)
      (Tx.shift_left window (or_zero send_wscale)) _ (All-any _)
      (λ scaled _.
        All-bind (λ a. Unit {0}) (λ s. s.acknowledgement ≡ acknowledgement)
          (Tx.shift_left Tx.recv_window (or_zero wscale)) _ (All-any _) (λ capacity _. refl))

states-set_mss : (tx : Forwarder) (tcp : Tcp) → (Syn.set_mss tx tcp).states ≡ tx.states
unfolding Syn.set_mss State.set_src_mtu
states-set_mss tx tcp = elim (Option-cases tcp.mss) [
  | inl absent ↦ rw absent refl
  | inr (mss, here) ↦ rw here refl
]

ack_of-some :
    (o : Option TcpTxState) (n : ℕ)
    → ack_of o ≡ some n
    → (s : TcpTxState) × (o ≡ some s) × (s.acknowledgement ≡ n)
ack_of-some none n e = absurd (ground arith)
ack_of-some (some s) n e = (s, refl, ground arith)

admit_syn-IsPrepared :
    (r : Redirector) (tcp : Tcp) (sequence : ℕ)
    → IsLinked r
    → r.streams (key tcp) ≡ none
    → All (λ (r', state). IsPrepared r' tcp state) (Syn.admit_syn r tcp sequence)
unfolding Syn.admit_syn State.set_state
admit_syn-IsPrepared r tcp sequence linked absent =
    let opened : Redirector = record r { tx = Syn.set_mss r.tx tcp } in
    let linked' =
      Alike-IsLinked r opened
        (record {
          streams = λ k. refl;
          states = λ k. refl;
          acks = λ k. ap (λ m. ack_of (m k)) (states-set_mss r.tx tcp);
        })
        linked in
    All-bind (λ s. s.recv_next ≡ next_u32 tcp.sequence) (λ (r', state). IsPrepared r' tcp state)
      (Rx.new tcp.src tcp.dst tcp.sequence (or_zero tcp.wscale) tcp.is_sack_perm) _
      (new_recv tcp.src tcp.dst tcp.sequence (or_zero tcp.wscale) tcp.is_sack_perm)
      (λ state recv.
        All-bind (λ s. s.acknowledgement ≡ next_u32 tcp.sequence)
          (λ (r', state). IsPrepared r' tcp state)
          (Tx.new tcp.src tcp.dst sequence (next_u32 tcp.sequence) tcp.window
            (Syn.recv_wscale tcp.wscale) tcp.is_sack_perm tcp.wscale)
          _
          (new_ack tcp.src tcp.dst sequence (next_u32 tcp.sequence) tcp.window
            (Syn.recv_wscale tcp.wscale) tcp.is_sack_perm tcp.wscale)
          (λ s ack. record {
            linked = prepare-IsLinked opened tcp linked' s absent;
            absent = absent;
            acks = rw (same_self (key tcp), ack, recv) refl;
          }))

connect-IsPrepared :
    (r : Redirector) (tcp : Tcp) (state : TcpRxState) (proxy : Result (Unit {0})) (now : Instant)
    → IsPrepared r tcp state
    → All (λ (r', stream). IsPrepared r' tcp state) (Syn.connect r tcp proxy now)
unfolding Syn.connect
connect-IsPrepared r tcp state (err e) now p = p
connect-IsPrepared r tcp state (ok _) now p =
    All-bind (λ (f', result). (k : Connection) → ack_of (f'.states k) ≡ ack_of (r.tx.states k))
      (λ (r', stream). IsPrepared r' tcp state) (Streams.open_stream r.tx tcp.dst tcp.src now) _
      (open_stream-KeepsAcks r.tx tcp.dst tcp.src now)
      (λ (f', opened) acks. record {
        linked =
            Alike-IsLinked r (record r { tx = f' })
              (record { streams = λ k. refl; states = λ k. refl; acks = acks }) p.linked;
        absent = p.absent;
        acks = acks (key tcp) ∙ p.acks;
      })

settle-IsLinked :
    (r : Redirector) (tcp : Tcp) (state : TcpRxState) (stream : Result StreamWorker)
    → IsPrepared r tcp state
    → LinkedAfter (Syn.settle r tcp state stream)
unfolding Syn.settle
settle-IsLinked r tcp state (ok w) p =
    let (s, here, acked) = ack_of-some (r.tx.states (key tcp)) state.recv_next p.acks in
    establish-IsLinked r tcp p.linked w state s here acked
settle-IsLinked r tcp state (err e) p =
    let (s, here, acked) = ack_of-some (r.tx.states (key tcp)) state.recv_next p.acks in
    let counted = Tx.add_acknowledgement s 1 in
    rw (on_tx_state_at r tcp (λ t. Tx.add_acknowledgement t 1) s here) (
      refuse-IsLinked (record r { tx = State.set_state r.tx tcp.dst tcp.src counted }) tcp (err e)
        (prepare-IsLinked r tcp p.linked counted p.absent))

pub handle_tcp_syn-IsLinked :
    (r : Redirector) (tcp : Tcp) (sequence : ℕ) (proxy : Result (Unit {0})) (now : Instant)
    → IsLinked r
    → LinkedAfter (Syn.handle_tcp_syn r tcp sequence proxy now)
unfolding Syn.handle_tcp_syn clean_up
handle_tcp_syn-IsLinked r tcp sequence proxy now linked =
    elim (Option-cases (r.streams (key tcp))) [
      | inr (w, here) ↦ rw (here, Syn.handle_tcp_syn) linked
      | inl absent ↦
          rw (absent, Syn.handle_tcp_syn)
            (All-bind (λ (r', state). IsPrepared r' tcp state) (λ (r', result). IsLinked r')
              (Syn.admit_syn (clean_up r tcp.src tcp.dst) tcp sequence) _
              (admit_syn-IsPrepared (clean_up r tcp.src tcp.dst) tcp sequence
                (clean_up-IsLinked r tcp linked) (rw (same_self (key tcp)) refl))
              (λ (r1, state) p.
                All-bind (λ (r', stream). IsPrepared r' tcp state) (λ (r', result). IsLinked r')
                  (Syn.connect r1 tcp proxy now) _ (connect-IsPrepared r1 tcp state proxy now p)
                  (λ (r2, stream) q. settle-IsLinked r2 tcp state stream q)))
    ]
