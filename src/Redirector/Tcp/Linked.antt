-- ===== src/Redirector/Tcp/Linked.antt =====
-- The invariant of the TCP part of `Redirector`: the maps hold the same connections, and what is
-- acknowledged to a source is what was received from it.
use pcap2socks.Base.{
  ℕ, ◌≡◌, refl, subst, true, false, Bool-cases, Option-cases, inl, inr, Option, none, some, Run,
  Result, pair_key, insert, All, All-bind,
}
use pcap2socks.Net.{addr_key}
use pcap2socks.Tcp.Tx.{TcpTxState}
use pcap2socks.Tcp.Rx.{TcpRxState}
use pcap2socks.Socks.Stream.{StreamWorker}
use pcap2socks.Forwarder.State
use pcap2socks.Forwarder.State.{Forwarder, Connection}
use pcap2socks.Forwarder.Streams.Table.{ack_of, SameAcks, KeepsAcks, set_state-SameAcks}
use pcap2socks.Redirector.Tcp.{Redirector, Tcp, Handled, key, clean_up, on_tx}

abbrev pub recv_of : Option TcpRxState → Option ℕ
recv_of none = none
recv_of (some s) = some s.recv_next

-- A stream stands with a state for each direction, and the acknowledgement of the one is the
-- receive next of the other. Without a stream, there is no state from the source.
abbrev pub Linked : Option StreamWorker → Option ℕ → Option ℕ → Type 0
Linked none none a = Unit {0}
Linked none (some n) a = ⊥
Linked (some w) none a = ⊥
Linked (some w) (some n) none = ⊥
Linked (some w) (some n) (some a) = a ≡ n

abbrev pub LinkedAt : Redirector → Connection → Type 0
LinkedAt r k = Linked (r.streams k) (recv_of (r.states k)) (ack_of (r.tx.states k))

abbrev pub IsLinked : Redirector → Type 0
IsLinked r = (k : Connection) → LinkedAt r k

pub same_self : (k : Connection) → pair_key.same k k ≡ true
same_self k = (pair_key.same_iff k k).1 refl

IsLinked-from :
    (r : Redirector) (at : Connection)
    → LinkedAt r at
    → ((k : Connection) → pair_key.same at k ≡ false → LinkedAt r k)
    → IsLinked r
IsLinked-from r at here elsewhere k = elim (Bool-cases (pair_key.same at k)) [
  | inl e ↦ subst (LinkedAt r) ((pair_key.same_iff at k).0 e) here
  | inr e ↦ elsewhere k e
]

-- What a stream stands with.
pub record Connected (r : Redirector) (k : Connection) : Type 0 where
  pub state : TcpRxState
  pub tx_state : TcpTxState
  pub has_state : r.states k ≡ some state
  pub has_tx_state : r.tx.states k ≡ some tx_state
  pub acked : tx_state.acknowledgement ≡ state.recv_next

pub IsLinked-Connected :
    (r : Redirector) (k : Connection) (w : StreamWorker)
    → IsLinked r
    → r.streams k ≡ some w
    → Connected r k
IsLinked-Connected r k w linked e = elim (Option-cases (r.states k)) [
  | inl missing ↦ absurd (rw (e, missing) at (linked k))
  | inr (state, here) ↦ elim (Option-cases (r.tx.states k)) [
    | inl missing ↦ absurd (rw (e, here, missing) at (linked k))
    | inr (s, there) ↦ record {
      state = state;
      tx_state = s;
      has_state = here;
      has_tx_state = there;
      acked = rw (e, here, there) at (linked k);
    }
  ]
]

-- The same streams, receive nexts and acknowledgements.
pub record Alike (r r' : Redirector) : Type 0 where
  pub streams : (k : Connection) → r'.streams k ≡ r.streams k
  pub states : (k : Connection) → r'.states k ≡ r.states k
  pub acks : SameAcks r.tx r'.tx

pub Alike-IsLinked : (r r' : Redirector) → Alike r r' → IsLinked r → IsLinked r'
Alike-IsLinked r r' a linked k = rw (a.streams k, a.states k, a.acks k) (linked k)

abbrev pub AlikeAfter : Redirector → Handled → Type 0
AlikeAfter r run = All (λ (r', result). Alike r r') run

pub on_tx-Alike :
    (r : Redirector) (call : Run (Forwarder × Result (Unit {0})))
    → KeepsAcks r.tx call
    → AlikeAfter r (on_tx r call)
unfolding on_tx
on_tx-Alike r call keeps =
    All-bind (λ (f', result). SameAcks r.tx f') (λ (r', result). Alike r r') call _ keeps
      (λ (f', result) acks. record { streams = λ k. refl; states = λ k. refl; acks = acks })

module _ (r : Redirector) (tcp : Tcp) (linked : IsLinked r) where
  pub put_tx_state-IsLinked :
      (s s' : TcpTxState)
      → r.tx.states (key tcp) ≡ some s
      → s'.acknowledgement ≡ s.acknowledgement
      → IsLinked (record r { tx = State.set_state r.tx tcp.dst tcp.src s' })
  put_tx_state-IsLinked s s' here same =
      let r' : Redirector = record r { tx = State.set_state r.tx tcp.dst tcp.src s' } in
      Alike-IsLinked r r'
        (record {
          streams = λ k. refl;
          states = λ k. refl;
          acks = set_state-SameAcks r.tx tcp.dst tcp.src s s' here same;
        })
        linked

  pub put_state-IsLinked :
      (state state' : TcpRxState)
      → r.states (key tcp) ≡ some state
      → state'.recv_next ≡ state.recv_next
      → IsLinked (record r { states = insert (key tcp) state' r.states })
  put_state-IsLinked state state' here same =
      IsLinked-from (record r { states = insert (key tcp) state' r.states }) (key tcp)
        (rw (same_self (key tcp), same) (rw here at (linked (key tcp)))) (λ k e. rw e (linked k))

  -- Both directions at once, with a stream.
  pub put_both-IsLinked :
      (w : StreamWorker) (state' : TcpRxState) (s' : TcpTxState)
      → r.streams (key tcp) ≡ some w
      → s'.acknowledgement ≡ state'.recv_next
      → IsLinked (record r {
        states = insert (key tcp) state' r.states;
        tx = State.set_state r.tx tcp.dst tcp.src s';
      })
  unfolding State.set_state
  put_both-IsLinked w state' s' here same =
      IsLinked-from
        (record r {
          states = insert (key tcp) state' r.states;
          tx = State.set_state r.tx tcp.dst tcp.src s';
        })
        (key tcp) (rw (here, same_self (key tcp)) same) (λ k e. rw e (linked k))

  pub put_stream-IsLinked :
      (w w' : StreamWorker)
      → r.streams (key tcp) ≡ some w
      → IsLinked (record r { streams = insert (key tcp) w' r.streams })
  put_stream-IsLinked w w' here =
      let c = IsLinked-Connected r (key tcp) w linked here in
      IsLinked-from (record r { streams = insert (key tcp) w' r.streams }) (key tcp)
        (rw (same_self (key tcp), c.has_state, c.has_tx_state) c.acked) (λ k e. rw e (linked k))

  pub clean_up-IsLinked : IsLinked (clean_up r tcp.src tcp.dst)
  unfolding clean_up State.clean_up
  clean_up-IsLinked =
      IsLinked-from (clean_up r tcp.src tcp.dst) (key tcp) (rw (same_self (key tcp)) tt)
        (λ k e. rw e (linked k))

  no_state : r.streams (key tcp) ≡ none → r.states (key tcp) ≡ none
  no_state absent = elim (Option-cases (r.states (key tcp))) [
    | inl missing ↦ missing
    | inr (state, here) ↦ absurd (rw (absent, here) at (linked (key tcp)))
  ]

  -- A connection without a stream may have any state towards its source.
  pub prepare-IsLinked :
      (s' : TcpTxState)
      → r.streams (key tcp) ≡ none
      → IsLinked (record r { tx = State.set_state r.tx tcp.dst tcp.src s' })
  unfolding State.set_state
  prepare-IsLinked s' absent =
      IsLinked-from (record r { tx = State.set_state r.tx tcp.dst tcp.src s' }) (key tcp)
        (rw (absent, no_state absent) tt) (λ k e. rw e (linked k))

  -- A new connection.
  pub establish-IsLinked :
      (w : StreamWorker) (state : TcpRxState) (s : TcpTxState)
      → r.tx.states (key tcp) ≡ some s
      → s.acknowledgement ≡ state.recv_next
      → IsLinked (record r {
        states = insert (key tcp) state r.states;
        streams = insert (key tcp) w r.streams;
      })
  establish-IsLinked w state s here same =
      IsLinked-from
        (record r {
          states = insert (key tcp) state r.states;
          streams = insert (key tcp) w r.streams;
        })
        (key tcp) (rw (here, same_self (key tcp)) same) (λ k e. rw e (linked k))
