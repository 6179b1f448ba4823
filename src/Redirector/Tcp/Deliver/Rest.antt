-- ===== src/Redirector/Tcp/Deliver/Rest.antt =====
-- What `handle_tcp_ack` sends after the data.
use pcap2socks.Base.{
  Result-cases, none, Option-cases, ℕ, ◌≡◌, ◌≤◌, ◌<◌, refl, ◌∙◌, false, inl, inr, some, List, done,
  Result, pair_key,
}
use pcap2socks.Net.{addr_key}
use pcap2socks.Tcp.Tx.{TcpTxState}
use pcap2socks.Timer.{Instant}
use pcap2socks.Tcp.Rx.{TcpRxState}
use pcap2socks.Forwarder.Segments.{mtu_of}
use pcap2socks.Forwarder.Send.Total.{Kept, Kept-refl, send_tcp_ack_total}
use pcap2socks.Forwarder.State
use pcap2socks.Forwarder.State.{send_packets, sent}
use pcap2socks.Forwarder.Streams
use pcap2socks.Forwarder.Streams.{on_state}
use pcap2socks.Forwarder.Streams.Sends.{send_tcp_ack-Keeps}
use pcap2socks.Forwarder.Streams.Table.{states-send_packets}
use pcap2socks.Redirector.Tcp.{Redirector, Tcp, key, on_tx}
use pcap2socks.Redirector.Tcp.Linked.{same_self}
use pcap2socks.Redirector.Tcp.Ack
use pcap2socks.Redirector.Tcp.Ack.{Exit}
use pcap2socks.Redirector.Tcp.Reach.{All_of}
use pcap2socks.Redirector.Tcp.Deliver.Steps.{CanSend}
use pcap2socks.Redirector.Tcp.Deliver.Taken.{IsTaken}

-- The connection after the handler: after the data, what the window of the source allows was sent.
pub record IsAnswered (r : Redirector) (tcp : Tcp) (state : TcpRxState) (held : List ℕ) (n : ℕ)
    (r'' : Redirector) : Type 0 where
  pub r' : Redirector
  pub exit : Exit
  pub taken : IsTaken r tcp state held n r' exit
  pub states : r''.states ≡ r'.states
  pub tx_state : TcpTxState
  pub has_tx_state : r''.tx.states (key tcp) ≡ some tx_state
  pub acked : tx_state.acknowledgement ≡ taken.state'.recv_next
  pub kept : Kept taken.tx_state tx_state

-- What is left is sent, where no FIN came or waits.
send_rest_run :
    (r : Redirector) (tcp : Tcp) (payload : List ℕ) (now : Instant) (state : TcpRxState)
    (s : TcpTxState)
    → r.states (key tcp) ≡ some state
    → r.tx.states (key tcp) ≡ some s
    → tcp.is_fin ≡ false
    → state.fin_sequence ≡ none
    → CanSend s
    → 40 ≤ r.tx.local_mtu
    → 40 < mtu_of r.tx.local_mtu (r.tx.src_mtu tcp.src.ip)
    → (r' : Redirector) × (result : Result (Unit {0})) × (s' : TcpTxState) × (Ack.send_rest r tcp
          payload now
        ≡ done (r', result))
      × (r'.states ≡ r.states)
      × (r'.tx.states (key tcp) ≡ some s')
      × (s'.acknowledgement ≡ s.acknowledgement)
      × Kept s s'
unfolding Ack.send_rest on_tx Streams.send_tcp_ack on_state State.set_state
send_rest_run r tcp payload now state s has_state here no_fin none_waits can local src =
    let f = r.tx in
    let (s', packets, result, ended, kept) =
      send_tcp_ack_total f.local_mtu (f.src_mtu tcp.src.ip) s now (sent f) can.valid local src
        can.window_in can.queue_in in
    let same =
      All_of (λ (s', packets, result). s'.acknowledgement ≡ s.acknowledgement) _
        (s', packets, result) (send_tcp_ack-Keeps f.local_mtu (f.src_mtu tcp.src.ip) s now (sent f))
        ended in
    let put = State.set_state f tcp.dst tcp.src s' in
    let there : (send_packets put tcp.dst tcp.src packets).states (key tcp) ≡ some s' =
      rw (states-send_packets put tcp.dst tcp.src packets, same_self (key tcp)) refl in
    (
      record r { tx = send_packets put tcp.dst tcp.src packets },
      result,
      s',
      elim (Result-cases result) [
        | inl (_, sent_ok) ↦ rw (here, ended, sent_ok, has_state, no_fin, none_waits) refl
        | inr (e, failed) ↦ rw (here, ended, failed) refl
      ],
      refl,
      there,
      same,
      kept,
    )

-- The handler after the data, whether the ACK was sent or not.
pub finish_run :
    (r r' : Redirector) (tcp : Tcp) (payload : List ℕ) (now : Instant) (state : TcpRxState)
    (held : List ℕ) (n : ℕ) (exit : Exit) (t : IsTaken r tcp state held n r' exit)
    → tcp.is_fin ≡ false
    → state.fin_sequence ≡ none
    → 40 ≤ r.tx.local_mtu
    → 40 < mtu_of r.tx.local_mtu (r.tx.src_mtu tcp.src.ip)
    → (r'' : Redirector) × (result : Result (Unit {0})) × (Ack.finish r' tcp payload now exit
        ≡ done (r'', result))
      × IsAnswered r tcp state held n r''
unfolding Ack.finish
finish_run r r' tcp payload now state held n exit t no_fin none_waits local src =
    elim (Option-cases exit) [
      | inl goes_on ↦
          let (r'', result, s', ended, states, there, same, kept) =
            send_rest_run r' tcp payload now t.state' t.tx_state t.has_state t.has_tx_state no_fin
              (t.fin ∙ none_waits) t.ready (rw (t.mtus.0) local) (rw (t.mtus.0, t.mtus.1) src) in
          (
            r'',
            result,
            rw (goes_on, Ack.finish) ended,
            record {
              r' = r';
              exit = exit;
              taken = t;
              states = states;
              tx_state = s';
              has_tx_state = there;
              acked = same ∙ t.acked;
              kept = kept;
            },
          )
      | inr (result, returns) ↦ (
        r',
        result,
        rw returns refl,
        record {
          r' = r';
          exit = exit;
          taken = t;
          states = refl;
          tx_state = t.tx_state;
          has_tx_state = t.has_tx_state;
          acked = t.acked;
          kept = Kept-refl t.ready.valid;
        },
      )
    ]
