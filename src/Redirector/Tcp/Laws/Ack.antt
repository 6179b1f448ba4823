-- ===== src/Redirector/Tcp/Laws/Ack.antt =====
-- `handle_tcp_ack` keeps the connections linked.
use pcap2socks.Base.{
  ℕ, ◌≡◌, refl, ◌∙◌, ltb, ◌==◌, ◌&&◌, ◌||◌, not, List, [], ◌∷◌, length, Bool-cases, Option-cases,
  Result-cases, inl, inr, none, some, unwrap, Result, pair_key, insert, All, All-bind, All-any,
}
use pcap2socks.Net.{addr_key}
use pcap2socks.Timer.{Instant}
use pcap2socks.Cache.Window
use pcap2socks.Tcp.Tx.{is_some}
use pcap2socks.Tcp.Rx
use pcap2socks.Tcp.Rx.{TcpRxState}
use pcap2socks.Socks.Stream.{StreamWorker}
use pcap2socks.Forwarder.Streams
use pcap2socks.Forwarder.Streams.Table.{
  send_tcp_ack-KeepsAcks, retransmit_tcp_ack-KeepsAcks, retransmit_tcp_ack_without-KeepsAcks,
}
use pcap2socks.Redirector.Tcp.{Redirector, Tcp, key}
use pcap2socks.Redirector.Tcp.Linked.{
  IsLinked, IsLinked-Connected, Alike, AlikeAfter, Alike-IsLinked, on_tx-Alike, put_state-IsLinked,
  clean_up-IsLinked,
}
use pcap2socks.Redirector.Tcp.Ack
use pcap2socks.Redirector.Tcp.Ack.{Part, Exit, tried, returned}
use pcap2socks.Redirector.Tcp.Laws.At.{
  PartLinked, At, put_state-At, take_ack-At, answer-Linked, report_sacks-At, deliver-Linked,
}
use pcap2socks.Redirector.Tcp.Laws.{
  LinkedAfter, after_tx, handle_tcp_fin-IsLinked, send_rst-IsLinked,
}

append_cache_recv :
    (state : TcpRxState) (sequence : ℕ) (payload : List ℕ)
    → All
        (λ (state', result). state'.recv_next ≡ state.recv_next)
        (Rx.append_cache state sequence payload)
unfolding Rx.append_cache
append_cache_recv state sequence payload =
    All-bind (λ x. Unit {0}) (λ (state', result). state'.recv_next ≡ state.recv_next)
      (Window.append state.cache sequence payload) _
      (All-any (Window.append state.cache sequence payload)) (λ x _. refl)

increase_duplicate_recv :
    (state : TcpRxState) (acknowledgement : ℕ) (now : Instant)
    → (Rx.increase_duplicate state acknowledgement now).0.recv_next ≡ state.recv_next
unfolding Rx.increase_duplicate Rx.clear_duplicate
increase_duplicate_recv state acknowledgement now =
    elim (Bool-cases (state.last_acknowledgement == acknowledgement)) [
      | inl e ↦ rw e refl
      | inr e ↦ rw e refl
    ]

module _ {r : Redirector} {tcp : Tcp} {w : StreamWorker} {state : TcpRxState}
    (a : At r tcp w state) where
  take_data-Linked :
      (payload : List ℕ) (written : Result (Unit {0}))
      → PartLinked (Ack.take_data r tcp state w payload written)
  unfolding Ack.take_data
  take_data-Linked payload written =
      All-bind (λ (state', result). state'.recv_next ≡ state.recv_next) (λ (r', exit). IsLinked r')
        (Rx.append_cache state tcp.sequence payload) _
        (append_cache_recv state tcp.sequence payload)
        (λ (state', result) same.
          let stored = put_state-At a state' same in
          let r1 : Redirector = record r { states = insert (key tcp) state' r.states } in
          elim (Result-cases result) [
            | inr (e, refused) ↦ rw refused stored.linked
            | inl (cont, taken) ↦ rw taken (
                All-bind (λ r'. At r' tcp w state') (λ (r', exit). IsLinked r')
                  (Ack.report_sacks r1 tcp state') _ (report_sacks-At stored)
                  (λ r' b. elim (Option-cases cont) [
                    | inl nothing ↦ rw nothing (answer-Linked b)
                    | inr (bytes, some_bytes) ↦ rw some_bytes (deliver-Linked b bytes written)
                  ]))
          ])

  resend-Alike : (sacks : List (ℕ × ℕ)) → AlikeAfter r (Ack.resend r tcp sacks)
  unfolding Ack.resend
  resend-Alike [] =
      on_tx-Alike r (Streams.retransmit_tcp_ack r.tx tcp.dst tcp.src)
        (retransmit_tcp_ack-KeepsAcks r.tx tcp.dst tcp.src)
  resend-Alike (sack ∷ sacks) =
      on_tx-Alike r (Streams.retransmit_tcp_ack_without r.tx tcp.dst tcp.src (sack ∷ sacks))
        (retransmit_tcp_ack_without-KeepsAcks r.tx tcp.dst tcp.src (sack ∷ sacks))

  retransmit-Linked : (now : Instant) → PartLinked (Ack.retransmit r tcp state now)
  unfolding Ack.retransmit Rx.set_last_retrans Rx.clear_duplicate
  retransmit-Linked now =
      All-bind (λ (r', result). Alike r r') (λ (r', exit). IsLinked r')
        (Ack.resend r tcp (Ack.selected state tcp.sack)) _
        (resend-Alike (Ack.selected state tcp.sack))
        (λ (r', result) alike.
          let linked' = Alike-IsLinked r r' alike a.linked in
          elim (Result-cases result) [
            | inr (e, failed) ↦ rw failed linked'
            | inl (_, sent_ok) ↦ rw sent_ok (
                put_state-IsLinked r' tcp linked' state
                  (Rx.set_last_retrans (Rx.clear_duplicate state) now)
                  (alike.states (key tcp) ∙ a.has_state) refl)
          ])

module _ {r : Redirector} {tcp : Tcp} {w : StreamWorker} {state : TcpRxState}
    (a : At r tcp w state) where
  take_ack_0-Linked : (now : Instant) → PartLinked (Ack.take_ack_0 r tcp state w now)
  unfolding Ack.take_ack_0
  take_ack_0-Linked now =
      All-bind (λ x. Unit {0}) (λ (r', exit). IsLinked r') (Ack.is_last_ack r tcp w) _
        (All-any (Ack.is_last_ack r tcp w))
        (λ is_last _. elim (Bool-cases is_last) [
          | inl last ↦ rw last (clean_up-IsLinked r tcp a.linked)
          | inr going_on ↦
              let state' = (Rx.increase_duplicate state tcp.acknowledgement now).0 in
              let is_retrans = (Rx.increase_duplicate state tcp.acknowledgement now).1 in
              let b =
                put_state-At a state' (increase_duplicate_recv state tcp.acknowledgement now) in
              elim (Bool-cases (is_retrans && not (tcp.window == 0))) [
                | inl again ↦ rw (going_on, again) (retransmit-Linked b now)
                | inr new ↦ rw (going_on, new) b.linked
              ]
        ])

send_rest-Linked :
    (r : Redirector) (tcp : Tcp) (payload : List ℕ) (now : Instant)
    → IsLinked r
    → LinkedAfter (Ack.send_rest r tcp payload now)
unfolding Ack.send_rest
send_rest-Linked r tcp payload now linked =
    after_tx r (Streams.send_tcp_ack r.tx tcp.dst tcp.src now) _ linked
      (send_tcp_ack-KeepsAcks r.tx tcp.dst tcp.src now)
      (λ r' result alike linked'. elim (Result-cases result) [
        | inr (e, failed) ↦ rw failed linked'
        | inl (_, sent_ok) ↦ rw sent_ok (
            All-bind (λ x. Unit {0}) (λ (r'', result). IsLinked r'') (unwrap (r'.states (key tcp)))
              _ (All-any (unwrap (r'.states (key tcp))))
              (λ state _. elim (Bool-cases (tcp.is_fin || is_some state.fin_sequence)) [
                | inl fin ↦ rw fin (handle_tcp_fin-IsLinked r' tcp payload linked')
                | inr more ↦ rw more linked'
              ]))
      ])

-- What is left to do after a part that ended.
rest-Linked :
    (r : Redirector) (tcp : Tcp) (payload : List ℕ) (now : Instant) (exit : Exit)
    → IsLinked r
    → LinkedAfter (Ack.finish r tcp payload now exit)
unfolding Ack.finish
rest-Linked r tcp payload now (some result) linked = linked
rest-Linked r tcp payload now none linked = send_rest-Linked r tcp payload now linked

serve_ack-IsLinked :
    (r : Redirector) (tcp : Tcp) (payload : List ℕ) (w : StreamWorker) (written : Result (Unit {0}))
    (now : Instant)
    → IsLinked r
    → r.streams (key tcp) ≡ some w
    → LinkedAfter (Ack.serve_ack r tcp payload w written now)
unfolding Ack.serve_ack
serve_ack-IsLinked r tcp payload w written now linked here =
    let c = IsLinked-Connected r (key tcp) w linked here in
    let a : At r tcp w c.state = record {
      linked = linked;
      has_stream = here;
      has_state = c.has_state;
      tx_state = c.tx_state;
      has_tx_state = c.has_tx_state;
      acked = c.acked;
    } in
    rw c.has_state (
      All-bind (λ r'. At r' tcp w c.state) (λ (r', result). IsLinked r')
        (Ack.take_ack r tcp c.state now) _ (take_ack-At a now)
        (λ taken b. elim (Bool-cases (ltb 0 (length payload))) [
          | inl some_data ↦ rw some_data (
              All-bind (λ (r', exit). IsLinked r') (λ (r', result). IsLinked r')
                (Ack.take_data taken tcp c.state w payload written) _
                (take_data-Linked b payload written)
                (λ (r', exit) linked'. rest-Linked r' tcp payload now exit linked'))
          | inr no_data ↦ rw no_data (
              All-bind (λ (r', exit). IsLinked r') (λ (r', result). IsLinked r')
                (Ack.take_ack_0 taken tcp c.state w now) _ (take_ack_0-Linked b now)
                (λ (r', exit) linked'. rest-Linked r' tcp payload now exit linked'))
        ]))

pub handle_tcp_ack-IsLinked :
    (r : Redirector) (tcp : Tcp) (payload : List ℕ) (written : Result (Unit {0})) (now : Instant)
    → IsLinked r
    → LinkedAfter (Ack.handle_tcp_ack r tcp payload written now)
unfolding Ack.handle_tcp_ack
handle_tcp_ack-IsLinked r tcp payload written now linked =
    elim (Option-cases (r.streams (key tcp))) [
      | inl absent ↦ rw (absent, Ack.handle_tcp_ack) (send_rst-IsLinked r tcp linked)
      | inr (w, here) ↦
          rw (here, Ack.handle_tcp_ack) (serve_ack-IsLinked r tcp payload w written now linked here)
    ]
