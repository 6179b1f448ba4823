-- ===== src/Redirector/Tcp/Deliver/Steps.antt =====
-- The steps of `handle_tcp_ack` that count data and acknowledge it.
use pcap2socks.Base.{
  ℕ, ◌≡◌, ◌-◌, ◌≤◌, ◌<◌, ◌∷◌, [], refl, ap, ◌∙◌, false, Bool-cases, inl, inr, some, List, length,
  done, Result, ok, as_u32, as_u16, insert, pair_key, sub-eq-done, leb, arith, ◌/◌, ◌^◌, u32_max,
}
use pcap2socks.Net.{addr_key}
use pcap2socks.Sequence.{seq_add}
use pcap2socks.Cache.Window
use pcap2socks.Tcp.Tx
use pcap2socks.Tcp.Tx.{TcpTxState}
use pcap2socks.Tcp.Tx.Fields.{set_sacks_ack}
use pcap2socks.Tcp.Tx.Valid
use pcap2socks.Tcp.Tx.Stream.{stream}
use pcap2socks.Tcp.Rx
use pcap2socks.Tcp.Rx.{TcpRxState}
use pcap2socks.Socks.Stream
use pcap2socks.Socks.Stream.{StreamWorker}
use pcap2socks.Forwarder.Packet
use pcap2socks.Forwarder.State
use pcap2socks.Forwarder.State.{send_packets, sent}
use pcap2socks.Forwarder.Streams
use pcap2socks.Forwarder.Streams.{on_state, send_one}
use pcap2socks.Forwarder.Streams.Mtus.{SameMtus, send_packets-SameMtus}
use pcap2socks.Forwarder.Streams.Table.{states-send_packets}
use pcap2socks.Redirector.Tcp.{Redirector, Tcp, key, on_tx}
use pcap2socks.Redirector.Tcp.Linked.{same_self}
use pcap2socks.Redirector.Tcp.Ack
use pcap2socks.Redirector.Tcp.Ack.{Exit, question, tried}
use pcap2socks.Redirector.Tcp.Laws.{on_tx_state_at}

-- What sending needs of a connection.
pub record CanSend (s : TcpTxState) : Type 0 where
  pub valid : Valid.IsValid s
  pub window_in : s.send_window ≤ s.cache.capacity
  pub queue_in : length s.queue ≤ u32_max

set_sacks_stream :
    (s : TcpTxState) (sacks : List (ℕ × ℕ)) → stream (Tx.set_sacks s sacks) ≡ stream s
unfolding Tx.set_sacks
set_sacks_stream s [] = refl
set_sacks_stream s (sack ∷ sacks) = refl

set_sacks-CanSend :
    (s : TcpTxState) (sacks : List (ℕ × ℕ)) → CanSend s → CanSend (Tx.set_sacks s sacks)
unfolding Tx.set_sacks
set_sacks-CanSend s [] can = record {
  valid = Valid.set_sacks-IsValid can.valid [];
  window_in = can.window_in;
  queue_in = can.queue_in;
}
set_sacks-CanSend s (sack ∷ sacks) can = record {
  valid = Valid.set_sacks-IsValid can.valid (sack ∷ sacks);
  window_in = can.window_in;
  queue_in = can.queue_in;
}

count-CanSend :
    (s : TcpTxState) (window n : ℕ)
    → CanSend s
    → n ≤ u32_max
    → CanSend (Tx.add_acknowledgement (Tx.set_window s window) n)
unfolding Tx.add_acknowledgement Tx.set_window
count-CanSend s window n can small =
    let v = can.valid in
    let w : Valid.IsValid (Tx.set_window s window) = ground arith in
    record {
      valid = Valid.add_acknowledgement-IsValid w n small;
      window_in = can.window_in;
      queue_in = can.queue_in;
    }

module _ (r : Redirector) (tcp : Tcp) where
  -- One ACK, for a state that is there.
  ack_0_run :
      (s : TcpTxState)
      → r.tx.states (key tcp) ≡ some s
      → (before : State.Forwarder) × (before.frames ≡ r.tx.frames)
        × SameMtus r.tx before
        × (before.states (key tcp) ≡ some s)
        × (tried (on_tx r (Streams.send_tcp_ack_0 r.tx tcp.dst tcp.src))
            ≡ done (
              record r {
                tx =
                    send_packets before tcp.dst tcp.src
                      (Packet.send_tcp_ack_0 before.local_mtu s ∷ []);
              },
              question (sent before 0),
            ))
  unfolding on_tx Streams.send_tcp_ack_0 on_state send_one State.set_state
  ack_0_run s here = (
    State.set_state r.tx tcp.dst tcp.src s,
    refl,
    (refl, refl),
    rw (same_self (key tcp)) refl,
    rw here refl,
  )

  pub report_run :
      (state : TcpRxState) (s : TcpTxState)
      → r.tx.states (key tcp) ≡ some s
      → CanSend s
      → (r' : Redirector) × (s' : TcpTxState) × (Ack.report_sacks r tcp state ≡ done r')
        × (r'.states ≡ r.states)
        × (r'.tx.states (key tcp) ≡ some s')
        × (s'.acknowledgement ≡ s.acknowledgement)
        × (stream s' ≡ stream s)
        × CanSend s'
        × SameMtus r.tx r'.tx
        × (r'.tx.frames ≡ r.tx.frames)
  unfolding Ack.report_sacks State.set_state
  report_run state s here can = elim (Bool-cases state.sack_perm) [
    | inl permitted ↦ (
      record r {
        tx = State.set_state r.tx tcp.dst tcp.src (Tx.set_sacks s (Window.filled state.cache));
      },
      Tx.set_sacks s (Window.filled state.cache),
      rw permitted (on_tx_state_at r tcp (λ s. Tx.set_sacks s (Window.filled state.cache)) s here),
      refl,
      rw (same_self (key tcp)) refl,
      set_sacks_ack s (Window.filled state.cache),
      set_sacks_stream s (Window.filled state.cache),
      set_sacks-CanSend s (Window.filled state.cache) can,
      (refl, refl),
      refl,
    )
    | inr not_permitted ↦
        (r, s, rw not_permitted refl, refl, here, refl, refl, can, (refl, refl), refl)
  ]

  room_run :
      (state : TcpRxState)
      → state.cache.size ≤ state.cache.capacity
      → state.wscale < 64
      → (window : ℕ) × (Ack.room state ≡ done window)
  unfolding Ack.room Ack.shift_right Window.remaining
  room_run state fits scale =
      let left = state.cache.capacity - state.cache.size in
      let small : leb 64 state.wscale ≡ false = ground arith in
      (
        as_u16 (left / 2 ^ state.wscale),
        rw (sub-eq-done state.cache.capacity state.cache.size fits, small) refl,
      )

-- Where the proxy takes the bytes, they are counted on either side and acknowledged.
pub deliver_run :
    (r : Redirector) (tcp : Tcp) (state : TcpRxState) (worker : StreamWorker) (bytes : List ℕ)
    (s : TcpTxState) (written : Result (Unit {0})) (n : ℕ)
    → Stream.send worker written ≡ ok tt
    → r.tx.states (key tcp) ≡ some s
    → s.acknowledgement ≡ state.recv_next
    → state.cache.size ≤ state.cache.capacity
    → state.wscale < 64
    → as_u32 (length bytes) ≡ n
    → n ≤ u32_max
    → CanSend s
    → (r' : Redirector) × (exit : Exit) × (Ack.deliver r tcp state worker bytes written
        ≡ done (r', exit))
      × (r'.states (key tcp) ≡ some (Rx.add_recv_next state n))
      × (before : State.Forwarder) × (before.frames ≡ r.tx.frames)
      × (s' : TcpTxState) × (r'.tx.states (key tcp) ≡ some s')
      × (s'.acknowledgement ≡ seq_add state.recv_next n)
      × (stream s' ≡ stream s)
      × CanSend s'
      × SameMtus r.tx r'.tx
      × (r'.tx
          ≡ send_packets before tcp.dst tcp.src (Packet.send_tcp_ack_0 before.local_mtu s' ∷ []))
      × (exit ≡ question (sent before 0))
unfolding Ack.deliver State.set_state Tx.add_acknowledgement Tx.set_window
deliver_run r tcp state worker bytes s written n accepted here acked fits scale cast small can =
    let (window, of_room) = room_run r tcp state fits scale in
    let state' = Rx.add_recv_next state n in
    let s' = Tx.add_acknowledgement (Tx.set_window s window) n in
    let stored : Redirector = record r { states = insert (key tcp) state' r.states } in
    let counted : Redirector = record stored { tx = State.set_state r.tx tcp.dst tcp.src s' } in
    let put =
      on_tx_state_at stored tcp (λ s. Tx.add_acknowledgement (Tx.set_window s window) n) s here in
    let (before, frames, (local, src), there, acknowledged) =
      ack_0_run counted tcp s' (rw (same_self (key tcp)) refl) in
    let packets = Packet.send_tcp_ack_0 before.local_mtu s' ∷ [] in
    let (local', src') = send_packets-SameMtus before tcp.dst tcp.src packets in
    (
      record counted { tx = send_packets before tcp.dst tcp.src packets },
      question (sent before 0),
      rw (Ack.deliver, accepted, of_room, cast, put) acknowledged,
      rw (same_self (key tcp)) refl,
      before,
      frames,
      s',
      rw (states-send_packets before tcp.dst tcp.src packets) there,
      ap (λ m. seq_add m n) acked,
      refl,
      count-CanSend s window n can small,
      (local' ∙ local, src' ∙ src),
      refl,
      refl,
    )
