-- ===== src/Redirector/Tcp/Deliver.antt =====
-- Data in order, from a packet of the source to the acknowledgement of it, through `handle_tcp`.
mod Steps
pub mod Taken
pub mod Rest
use pcap2socks.Base.{
  ◌++◌, none, ℕ, ◌≡◌, ◌-◌, ◌≤◌, ◌<◌, [], refl, ◌∙◌, true, false, some, List, length, done, Result,
  ok, pair_key, arith, lt→ltb, ◌^◌, ◌*◌, u16_max, u32_max,
}
use pcap2socks.Net.{addr_key}
use pcap2socks.Sequence.{max_window_size}
use pcap2socks.Cache.Window.Laws.{IsValid}
use pcap2socks.Tcp.Tx.{TcpTxState}
use pcap2socks.Tcp.Tx.Valid
use pcap2socks.Tcp.Tx.Acknowledge.{left_by}
use pcap2socks.Tcp.Rx.{TcpRxState}
use pcap2socks.Socks.Stream
use pcap2socks.Socks.Stream.{StreamWorker}
use pcap2socks.Forwarder.Segments.{mtu_of}
use pcap2socks.Forwarder.State.{sent}
use pcap2socks.Redirector.Tcp.{Redirector, Tcp, key}
use pcap2socks.Redirector.Tcp.Ack
use pcap2socks.Redirector.Tcp.Ack.{Exit}
use pcap2socks.Redirector.Tcp.Handle.{Surroundings, handle_tcp}
use pcap2socks.Redirector.Tcp.Deliver.Taken.{
  IsTaken, take_data_in_order, take_ack_run, IsTaken-before,
}
use pcap2socks.Redirector.Tcp.Deliver.Rest.{IsAnswered, finish_run}

-- A packet of an established connection with no flag but ACK.
module _ (r : Redirector) (tcp : Tcp) (state : TcpRxState) (stream : StreamWorker)
    (payload : List ℕ) (s : TcpTxState) (e : Surroundings)
    (has_stream : r.streams (key tcp) ≡ some stream) (has_state : r.states (key tcp) ≡ some state)
    (has_tx_state : r.tx.states (key tcp) ≡ some s) where
  -- The parts of the handler, one after the other.
  handle_tcp-parts :
      (is_ack : tcp.is_ack ≡ true) (is_rst : tcp.is_rst ≡ false) (taken r' : Redirector)
      (exit : Exit)
      → 0 < length payload
      → Ack.take_ack r tcp state e.now ≡ done taken
      → Ack.take_data taken tcp state stream payload e.written ≡ done (r', exit)
      → handle_tcp r tcp payload e ≡ Ack.finish r' tcp payload e.now exit
  unfolding handle_tcp Ack.handle_tcp_ack Ack.serve_ack
  handle_tcp-parts is_ack is_rst taken r' exit some_data of_ack of_data =
      rw
        (
          handle_tcp,
          is_ack,
          is_rst,
          Ack.handle_tcp_ack,
          has_stream,
          Ack.serve_ack,
          has_state,
          of_ack,
          lt→ltb 0 (length payload) some_data,
          of_data,
        )
        refl

  -- The handler, up to what it has left to send.
  handle_tcp_taken :
      (is_ack : tcp.is_ack ≡ true) (is_rst : tcp.is_rst ≡ false)
      → Stream.send stream e.written ≡ ok tt
      → s.acknowledgement ≡ state.recv_next
      → Valid.IsValid s
      → tcp.acknowledgement ≤ u32_max
      → tcp.window ≤ u16_max
      → state.wscale ≤ 14
      → tcp.window * 2 ^ state.wscale ≤ s.cache.capacity
      → length s.queue ≤ u32_max
      → IsValid state.cache
      → state.cache.size ≡ 0
      → state.cache.edges ≡ []
      → tcp.sequence ≡ state.cache.sequence
      → 0 < length payload
      → length payload ≤ state.cache.capacity
      → length payload ≤ max_window_size
      → (r' : Redirector) × (exit : Exit) × (handle_tcp r tcp payload e
          ≡ Ack.finish r' tcp payload e.now exit)
        × IsTaken r tcp state
            (left_by s.cache tcp.acknowledgement ++ s.queue)
            (length payload)
            r'
            exit
  handle_tcp_taken is_ack is_rst accepted acked v in_range window scale room few w empty none_stored
        next some_data fits small =
      let (taken, s', of_ack, states, there, same, left, can, mtus, frames) =
        take_ack_run r tcp state s e.now has_tx_state v in_range window scale room few in
      let (r', exit, of_data, t) =
        take_data_in_order taken tcp state stream payload s' e.written accepted there (same ∙ acked)
          (omega arith) w empty none_stored next some_data fits small can in
      (
        r',
        exit,
        handle_tcp-parts is_ack is_rst taken r' exit some_data of_ack of_data,
        IsTaken-before t left frames mtus,
      )

  -- For an ACK that is no RST, on a connection that stands, with data at the window's sequence
  -- that fits, nothing stored, a proxy that takes the bytes, and no FIN that comes or waits; with
  -- valid states that agree on what is acknowledged, a scale of at most 14, a cache whose
  -- capacity is not below the window of the packet, a queue of less than 4 GiB, a local MTU of 40
  -- at least and one towards the source that exceeds 40, the headers: the handler returns,
  -- whatever the results of the sends. The payload is counted once on either side, nothing of it
  -- is stored any more, and one ACK is sent for it. What the packet acknowledges is no longer in
  -- flight, and the bytes behind it, in flight or queued, are all kept in their order by what is
  -- sent then, if the ACK was.
  pub handle_tcp_in_order :
      (is_ack : tcp.is_ack ≡ true) (is_rst : tcp.is_rst ≡ false) (no_fin : tcp.is_fin ≡ false)
      → state.fin_sequence ≡ none
      → Stream.send stream e.written ≡ ok tt
      → s.acknowledgement ≡ state.recv_next
      → Valid.IsValid s
      → tcp.acknowledgement ≤ u32_max
      → tcp.window ≤ u16_max
      → state.wscale ≤ 14
      → tcp.window * 2 ^ state.wscale ≤ s.cache.capacity
      → length s.queue ≤ u32_max
      → IsValid state.cache
      → state.cache.size ≡ 0
      → state.cache.edges ≡ []
      → tcp.sequence ≡ state.cache.sequence
      → 0 < length payload
      → length payload ≤ state.cache.capacity
      → length payload ≤ max_window_size
      → 40 ≤ r.tx.local_mtu
      → 40 < mtu_of r.tx.local_mtu (r.tx.src_mtu tcp.src.ip)
      → (r'' : Redirector) × (result : Result (Unit {0})) × (handle_tcp r tcp payload e
          ≡ done (r'', result))
        × IsAnswered r tcp state
            (left_by s.cache tcp.acknowledgement ++ s.queue)
            (length payload)
            r''
  handle_tcp_in_order is_ack is_rst no_fin none_waits accepted acked v in_range window scale room
        few w empty none_stored next some_data fits small local src =
      let (r', exit, begun, t) =
        handle_tcp_taken is_ack is_rst accepted acked v in_range window scale room few w empty
          none_stored next some_data fits small in
      let (r'', result, ended, answered) =
        finish_run r r' tcp payload e.now state (left_by s.cache tcp.acknowledgement ++ s.queue)
          (length payload) exit t no_fin none_waits local src in
      (r'', result, begun ∙ ended, answered)
