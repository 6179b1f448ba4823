-- ===== src/Forwarder/Segments.antt =====
-- `send_tcp_ack_raw` of src/lib.rs: bytes in segments of at most the MSS. The results of
-- `send_ipv4_with_transport` are an argument.
pub mod Moved
pub mod Laws
pub mod Total
pub mod Stall
mod Tests
use pcap2socks.Base.{
  ℕ, zero, suc, ◌+◌, ◌-◌, ◌*◌, ◌/◌, ltb, leb, if◌then◌else◌, min, Bool, ◌&&◌, Option, none, some,
  List, [], ◌∷◌, length, Run, done, out_of_fuel, ◌>>=◌, sub, slice, Result, ok, err, as_u32, Map,
  insert,
}
use pcap2socks.Net.{Ipv4Addr}
use pcap2socks.Sequence.{seq_add, seq_sub, max_window_size}
use pcap2socks.Tcp.Tx.{TcpTxState, recv_window, add_sequence}
use pcap2socks.Tcp.Rx.{next_u32}

-- `Ipv4::minimum_len` and `Tcp::minimum_len`
abbrev pub ipv4_minimum_len : ℕ
ipv4_minimum_len = 20

abbrev pub tcp_minimum_len : ℕ
tcp_minimum_len = 20

-- What `Tcp::new_ack` and `Tcp::new_ack_fin` are made with, and the payload.
pub record Segment : Type 0 where
  pub sequence : ℕ
  pub acknowledgement : ℕ
  pub window : ℕ
  pub fin : Bool
  pub payload : List ℕ

-- `get_tcp_window`; `ENABLE_RECV_SWS_AVOID` is `true`.
unfoldable pub get_tcp_window : ℕ → TcpTxState → ℕ
get_tcp_window local_mtu s = if ltb s.window (min (recv_window / 2) local_mtu) then 0 else s.window

-- One segment, and the receive next behind it. The length that the FIN is decided by is that of
-- the segment, whose name hides the whole payload's.
unfoldable pub segment : ℕ → ℕ → TcpTxState → ℕ → ℕ → List ℕ → Bool → Run (Segment × ℕ)
unfolding get_tcp_window
segment local_mtu mss s i sequence payload is_fin = do
  part ← slice payload (i * mss) (i * mss + min mss (length payload - i * mss))
  let first = seq_add sequence (as_u32 (i * mss))
  let recv_next = seq_add first (as_u32 (min mss (length payload - i * mss)))
  let fin = is_fin && leb (length part) (mss * (i + 1))
  done (
    record {
      sequence = first;
      acknowledgement = s.acknowledgement;
      window = get_tcp_window local_mtu s;
      fin = fin;
      payload = part;
    },
    if fin then next_u32 recv_next else recv_next,
  )

-- The sequence moves up to the receive next, if that lies ahead.
unfoldable pub advance : TcpTxState → ℕ → TcpTxState
unfolding add_sequence
advance s recv_next =
    if leb (seq_sub recv_next s.sequence) max_window_size
    then add_sequence s (seq_sub recv_next s.sequence)
    else s

-- The loop over the segments, with what was sent.
unfoldable pub send_segments :
    ℕ
    → ℕ
    → ℕ
    → TcpTxState
    → ℕ
    → ℕ
    → List ℕ
    → Bool
    → (ℕ → Result (Unit {0}))
    → Run (TcpTxState × List Segment × Result (Unit {0}))
unfolding segment advance
send_segments zero local_mtu mss s i sequence payload is_fin sent = out_of_fuel
send_segments (suc fuel) local_mtu mss s i sequence payload is_fin sent =
    if ltb (mss * i) (length payload)
    then (do
      (seg, recv_next) ← segment local_mtu mss s i sequence payload is_fin
      elim (sent i) [
        | err e ↦ done (s, seg ∷ [], err e)
        | ok _ ↦ (do
          (s', segs, result) ←
              send_segments fuel local_mtu mss (advance s recv_next) (i + 1) sequence payload is_fin
                sent
          done (s', seg ∷ segs, result))
      ])
    else done (s, [], ok tt)

-- The MTU is the source's, or else the local one.
unfoldable pub mtu_of : ℕ → Option ℕ → ℕ
mtu_of local_mtu none = local_mtu
mtu_of local_mtu (some mtu) = mtu

-- A round sends a byte at least, so as many rounds as there are bytes, and one, are enough.
unfoldable pub send_tcp_ack_raw :
    ℕ
    → Option ℕ
    → TcpTxState
    → ℕ
    → List ℕ
    → Bool
    → (ℕ → Result (Unit {0}))
    → Run (TcpTxState × List Segment × Result (Unit {0}))
unfolding mtu_of
send_tcp_ack_raw local_mtu src_mtu s sequence payload is_fin sent = do
  mss ← sub (mtu_of local_mtu src_mtu) (ipv4_minimum_len + tcp_minimum_len)
  send_segments (suc (length payload)) local_mtu mss s 0 sequence payload is_fin sent
