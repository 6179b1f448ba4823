-- ===== src/Forwarder/Packet.antt =====
-- The packets of `Forwarder` of src/lib.rs, by what the constructors of the layers are called with.
-- The ports and addresses are those of the connection.
use pcap2socks.Base.{ℕ, ◌+◌, min, Bool, Option, some, List, [], ◌∷◌, Run, done, ◌>>=◌, sub, u16_max}
use pcap2socks.Tcp.Tx.{TcpTxState}
use pcap2socks.Forwarder.Segments.{Segment, get_tcp_window, ipv4_minimum_len, tcp_minimum_len}
use pcap2socks.Forwarder.Fragments.{Fragment}

pub data Packet : Type 0 where
  data_segment : Segment → Packet
  ack_0 : ℕ → ℕ → ℕ → Option (List (ℕ × ℕ)) → Packet
  ack_syn : ℕ → ℕ → ℕ → Option ℕ → Option ℕ → Bool → Packet
  ack_rst : ℕ → ℕ → ℕ → Packet
  rst : ℕ → ℕ → ℕ → Packet
  pure_fin : ℕ → ℕ → ℕ → Packet
  udp_packet : List ℕ → Packet
  udp_fragment : Fragment → Packet

-- `send_tcp_ack_0`
unfoldable pub send_tcp_ack_0 : ℕ → TcpTxState → Packet
send_tcp_ack_0 local_mtu s = ack_0 s.sequence s.acknowledgement (get_tcp_window local_mtu s) s.sacks

-- `send_tcp_ack_syn`; `ENABLE_MSS` is `true`.
unfoldable pub send_tcp_ack_syn : ℕ → TcpTxState → Run Packet
send_tcp_ack_syn local_mtu s = do
  mss ← sub local_mtu (ipv4_minimum_len + tcp_minimum_len)
  done (
      ack_syn s.sequence s.acknowledgement (get_tcp_window local_mtu s) (some (min u16_max mss))
        s.send_wscale s.sack_perm)

unfoldable pub send_tcp_ack_rst : ℕ → TcpTxState → Packet
send_tcp_ack_rst local_mtu s = ack_rst s.sequence s.acknowledgement (get_tcp_window local_mtu s)

abbrev pub send_tcp_rst : Packet
send_tcp_rst = rst 0 0 0

unfoldable pub send_tcp_fin : ℕ → TcpTxState → Packet
send_tcp_fin local_mtu s = pure_fin s.sequence s.acknowledgement (get_tcp_window local_mtu s)

abbrev pub data_segments : List Segment → List Packet
data_segments [] = []
data_segments (seg ∷ segs) = data_segment seg ∷ data_segments segs

-- The results of the packets from the `n`-th on.
abbrev pub sent_from {ℓ} : {A : Type ℓ} → ℕ → (ℕ → A) → ℕ → A
sent_from n sent i = sent (n + i)
