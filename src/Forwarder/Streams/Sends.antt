-- ===== src/Forwarder/Streams/Sends.antt =====
-- Sending from the queue leaves the acknowledgement of the connection alone.
use pcap2socks.Base.{
  ℕ, ◌≡◌, refl, ◌∙◌, ltb, ◌==◌, ◌&&◌, Bool-cases, Result-cases, inl, inr, Option, List, length,
  take, Result, All, All-bind, All-any,
}
use pcap2socks.Timer.{Instant}
use pcap2socks.Cache.Queue
use pcap2socks.Tcp.Tx
use pcap2socks.Tcp.Tx.{TcpTxState, is_some}
use pcap2socks.Forwarder.Segments.{Segment}
use pcap2socks.Forwarder.Packet
use pcap2socks.Forwarder.Packet.{Packet}
use pcap2socks.Forwarder.Send
use pcap2socks.Forwarder.Streams.{open_syn}
use pcap2socks.Forwarder.Streams.Acks.{
  Same, Keeps, Keeps-bind, Keeps-behind, Keeps-from, send_tcp_ack_raw-Keeps,
}

-- The same for the calls that return something else beside the state.
abbrev SameAck : {A : Type 0} → TcpTxState → TcpTxState × A → Type 0
SameAck s (s', rest) = s'.acknowledgement ≡ s.acknowledgement

append_cache_ack : (s : TcpTxState) (size now : ℕ) → All (SameAck s) (Tx.append_cache s size now)
unfolding Tx.append_cache
append_cache_ack s size now = elim (Bool-cases (ltb (length s.queue) size)) [
  | inl beyond ↦ rw beyond tt
  | inr within ↦ rw within (
      All-bind (λ a. Unit {0}) (SameAck s) (Queue.append s.cache (take size s.queue) s.rto now) _
        (All-any _)
        (λ (cache, result) _. elim (Result-cases result) [
          | inl (_, stored) ↦ rw stored refl
          | inr (e, refused) ↦ rw refused refl
        ]))
]

take_data_ack : (s : TcpTxState) (size now : ℕ) → All (SameAck s) (Send.take_data s size now)
unfolding Send.take_data Tx.append_cache_fin Tx.update_fin_timer
take_data_ack s size now =
    All-bind (SameAck s) (SameAck s) (Tx.append_cache s size now) _ (append_cache_ack s size now)
      (λ (s', result) same. elim (Result-cases result) [
        | inr (e, refused) ↦ rw refused same
        | inl (payload, stored) ↦ elim (Bool-cases ((length s'.queue == 0) && s'.queue_fin)) [
          | inl last ↦ rw (stored, last) same
          | inr more ↦ rw (stored, more) same
        ]
      ])

send_data-Keeps :
    (local_mtu : ℕ) (src_mtu : Option ℕ) (s : TcpTxState) (now : Instant)
    (sent : ℕ → Result (Unit {0}))
    → Keeps s (Send.send_data local_mtu src_mtu s now sent)
unfolding Send.send_data
send_data-Keeps local_mtu src_mtu s now sent = elim (Bool-cases (ltb 0 s.send_window)) [
  | inr closed ↦ rw closed refl
  | inl is_open ↦ rw is_open (
      Keeps-behind s (Send.send_size local_mtu src_mtu s) _ (λ size.
        elim (Bool-cases (ltb 0 size)) [
          | inr no_size ↦ rw no_size refl
          | inl some_size ↦ rw some_size (
              All-bind (SameAck s) (Same s) (Send.take_data s size now) _ (take_data_ack s size now)
                (λ (s', taken) same. elim (Result-cases taken) [
                  | inr (e, refused) ↦ rw refused same
                  | inl ((payload, is_fin), got) ↦ rw got (
                      Keeps-from s s' _ same (
                        send_tcp_ack_raw-Keeps local_mtu src_mtu s' s'.sequence payload is_fin
                          sent))
                ]))
        ]))
]

send_pending_fin-Keeps :
    (local_mtu : ℕ) (s : TcpTxState) (now : Instant) (segs : List Segment)
    (sent : ℕ → Result (Unit {0}))
    → Same s (Send.send_pending_fin local_mtu s now segs sent)
unfolding Send.send_pending_fin Tx.append_cache_fin Tx.update_fin_timer
send_pending_fin-Keeps local_mtu s now segs sent =
    elim (Bool-cases (s.queue_fin && Queue.is_empty s.cache)) [
      | inl e ↦ rw e refl
      | inr e ↦ rw e refl
    ]

pub send_tcp_ack-Keeps :
    (local_mtu : ℕ) (src_mtu : Option ℕ) (s : TcpTxState) (now : Instant)
    (sent : ℕ → Result (Unit {0}))
    → Keeps s (Send.send_tcp_ack local_mtu src_mtu s now sent)
unfolding Send.send_tcp_ack
send_tcp_ack-Keeps local_mtu src_mtu s now sent = elim (Bool-cases (is_some s.cache_syn)) [
  | inl syn ↦ rw syn (Keeps-behind s (Packet.send_tcp_ack_syn local_mtu s) _ (λ packet. refl))
  | inr established ↦ rw established (
      Keeps-bind s (Send.send_data local_mtu src_mtu s now sent) _
        (send_data-Keeps local_mtu src_mtu s now sent)
        (λ (s', segs, result) same. elim (Result-cases result) [
          | inr (e, failed) ↦ rw failed same
          | inl (_, sent_ok) ↦ rw sent_ok (send_pending_fin-Keeps local_mtu s' now segs sent ∙ same)
        ]))
]

pub open_syn-Keeps :
    (local_mtu : ℕ) (now : Instant) (sent : ℕ → Result (Unit {0})) (s : TcpTxState)
    → Keeps s (open_syn local_mtu now sent s)
unfolding open_syn Tx.update_syn_timer
open_syn-Keeps local_mtu now sent s =
    Keeps-behind s (Packet.send_tcp_ack_syn local_mtu s) _ (λ packet. elim (Result-cases (sent 0)) [
      | inl (_, sent_ok) ↦ rw sent_ok refl
      | inr (e, failed) ↦ rw failed refl
    ])
