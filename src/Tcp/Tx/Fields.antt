-- ===== src/Tcp/Tx/Fields.antt =====
-- The operations that leave the connection's own acknowledgement alone.
use pcap2socks.Base.{
  ℕ, ◌≡◌, refl, ◌∙◌, leb, min, u64_max, List, [], ◌∷◌, Bool-cases, inl, inr, Option, none, some,
  All, All-bind, All-map, All-any,
}
use pcap2socks.Timer.{Timer, Instant, Duration, as_millis}
use pcap2socks.Sequence.{seq_sub, max_window_size}
use pcap2socks.Cache.Queue
use pcap2socks.Tcp.Tx
use pcap2socks.Tcp.Tx.{TcpTxState}

acknowledge_syn_ack :
    (s : TcpTxState) (syn : Option Instant) (sequence : ℕ) (now : Instant)
    → (Tx.acknowledge_syn s syn sequence now).0.acknowledgement ≡ s.acknowledgement
unfolding Tx.acknowledge_syn Tx.add_sequence
acknowledge_syn_ack s none sequence now = refl
acknowledge_syn_ack s (some instant) sequence now =
    elim (Bool-cases (leb (seq_sub sequence s.sequence) max_window_size)) [
      | inl e ↦ rw e refl
      | inr e ↦ rw e refl
    ]

acknowledge_fin_ack :
    (s : TcpTxState) (fin : Option Timer) (sequence : ℕ) (rtt : Option Duration) (now : Instant)
    → (Tx.acknowledge_fin s fin sequence rtt now).0.acknowledgement ≡ s.acknowledgement
unfolding Tx.acknowledge_fin Tx.add_sequence
acknowledge_fin_ack s none sequence rtt now = refl
acknowledge_fin_ack s (some timer) sequence rtt now =
    elim (Bool-cases (leb (seq_sub sequence (Queue.recv_next s.cache)) max_window_size)) [
      | inl e ↦ rw e refl
      | inr e ↦ rw e refl
    ]

apply_rtt_ack :
    (s : TcpTxState) (rtt : Option Duration)
    → All (λ s'. s'.acknowledgement ≡ s.acknowledgement) (Tx.apply_rtt s rtt)
unfolding Tx.apply_rtt Tx.update_rto Tx.set_rto
apply_rtt_ack s none = refl
apply_rtt_ack s (some rtt) =
    All-bind (λ x. Unit {0}) (λ s'. s'.acknowledgement ≡ s.acknowledgement)
      (Tx.estimate s.srtt s.rttvar (min u64_max (as_millis rtt))) _
      (All-any (Tx.estimate s.srtt s.rttvar (min u64_max (as_millis rtt)))) (λ x _. refl)

-- The acknowledgement that is sent is not that which is taken in.
pub acknowledge_ack :
    (s : TcpTxState) (sequence : ℕ) (now : Instant)
    → All (λ s'. s'.acknowledgement ≡ s.acknowledgement) (Tx.acknowledge s sequence now)
unfolding Tx.acknowledge
acknowledge_ack s sequence now =
    let opened = (Tx.acknowledge_syn s s.cache_syn sequence now).0 in
    let syn_rtt = (Tx.acknowledge_syn s s.cache_syn sequence now).1 in
    All-bind (λ x. Unit {0}) (λ s'. s'.acknowledgement ≡ s.acknowledgement)
      (Queue.invalidate_to opened.cache sequence now) _
      (All-any (Queue.invalidate_to opened.cache sequence now))
      (λ (cache, cache_rtt) _.
        let cleared : TcpTxState = record opened { cache = cache } in
        let closed =
          Tx.acknowledge_fin cleared cleared.cache_fin sequence (Tx.or_else syn_rtt cache_rtt)
            now in
        All-map (λ s'. s'.acknowledgement ≡ closed.0.acknowledgement)
          (λ s'. s'.acknowledgement ≡ s.acknowledgement) (Tx.apply_rtt closed.0 closed.1)
          (apply_rtt_ack closed.0 closed.1)
          (λ s' same.
            same
            ∙ acknowledge_fin_ack cleared cleared.cache_fin sequence (Tx.or_else syn_rtt cache_rtt)
                now
            ∙ acknowledge_syn_ack s s.cache_syn sequence now))

pub set_sacks_ack :
    (s : TcpTxState) (sacks : List (ℕ × ℕ))
    → (Tx.set_sacks s sacks).acknowledgement ≡ s.acknowledgement
unfolding Tx.set_sacks
set_sacks_ack s [] = refl
set_sacks_ack s (sack ∷ sacks) = refl
