-- ===== src/Forwarder/Fragments.antt =====
-- `send_udp` of src/lib.rs: a datagram whole, or in fragments of at most the MTU. The serialized
-- datagram and the results of the calls that send packets are arguments.
pub mod Laws
mod Tests
use pcap2socks.Base.{
  ℕ, zero, suc, ◌+◌, ◌-◌, ◌*◌, ◌/◌, ltb, leb, if◌then◌else◌, min, Bool, ◌&&◌, Option, List, [], ◌∷◌,
  length, Run, done, out_of_fuel, ◌>>=◌, sub, slice, Result, ok, err, as_u16,
}
use pcap2socks.Forwarder.Segments.{mtu_of, ipv4_minimum_len}

-- `Udp::minimum_len`
abbrev pub udp_minimum_len : ℕ
udp_minimum_len = 8

-- The offset is in units of 8 bytes.
pub record Fragment : Type 0 where
  pub offset : ℕ
  pub more : Bool
  pub payload : List ℕ

-- The length of a fragment before the last one is spared, aligned unless it is the last.
unfoldable pub aligned_length : ℕ → ℕ → ℕ
aligned_length mss left = if ltb 0 (left - min left mss) then min left mss / 8 * 8 else min left mss

-- At least 8 bytes are left for the last fragment.
unfoldable pub spared_length : ℕ → ℕ → Run ℕ
unfolding aligned_length
spared_length mss left =
    let length = aligned_length mss left in
    if ltb 0 (left - length) && ltb (left - length) 8 then sub length 8 else done length

-- The fragment at `n`, and its length.
unfoldable pub fragment : ℕ → List ℕ → ℕ → Run (Fragment × ℕ)
unfolding aligned_length spared_length
fragment mss buffer n = do
  size ← spared_length mss (length buffer - n)
  part ← slice buffer n (n + size)
  done (
    record {
      offset = as_u16 (n / 8);
      more = ltb 0 (length buffer - n - aligned_length mss (length buffer - n));
      payload = part;
    },
    size,
  )

-- The loop over the fragments, with what was sent.
unfoldable pub send_fragments :
    ℕ → ℕ → List ℕ → ℕ → (ℕ → Result (Unit {0})) → Run (List Fragment × Result (Unit {0}))
unfolding fragment
send_fragments zero mss buffer n sent = out_of_fuel
send_fragments (suc fuel) mss buffer n sent =
    if ltb n (length buffer)
    then (do
      (frag, size) ← fragment mss buffer n
      elim (sent 0) [
        | err e ↦ done (frag ∷ [], err e)
        | ok _ ↦ (do
          (frags, result) ← send_fragments fuel mss buffer (n + size) (λ j. sent (suc j))
          done (frag ∷ frags, result))
      ])
    else done ([], ok tt)

-- The packets of a datagram: itself, or fragments of it.
pub data Packets : Type 0 where
  whole : List ℕ → Packets
  fragments : List Fragment → Packets

unfoldable pub send_udp :
    ℕ → Option ℕ → List ℕ → List ℕ → (ℕ → Result (Unit {0})) → Run (Packets × Result (Unit {0}))
send_udp local_mtu src_mtu payload buffer sent = do
  mss ← sub (mtu_of local_mtu src_mtu) ipv4_minimum_len
  if leb (udp_minimum_len + length payload) mss then done (whole payload, sent 0) else (do
    (frags, result) ← send_fragments (suc (length buffer)) mss buffer 0 sent
    done (fragments frags, result))
