-- ===== src/Cache/Queue/Refine.antt =====
-- The send window as a client sees it: the bytes in flight, and how many still fit.
use pcap2socks.Base.{
  ℕ, ◌+◌, ◌<◌, ◌≡◌, refl, ◌∙◌, leb, if◌then◌else◌, Bool-cases, inl, inr, List, [], ◌∷◌, ◌++◌,
  length, drop, Run, done, ◌>>=◌, arith, u32_max,
}
use pcap2socks.Sequence.{seq_add, max_window_size}
use pcap2socks.Sequence.Laws.{seq_bounds, seq_sub-seq_add}
use pcap2socks.Cache.Ring.Contents.{length-contents_of}
use pcap2socks.Cache.Queue.{Queue, append, invalidate_to, get_all, contents}
use pcap2socks.Cache.Queue.Valid.{IsValid}
use pcap2socks.Cache.Queue.Store.{append_run, append-full}
use pcap2socks.Cache.Queue.Read.{get_all-eq-done}
use pcap2socks.Cache.Queue.Release.{invalidate_to_run, invalidate_to-outside}

-- A payload sent under a timeout, or an acknowledgement that lies so many bytes ahead.
pub data Op : Type 0 where
  send : List ℕ → ℕ → Op
  acknowledge : ℕ → Op

-- The specification: a payload is appended if it fits, and an acknowledgement within the window
-- drops bytes from the front.
unfoldable pub spec_step : ℕ → List ℕ → Op → List ℕ
spec_step capacity bytes (send payload rto) =
    if leb (length bytes + length payload) capacity then bytes ++ payload else bytes
spec_step capacity bytes (acknowledge n) = if leb n max_window_size then drop n bytes else bytes

unfoldable pub spec_run : ℕ → List ℕ → List Op → List ℕ
spec_run capacity bytes [] = bytes
spec_run capacity bytes (op ∷ ops) = spec_run capacity (spec_step capacity bytes op) ops

-- The same calls on the queue, each at a time of its own.
unfoldable pub step : Queue → ℕ → Op → Run Queue
step q now (send payload rto) = do (q', result) ← append q payload rto now; done q'
step q now (acknowledge n) = do (q', rtt) ← invalidate_to q (seq_add q.sequence n) now; done q'

unfoldable pub run : Queue → List (ℕ × Op) → Run (List ℕ)
run q [] = get_all q
run q ((now, op) ∷ ops) = step q now op >>= λ q'. run q' ops

abbrev pub calls : List (ℕ × Op) → List Op
calls [] = []
calls ((now, op) ∷ ops) = op ∷ calls ops

-- Each acknowledgement lies less than the range of `u32` ahead.
abbrev pub InRange : List (ℕ × Op) → Type 0
InRange [] = Unit {0}
InRange ((now, send payload rto) ∷ ops) = InRange ops
InRange ((now, acknowledge n) ∷ ops) = (n < u32_max) × InRange ops

record Steps (q : Queue) (op : Op) (q' : Queue) : Type 0 where
  valid : IsValid q'
  capacity : q'.capacity ≡ q.capacity
  bytes : contents q' ≡ spec_step q.capacity (contents q) op

step-send :
    {q : Queue} (now : ℕ) (payload : List ℕ) (rto : ℕ)
    → IsValid q
    → (q' : Queue) × (step q now (send payload rto) ≡ done q') × Steps q (send payload rto) q'
unfolding step spec_step
step-send {q} now payload rto v =
    let lc = length-contents_of q.buffer q.head q.size v.head_in v.size_in in
    elim (Bool-cases (leb (q.size + length payload) q.capacity)) [
      | inl fits ↦
          let (q', e, a) = append_run payload rto now v (ground arith) in
          (
            q',
            rw e refl,
            record { valid = a.valid; capacity = a.capacity; bytes = rw (lc, fits) a.bytes },
          )
      | inr full ↦ (
        q,
        rw (append-full payload rto now v (ground arith)) refl,
        record { valid = v; capacity = refl; bytes = rw (lc, full) refl },
      )
    ]

step-acknowledge :
    {q : Queue} (now n : ℕ)
    → IsValid q
    → n < u32_max
    → (q' : Queue) × (step q now (acknowledge n) ≡ done q') × Steps q (acknowledge n) q'
unfolding step spec_step
step-acknowledge {q} now n v h =
    let back = seq_sub-seq_add q.sequence n v.sequence_in h in
    elim (Bool-cases (leb n max_window_size)) [
      | inl near ↦
          let (q', rtt, e, r) =
            invalidate_to_run (seq_add q.sequence n) n now v
              (seq_bounds q.sequence n v.sequence_in (omega arith)).0 back (ground arith) in
          (
            q',
            rw e refl,
            record { valid = r.valid; capacity = r.capacity; bytes = rw near r.bytes },
          )
      | inr far ↦ (
        q,
        rw (invalidate_to-outside q (seq_add q.sequence n) now (rw back (ground arith))) refl,
        record { valid = v; capacity = refl; bytes = rw far refl },
      )
    ]

-- From a valid queue, no sequence of sends and acknowledgements panics, and the bytes held at the
-- end are those of the specification run on the same calls.
pub run_refines :
    {q : Queue} (ops : List (ℕ × Op))
    → IsValid q
    → InRange ops
    → run q ops ≡ done (spec_run q.capacity (contents q) (calls ops))
unfolding run spec_run
run_refines [] v h = get_all-eq-done v
run_refines {q} ((now, send payload rto) ∷ ops) v h =
    let (q', e, s) = step-send now payload rto v in
    rw e (run_refines {q = q'} ops s.valid h ∙ rw (s.bytes, s.capacity) refl)
run_refines {q} ((now, acknowledge n) ∷ ops) v h =
    let (q', e, s) = step-acknowledge now n v h.0 in
    rw e (run_refines {q = q'} ops s.valid h.1 ∙ rw (s.bytes, s.capacity) refl)
