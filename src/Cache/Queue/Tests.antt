-- ===== src/Cache/Queue/Tests.antt =====
-- Examples for `Queue`: a ring that goes round its buffer, at the end of the range of `u32`.
use pcap2socks.Base.{ℕ, ◌≡◌, refl, none, List, [], ◌∷◌, done, Option, ok, arith}
use pcap2socks.Sequence.{seq_sub}
use pcap2socks.Timer.{Duration}
use pcap2socks.Cache.Queue.{Queue, append, invalidate_to, get, recv_next}
use pcap2socks.Cache.Queue.Valid.{IsValid}
use pcap2socks.Cache.Queue.Store.{IsAppended, append_run}
use pcap2socks.Cache.Queue.Read.{get-eq-ok, get-append}
use pcap2socks.Cache.Queue.Release.{IsReleased, invalidate_to_run}
use pcap2socks.Cache.Queue.Refine.{Op, send, acknowledge, spec_step, spec_run, run, run_refines}

-- 1, 2, 3, sent at 0 with a timeout of one second, and room for three more.
abbrev wrapped : Queue
wrapped = record {
  buffer = 2 ∷ 3 ∷ 0 ∷ 1 ∷ [];
  capacity = 6;
  sequence = 4294967294;
  head = 3;
  size = 3;
  clocks = (4294967294, record { instant = 0; timeout = 1000000000 }) ∷ [];
  retrans = none;
}

wrapped-IsValid : IsValid wrapped
wrapped-IsValid = omega arith

abbrev script : List (ℕ × Op)
script =
    (1, send (4 ∷ 5 ∷ []) 1000)
    ∷ (2, acknowledge 2)
    ∷ (3, send (6 ∷ 7 ∷ 8 ∷ 9 ∷ []) 1000)
    ∷ (4, send (6 ∷ []) 1000)
    ∷ (5, acknowledge 20000000)
    ∷ []

run_refines_example : run wrapped script ≡ done (3 ∷ 4 ∷ 5 ∷ 6 ∷ [])
unfolding run spec_run spec_step
run_refines_example = run_refines script wrapped-IsValid (omega arith)

append_run_example :
    (q' : Queue) × (append wrapped (4 ∷ 5 ∷ []) 1000 7 ≡ done (q', ok tt))
    × IsAppended wrapped (4 ∷ 5 ∷ []) 1000 7 q'
append_run_example = append_run (4 ∷ 5 ∷ []) 1000 7 wrapped-IsValid (omega arith)

-- The first two bytes are acknowledged. The modulus of the source is one short of 2^32.
invalidate_to_run_example :
    (q' : Queue) × (rtt : Option Duration) × (invalidate_to wrapped 1 5 ≡ done (q', rtt))
    × IsReleased wrapped 1 2 q'
unfolding seq_sub
invalidate_to_run_example = invalidate_to_run 1 2 5 wrapped-IsValid (omega arith) refl (omega arith)

get-eq-ok_example : get wrapped 4294967295 2 ≡ done (ok (2 ∷ 3 ∷ []))
unfolding seq_sub
get-eq-ok_example = get-eq-ok 4294967295 2 1 wrapped-IsValid refl (omega arith)

get-append_example :
    (q' : Queue) × (append wrapped (4 ∷ 5 ∷ []) 1000 7 ≡ done (q', ok tt))
    × (get q' (recv_next wrapped) 2 ≡ done (ok (4 ∷ 5 ∷ [])))
get-append_example = get-append (4 ∷ 5 ∷ []) 1000 7 wrapped-IsValid (omega arith) (omega arith)

-- The first byte was sent half a second before the other two.
abbrev two_clocks : Queue
two_clocks = record wrapped {
  clocks =
      (4294967294, record { instant = 0; timeout = 1000000000 })
      ∷ (4294967295, record { instant = 500000000; timeout = 1000000000 })
      ∷ [];
}
