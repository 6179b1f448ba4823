-- ===== src/Socks/Stream/Laws.antt =====
-- What a worker of a stream forwards, and that its operations do not panic.
use pcap2socks.Base.{
  ℕ, zero, suc, ◌+◌, ◌≤◌, ◌≡◌, refl, ap, ltb, leb, if◌then◌else◌, Bool, true, false, Bool-cases,
  Option-cases, ◌⊎◌, inl, inr, Option, none, some, List, [], ◌∷◌, ◌++◌, Run, done, ◌>>=◌, Result,
  ok, err, arith,
}
use pcap2socks.Net.{SocketAddr}
use pcap2socks.Socks.Stream.{
  StreamWorker, Reader, Request, forward, close_stream, connect, shutdown, close, receive,
  handle_read, read_zero, is_ok, send,
}

-- The half for writing is gone only behind the flag.
abbrev pub IsValid : StreamWorker → Type 0
IsValid w = w.stream_tx ≡ none → w.is_write_closed ≡ true

-- What happens to a worker: a call, or a round of its task.
pub data Event : Type 0 where
  shut : Event
  closed_by_client : Event
  round : Bool → Result (List ℕ) → Event

unfoldable pub step : StreamWorker → Reader → Event → Run (StreamWorker × Reader)
step w r shut = do w' ← shutdown w; done (w', r)
step w r closed_by_client = do w' ← close w; done (w', r)
step w r (round closed result) = let (w', r', request) = receive w r closed result in done (w', r')

unfoldable pub run : StreamWorker → Reader → List Event → Run (StreamWorker × Reader)
run w r [] = done (w, r)
run w r (e ∷ events) = do (w', r') ← step w r e; run w' r' events

shutdown_run :
    (w : StreamWorker)
    → IsValid w
    → (w' : StreamWorker) × (shutdown w ≡ done w') × IsValid w' × (w'.is_write_closed ≡ true)
unfolding shutdown
shutdown_run w v = elim (Bool-cases w.is_write_closed) [
  | inl c ↦ (w, rw c refl, v, c)
  | inr c ↦ elim (Option-cases w.stream_tx) [
    | inl n ↦ absurd (let e = v n in cc)
    | inr (t, e) ↦
        (record w { is_write_closed = true; stream_tx = none }, rw (c, e) refl, λ h. refl, refl)
  ]
]

receive-IsValid :
    (w : StreamWorker) (r : Reader) (closed : Bool) (result : Result (List ℕ))
    → IsValid w
    → IsValid (receive w r closed result).0
unfolding receive handle_read read_zero is_ok
receive-IsValid w r closed (ok []) v = ground arith
receive-IsValid w r closed (ok (x ∷ xs)) v = ground arith
receive-IsValid w r closed (err e) v = ground arith

step_run :
    (w : StreamWorker) (r : Reader) (e : Event)
    → IsValid w
    → (w' : StreamWorker) × (r' : Reader) × (step w r e ≡ done (w', r')) × IsValid w'
unfolding step close
step_run w r shut v = let (w', e, v', c) = shutdown_run w v in (w', r, rw e refl, v')
step_run w r closed_by_client v =
    let (w', e, v', c) = shutdown_run w v in (record w' { is_read_closed = true }, r, rw e refl, v')
step_run w r (round closed result) v =
    let (w', r', request) = receive w r closed result in
    (w', r', refl, receive-IsValid w r closed result v)

run-run :
    (w : StreamWorker) (r : Reader) (events : List Event)
    → IsValid w
    → (w' : StreamWorker) × (r' : Reader) × (run w r events ≡ done (w', r')) × IsValid w'
unfolding run
run-run w r [] v = (w, r, refl, v)
run-run w r (e ∷ events) v =
    let (w', r', i, v') = step_run w r e v in
    let (w'', r'', j, v'') = run-run w' r' events v' in (w'', r'', rw i j, v'')

-- A worker is connected where the proxy and the forwarder allow it, and no sequence of shutdowns,
-- closes and rounds of its task panics. Afterwards what is sent goes through, or the worker is
-- closed for writing.
pub connect-run :
    (dst : SocketAddr) (events : List Event)
    → (w : StreamWorker) × (w' : StreamWorker) × (r' : Reader) × (connect dst (ok tt) (ok tt)
        ≡ ok w)
      × (run w (record { recv_zero = 0; is_done = false }) events ≡ done (w', r'))
      × ((send w' (ok tt) ≡ ok tt) ⊎ (w'.is_write_closed ≡ true))
unfolding connect send
connect-run dst events =
    let w : StreamWorker = record {
      dst = dst;
      stream_tx = some tt;
      is_write_closed = false;
      is_read_closed = false;
    } in
    let (w', r', e, v) =
      run-run w (record { recv_zero = 0; is_done = false }) events (λ h. absurd (cc)) in
    (
      w,
      w',
      r',
      refl,
      e,
      elim (Option-cases w'.stream_tx) [ inl n ↦ inr (v n) | inr (t, i) ↦ inl (rw (send, i) refl) ],
    )

abbrev pub cons_some : Option Request → List Request → List Request
cons_some none rs = rs
cons_some (some q) rs = q ∷ rs

-- What the task asks for over the reads given, with the flag for reading not set from outside.
unfoldable pub serve : StreamWorker → Reader → List (Result (List ℕ)) → List Request
serve w r [] = []
serve w r (result ∷ results) =
    let (w', r', request) = receive w r false result in cons_some request (serve w' r' results)

-- Reads of payloads, and then reads of nothing.
abbrev pub reads : List (ℕ × List ℕ) → ℕ → List (Result (List ℕ))
reads [] zero = []
reads [] (suc n) = ok [] ∷ reads [] n
reads ((x, xs) ∷ payloads) n = ok (x ∷ xs) ∷ reads payloads n

abbrev pub forwards : List (ℕ × List ℕ) → List Request
forwards [] = []
forwards ((x, xs) ∷ payloads) = forward (x ∷ xs) ∷ forwards payloads

abbrev reader : ℕ → Reader
reader z = record { recv_zero = z; is_done = false }

receive-open :
    (w : StreamWorker) (z : ℕ) (result : Result (List ℕ))
    → w.is_read_closed ≡ false
    → receive w (reader z) false result
      ≡ handle_read (record w { is_read_closed = false }) (reader z) result
unfolding receive
receive-open w z result h = rw h refl

serve-done :
    (w : StreamWorker) (z : ℕ) (results : List (Result (List ℕ)))
    → serve w (record { recv_zero = z; is_done = true }) results ≡ []
unfolding serve receive
serve-done w z [] = refl
serve-done w z (result ∷ results) = serve-done w z results

serve-zeros :
    (w : StreamWorker) (z n : ℕ)
    → w.is_read_closed ≡ false
    → z ≤ 3
    → serve w (reader z) (reads [] n) ≡ (if leb 4 (z + n) then close_stream ∷ [] else [])
unfolding serve handle_read read_zero
serve-zeros w z zero h k = ground arith
serve-zeros w z (suc n) h k = elim (Bool-cases (ltb 3 (z + 1))) [
  | inl c ↦
      let all : leb 4 (z + suc n) ≡ true = ground arith in
      rw (receive-open w z (ok []) h, c, all)
        (ap (◌∷◌ close_stream)
          (serve-done (record w { is_read_closed = true }) (z + 1) (reads [] n)))
  | inr c ↦
      let sum : z + suc n ≡ z + 1 + n = omega arith in
      rw (receive-open w z (ok []) h, c, sum)
        (serve-zeros (record w { is_read_closed = false }) (z + 1) n refl (ground arith))
]

-- From an open worker, the payloads that are read are forwarded in their order, each whole. The
-- stream is closed, once, if and only if four or more reads of nothing follow.
pub serve_stream :
    (w : StreamWorker) (payloads : List (ℕ × List ℕ)) (n : ℕ)
    → w.is_read_closed ≡ false
    → serve w (record { recv_zero = 0; is_done = false }) (reads payloads n)
      ≡ forwards payloads ++ (if leb 4 n then close_stream ∷ [] else [])
unfolding serve handle_read
serve_stream w [] n h =
    let z : 0 + n ≡ n = omega arith in rw z at (serve-zeros w 0 n h (omega arith))
serve_stream w ((x, xs) ∷ payloads) n h = rw (receive-open w 0 (ok (x ∷ xs)) h) (
    ap (◌∷◌ (forward (x ∷ xs)))
      (serve_stream (record w { is_read_closed = false }) payloads n refl))
