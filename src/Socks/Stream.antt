-- ===== src/Socks/Stream.antt =====
-- `StreamWorker` of src/socks/mod.rs. The task that `connect` spawns shares the two flags with the
-- worker; what `read` gives it is an argument, and so are the results of the proxy's connection.
-- The waits between rounds and the log lines are left out.
pub mod Laws
mod Tests
use pcap2socks.Base.{
  ℕ, ◌+◌, ltb, ◌==◌, if◌then◌else◌, Bool, true, false, Option, none, some, List, [], ◌∷◌, length,
  Run, done, panic, ◌>>=◌, unwrap, Result, ok, err, ErrorKind, not_connected, timed_out,
}
use pcap2socks.Net.{SocketAddr}
use pcap2socks.Socks.Datagram.{is_transient}

-- `MAX_RECV_ZERO`
abbrev pub max_recv_zero : ℕ
max_recv_zero = 3

-- The half for writing is there until it is shut down.
pub record StreamWorker : Type 0 where
  pub dst : SocketAddr
  pub stream_tx : Option (Unit {0})
  pub is_write_closed : Bool
  pub is_read_closed : Bool

-- `connect`, after the results of the proxy and of `open`.
unfoldable pub connect : SocketAddr → Result (Unit {0}) → Result (Unit {0}) → Result StreamWorker
connect dst (err e) opened = err e
connect dst (ok _) (err e) = err e
connect dst (ok _) (ok _) =
    ok (record { dst = dst; stream_tx = some tt; is_write_closed = false; is_read_closed = false })

-- The result of `write_all` is that of the call.
unfoldable pub send : StreamWorker → Result (Unit {0}) → Result (Unit {0})
send w written = elim w.stream_tx [ some _ ↦ written | none ↦ err not_connected ]

-- `shutdown(Shutdown::Write)`, the one way that `shutdown` is called.
unfoldable pub shutdown : StreamWorker → Run StreamWorker
shutdown w =
    if w.is_write_closed
    then done w
    else (do _ ← unwrap w.stream_tx; done (record w { is_write_closed = true; stream_tx = none }))

-- `close`, and `drop`
unfoldable pub close : StreamWorker → Run StreamWorker
unfolding shutdown
close w = do w' ← shutdown w; done (record w' { is_read_closed = true })

-- What the task asks the forwarder for.
pub data Request : Type 0 where
  forward : List ℕ → Request
  close_stream : Request

-- The task: the empty reads so far, and whether its loop was left.
pub record Reader : Type 0 where
  pub recv_zero : ℕ
  pub is_done : Bool

-- A read of nothing: the fourth in a row closes the stream.
unfoldable pub read_zero : StreamWorker → Reader → StreamWorker × Reader × Option Request
read_zero w r =
    let zeros = r.recv_zero + 1 in
    if ltb max_recv_zero zeros
    then (
      record w { is_read_closed = true },
      record { recv_zero = zeros; is_done = true },
      some close_stream,
    )
    else (w, record r { recv_zero = zeros }, none)

-- What a round does with what was read.
unfoldable pub handle_read :
    StreamWorker → Reader → Result (List ℕ) → StreamWorker × Reader × Option Request
unfolding read_zero
handle_read w r (ok []) = read_zero w r
handle_read w r (ok (x ∷ payload)) =
    (w, record { recv_zero = 0; is_done = false }, some (forward (x ∷ payload)))
handle_read w r (err e) = if is_transient e then (w, r, none) else (
  record w { is_read_closed = true; is_write_closed = true },
  record r { is_done = true },
  none,
)

unfoldable pub is_ok {ℓ} : {A : Type ℓ} → Result A → Bool
is_ok (ok a) = true
is_ok (err e) = false

-- One round of the task's loop: `closed` is whether the flag for reading was set while `read`
-- waited, which the loop asks for after a read that succeeds.
unfoldable pub receive :
    StreamWorker → Reader → Bool → Result (List ℕ) → StreamWorker × Reader × Option Request
unfolding handle_read is_ok
receive w r closed result =
    if r.is_done
    then (w, r, none)
    else (if w.is_read_closed
        then (w, record r { is_done = true }, none)
        else (let w' : StreamWorker = record w { is_read_closed = closed } in
            if closed
            then (if is_ok result
                then (w', record r { is_done = true }, none)
                else handle_read w' r result)
            else handle_read w' r result))
