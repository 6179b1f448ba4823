-- ===== src/Cache/Queue/Read.antt =====
-- `Queue::get` and `Queue::get_all`: parts of the contents, and the requests refused.
use pcap2socks.Base.{
  ℕ, ◌+◌, ◌-◌, ◌≤◌, ◌<◌, ◌≡◌, refl, ◌∙◌, ◌==◌, List, length, take, drop, done, ok, err,
  invalid_input, arith, u32_max, Bool-cases, inl, inr, le→ltb, as_u32, take_of_length, drop-append,
}
use pcap2socks.Sequence.{seq_sub}
use pcap2socks.Sequence.Laws.{seq_sub-seq_add}
use pcap2socks.Cache.Ring.Contents.{wrap_index, contents_of-drop, length-contents_of}
use pcap2socks.Cache.Ring.Take.{take_payload-eq-done}
use pcap2socks.Cache.Queue.{Queue, recv_next, append, get, get_all, contents}
use pcap2socks.Cache.Queue.Valid.{IsValid}
use pcap2socks.Cache.Queue.Store.{append_run}

-- `get` at `d` bytes behind the first returns the `n` bytes from there on, if the queue holds
-- them.
pub get-eq-ok :
    {q : Queue} (sequence n d : ℕ)
    → IsValid q
    → seq_sub sequence q.sequence ≡ d
    → d + n ≤ q.size
    → get q sequence n ≡ done (ok (take n (drop d (contents q))))
unfolding get
get-eq-ok {q} sequence n d v e h = elim (Bool-cases (n == 0)) [
  | inl z ↦ rw z (let z' : n ≡ 0 = ground arith in rw z' refl)
  | inr z ↦ rw (
    z,
    e,
    le→ltb q.size d (omega arith),
    le→ltb (q.size - d) n (omega arith),
    le→ltb 18446744073709551615 (q.head + d) (omega arith),
    take_payload-eq-done q.buffer (wrap_index (length q.buffer) q.head d) n (ground arith)
        (omega arith),
    contents_of-drop q.buffer q.head q.size d n v.head_in v.size_in h,
  )
]

-- A request for bytes beyond the last is refused, and the error is the same however it exceeds.
pub get-eq-err :
    (q : Queue) (sequence n d : ℕ)
    → seq_sub sequence q.sequence ≡ d
    → 0 < n
    → q.size < d + n
    → get q sequence n ≡ done (err invalid_input)
unfolding get
get-eq-err q sequence n d e p h = ground arith

pub seq_sub_self : (s : ℕ) → seq_sub s s ≡ 0
unfolding seq_sub
seq_sub_self s = ground arith

-- `get_all` returns the contents; its `unwrap` does not panic.
pub get_all-eq-done : {q : Queue} → IsValid q → get_all q ≡ done (contents q)
unfolding get_all
get_all-eq-done {q} v = rw (
  get-eq-ok q.sequence q.size 0 v (seq_sub_self q.sequence) (omega arith),
  take_of_length (contents q) q.size
      (length-contents_of q.buffer q.head q.size v.head_in v.size_in),
)

-- What was appended is read back at the receive next of before, also where the sequence wraps.
pub get-append :
    {q : Queue} (payload : List ℕ) (rto now : ℕ)
    → IsValid q
    → q.size + length payload ≤ q.capacity
    → q.size < u32_max
    → (q' : Queue) × (append q payload rto now ≡ done (q', ok tt))
      × (get q' (recv_next q) (length payload) ≡ done (ok payload))
unfolding recv_next
get-append {q} payload rto now v h k =
    let (q', e, a) = append_run payload rto now v h in
    let lc = length-contents_of q.buffer q.head q.size v.head_in v.size_in in
    let m : as_u32 q.size ≡ q.size = omega arith in
    (
      q',
      e,
      get-eq-ok (recv_next q) (length payload) q.size a.valid
            (rw (a.sequence, m) (seq_sub-seq_add q.sequence q.size v.sequence_in k))
            (omega (arith, a.size))
          ∙ rw (
            a.bytes,
            drop-append (contents q) payload q.size lc,
            take_of_length payload (length payload) refl,
          ),
    )
