-- ===== src/Socks/Datagram/Laws.antt =====
-- The source of a worker, and that the word it is kept in loses nothing.
use pcap2socks.Base.{
  ℕ, ◌+◌, ◌*◌, ◌/◌, ◌%◌, ◌≤◌, ◌≡◌, refl, ◌∙◌, List, [], ◌∷◌, Option, Bool, none, some, Result, ok,
  err, arith, u16_max, u32_max, u64_max,
}
use pcap2socks.Net.{SocketAddr}
use pcap2socks.Socks.Datagram.{
  DatagramWorker, Forwarded, socket_addr_v4_to_u64, u64_to_socket_addr_v4, bind, src, receive,
  close,
}

-- An address fits in the word and comes back from it.
pub u64_to_socket_addr_v4-socket_addr_v4_to_u64 :
    (a : SocketAddr)
    → a.ip ≤ u32_max
    → a.port ≤ u16_max
    → (socket_addr_v4_to_u64 a ≤ u64_max) × (u64_to_socket_addr_v4 (socket_addr_v4_to_u64 a) ≡ a)
unfolding socket_addr_v4_to_u64 u64_to_socket_addr_v4
u64_to_socket_addr_v4-socket_addr_v4_to_u64 a h k =
    let e : (a.ip * 65536 + a.port) / 65536 % 4294967296 ≡ a.ip = omega arith in
    let f : (a.ip * 65536 + a.port) % 65536 ≡ a.port = omega arith in
    (omega arith, λ i. record { ip = e i; port = f i })

-- What `recv_from` gives in each round, with whether the flag was set meanwhile.
abbrev pub Event : Type 0
Event = Bool × Result (SocketAddr × List ℕ)

abbrev pub cons_some : Option Forwarded → List Forwarded → List Forwarded
cons_some none fs = fs
cons_some (some f) fs = f ∷ fs

-- All that the task forwards.
unfoldable pub serve : DatagramWorker → List Event → List Forwarded
serve w [] = []
serve w ((closed, result) ∷ events) =
    let (w', f) = receive w closed result in cons_some f (serve w' events)

abbrev pub AllTo : SocketAddr → List Forwarded → Type 0
AllTo a [] = Unit {0}
AllTo a (f ∷ fs) = (f.to ≡ a) × AllTo a fs

AllTo-cons_some :
    (a : SocketAddr) (o : Option Forwarded) (fs : List Forwarded)
    → ((f : Forwarded) → o ≡ some f → f.to ≡ a)
    → AllTo a fs
    → AllTo a (cons_some o fs)
AllTo-cons_some a none fs h t = t
AllTo-cons_some a (some f) fs h t = (h f refl, t)

receive-src :
    (w : DatagramWorker) (closed : Bool) (result : Result (SocketAddr × List ℕ))
    → ((receive w closed result).0.src ≡ w.src)
      × ((f : Forwarded) → (receive w closed result).1 ≡ some f → f.to ≡ src w)
unfolding receive close
receive-src w closed (ok (addr, payload)) = ground arith
receive-src w closed (err e) = ground arith

pub serve-AllTo :
    (a : SocketAddr) (w : DatagramWorker) (events : List Event)
    → src w ≡ a
    → AllTo a (serve w events)
unfolding serve src
serve-AllTo a w [] h = tt
serve-AllTo a w ((closed, result) ∷ events) h =
    let (e, f) = receive-src w closed result in
    AllTo-cons_some a (receive w closed result).1 (serve (receive w closed result).0 events)
      (λ g x. f g x ∙ h) (serve-AllTo a (receive w closed result).0 events (rw e h))

-- Whatever arrives, a worker bound for a source forwards to that source alone.
pub bind-AllTo :
    (a : SocketAddr) (local_port : ℕ) (events : List Event)
    → a.ip ≤ u32_max
    → a.port ≤ u16_max
    → AllTo a (serve (bind a local_port) events)
unfolding bind src
bind-AllTo a local_port events h k =
    serve-AllTo a (bind a local_port) events (u64_to_socket_addr_v4-socket_addr_v4_to_u64 a h k).1

-- Once a worker is closed, the task forwards nothing more, whatever arrives.
pub serve-close : (w : DatagramWorker) (events : List Event) → serve (close w) events ≡ []
unfolding serve receive close
serve-close w [] = refl
serve-close w ((closed, result) ∷ events) = serve-close w events
