-- ===== src/Redirector/Udp/Laws.antt =====
-- The map and the LRU agree, and every port in them has a worker.
use pcap2socks.Base.{
  ℕ, ltb, ◌==◌, ◌≤◌, ◌<◌, ◌≡◌, ◌↔◌, inl, inr, refl, ◌∙◌, true, false, Bool-cases, Option-cases,
  Option, none, some, List, done, Result, ok, err, ErrorKind, other, Map, insert, remove, nat_key,
  arith, ==_self,
}
use pcap2socks.Net.{SocketAddr, same_addr_iff, addr_key}
use pcap2socks.Socks.Datagram
use pcap2socks.Socks.Datagram.{DatagramWorker}
use pcap2socks.Redirector.Udp.{
  UdpState, Sent, new, with_worker, hand_over, bind_worker, reuse, reuse_or, or_reuse, bind_new,
  bind_local_udp_port, unbind_local_udp_port, handle_udp,
}
use pcap2socks.Redirector.Udp.Lru.{LruCache}

-- A map and its inverse.
abbrev pub Agree : Map SocketAddr ℕ → Map ℕ SocketAddr → Type 0
Agree m l = (a : SocketAddr) (p : ℕ) → (m a ≡ some p) ↔ (l p ≡ some a)

insert_self : (a : SocketAddr) (p : ℕ) (m : Map SocketAddr ℕ) → insert a p m a ≡ some p
insert_self a p m = ground (arith, same_addr_iff a a)

pub Agree-insert :
    {m : Map SocketAddr ℕ} {l : Map ℕ SocketAddr}
    → Agree m l
    → (a : SocketAddr) (p : ℕ) → m a ≡ none
    → l p ≡ none
    → Agree (insert a p m) (insert p a l)
Agree-insert f a p h k b q = ground (arith, same_addr_iff a b, f b q, f a q, f b p)

Agree-remove :
    {m : Map SocketAddr ℕ} {l : Map ℕ SocketAddr}
    → Agree m l
    → (a : SocketAddr) (p : ℕ) → l p ≡ some a
    → Agree (remove a m) (remove p l)
Agree-remove f a p h b q = ground (arith, same_addr_iff a b, f b q, f a q, f b p, f a p)

-- Every port of the inverse has a worker.
abbrev pub Served : Map ℕ SocketAddr → Map ℕ DatagramWorker → Type 0
Served l d = (a : SocketAddr) (p : ℕ) → l p ≡ some a → (w : DatagramWorker) × (d p ≡ some w)

pub Served-insert :
    {l : Map ℕ SocketAddr} {d : Map ℕ DatagramWorker}
    → Served l d
    → (a : SocketAddr) (p : ℕ) (w : DatagramWorker) → Served (insert p a l) (insert p w d)
Served-insert f a p w b q h = elim (Bool-cases (p == q)) [
  | inl e ↦ (w, rw e refl)
  | inr e ↦ let (x, i) = f b q (rw e at h) in (x, rw e i)
]

Served-hand_over :
    {l : Map ℕ SocketAddr} {d : Map ℕ DatagramWorker}
    → Served l d
    → (a prev : SocketAddr) (p : ℕ) → l p ≡ some prev
    → Served (insert p a (remove p l)) d
Served-hand_over f a prev p k b q h = elim (Bool-cases (p == q)) [
  | inl e ↦ let (w, i) = f prev p k in let same : p ≡ q = ground arith in (w, rw same at i)
  | inr e ↦ f b q (rw e at h)
]

Served-remove :
    {l : Map ℕ SocketAddr} {d : Map ℕ DatagramWorker}
    → Served l d
    → (p : ℕ) → Served (remove p l) (remove p d)
Served-remove f p a q h = elim (Bool-cases (p == q)) [
  | inl e ↦ absurd (let h' = rw e at h in cc)
  | inr e ↦ rw e (f a q (rw e at h))
]

Served-free :
    {l : Map ℕ SocketAddr} {d : Map ℕ DatagramWorker} (p : ℕ) → Served l d → d p ≡ none → l p ≡ none
Served-free {l} p f h = elim (Option-cases (l p)) [
  | inl e ↦ e
  | inr (a, e) ↦ let (w, i) = f a p e in absurd (cc)
]

pub record IsValid {L : LruCache} (s : UdpState L) : Type 0 where
  pub agree : Agree s.datagram_map (L.peek s.udp_lru)
  pub served : Served (L.peek s.udp_lru) s.datagrams
  pub bounded : L.len s.udp_lru ≤ L.cap s.udp_lru

-- A source with its port, and a worker behind that.
pub record IsBound {L : LruCache} (s : UdpState L) (src : SocketAddr) (port : ℕ) : Type 0 where
  pub mapped : s.datagram_map src ≡ some port
  pub in_lru : L.peek s.udp_lru port ≡ some src
  pub worker : DatagramWorker
  pub there : s.datagrams port ≡ some worker

-- A newly bound local port is none that a worker has.
abbrev pub IsFresh : {L : LruCache} → UdpState L → Result ℕ → Type 0
IsFresh s (ok p) = s.datagrams p ≡ none
IsFresh s (err e) = Unit {0}

-- The result of a datagram: that of sending it, or an error if it was not sent.
abbrev pub HasResult : Result ℕ → Option Sent → Result (Unit {0}) → Type 0
HasResult (ok n) (some call) result = result ≡ ok tt
HasResult (err e) (some call) result = result ≡ err e
HasResult sent none result = (e : ErrorKind) × (result ≡ err e)

module _ {L : LruCache} where
  pub new-IsValid : IsValid (new {L = L})
  unfolding new
  new-IsValid = record {
    agree = λ a p. ground (arith, L.peek-new 256 p);
    served = λ a p h. absurd (ground (arith, L.peek-new 256 p));
    bounded = omega (arith, L.len-new 256);
  }

  used-IsValid :
      {s : UdpState L} (p : ℕ) → IsValid s → IsValid (record s { udp_lru = L.get p s.udp_lru })
  used-IsValid {s} p v = record {
    agree = λ a q. rw (L.peek-get p s.udp_lru q) (v.agree a q);
    served = λ a q h. v.served a q (rw (L.peek-get p s.udp_lru q) at h);
    bounded = omega (arith, v.bounded, L.len-get p s.udp_lru, L.cap-get p s.udp_lru);
  }

  with_worker-IsValid :
      {s : UdpState L} (src : SocketAddr) (p : ℕ)
      → IsValid s
      → s.datagram_map src ≡ none
      → s.datagrams p ≡ none
      → L.len s.udp_lru < L.cap s.udp_lru
      → IsValid (with_worker s src p) × IsBound (with_worker s src p) src p
  unfolding with_worker
  with_worker-IsValid {s} src p v unknown fresh room =
      let free = Served-free p v.served fresh in
      (
        record {
          agree = λ a q.
              rw (L.peek-put p src s.udp_lru q room) (Agree-insert v.agree src p unknown free a q);
          served = λ a q h.
              Served-insert v.served src p (Datagram.bind src p) a q
                (rw (L.peek-put p src s.udp_lru q room) at h);
          bounded = omega (arith, L.len-put p src s.udp_lru room, L.cap-put p src s.udp_lru);
        },
        record {
          mapped = insert_self src p s.datagram_map;
          in_lru = rw (L.peek-put p src s.udp_lru p room, ==_self p) refl;
          worker = Datagram.bind src p;
          there = rw (==_self p) refl;
        },
      )

  pub hand_over-IsValid :
      {s : UdpState L} (src prev : SocketAddr) (p : ℕ) (rest : L.Lru)
      → IsValid s
      → s.datagram_map src ≡ none
      → L.pop_lru s.udp_lru ≡ some ((p, prev), rest)
      → IsValid (hand_over s src p prev rest) × IsBound (hand_over s src p prev rest) src p
  unfolding hand_over
  hand_over-IsValid {s} src prev p rest v unknown e =
      let (found, others, shorter, same_cap) = L.pop_lru-some s.udp_lru p prev rest e in
      let room : L.len rest < L.cap rest = omega (arith, v.bounded) in
      let (w, there) = v.served prev p found in
      let gone : remove prev s.datagram_map src ≡ none = ground arith in
      let free : L.peek rest p ≡ none = others p ∙ rw (==_self p) refl in
      let left : Agree (remove prev s.datagram_map) (L.peek rest) =
        λ a q. rw (others q) (Agree-remove v.agree prev p found a q) in
      (
        record {
          agree = λ a q. rw (L.peek-put p src rest q room) (Agree-insert left src p gone free a q);
          served = λ a q h.
              Served-hand_over v.served src prev p found a q
                (rw (L.peek-put p src rest q room, others q) at h);
          bounded = omega (arith, L.len-put p src rest room, L.cap-put p src rest);
        },
        record {
          mapped = insert_self src p (remove prev s.datagram_map);
          in_lru = rw (L.peek-put p src rest p room, ==_self p) refl;
          worker = w;
          there = there;
        },
      )

  -- What a call for a local port leaves: the port is the source's, or no port is in use at all and
  -- nothing changed.
  abbrev pub IsBoundOr : UdpState L → SocketAddr → UdpState L → Result ℕ → Type 0
  IsBoundOr s src s' (ok p) = IsBound s' src p
  IsBoundOr s src s' (err e) = (s' ≡ s) × (L.len s.udp_lru ≡ 0)

  reuse_or_run :
      {s : UdpState L} (e : ErrorKind) (src : SocketAddr)
      → IsValid s
      → s.datagram_map src ≡ none
      → (s' : UdpState L) × (result : Result ℕ) × (reuse_or e s src ≡ done (s', result))
        × IsValid s'
        × IsBoundOr s src s' result
  unfolding reuse_or reuse
  reuse_or_run {s} e src v unknown = elim (Bool-cases (L.len s.udp_lru == 0)) [
    | inl z ↦ (s, err e, rw z refl, v, (refl, ground arith))
    | inr z ↦ elim (Option-cases (L.pop_lru s.udp_lru)) [
      | inl n ↦ absurd (ground (arith, L.pop_lru-none s.udp_lru n))
      | inr (((p, prev), rest), found) ↦
          let (v', b) = hand_over-IsValid src prev p rest v unknown found in
          (hand_over s src p prev rest, ok p, rw (z, found) refl, v', b)
    ]
  ]

  bind_worker-room :
      (s : UdpState L) (src : SocketAddr) (p : ℕ)
      → ltb (L.len s.udp_lru) (L.cap s.udp_lru) ≡ true
      → bind_worker s src (ok p) ≡ (with_worker s src p, ok p)
  unfolding bind_worker
  bind_worker-room s src p h = rw h refl

  bind_worker-err :
      (s : UdpState L) (src : SocketAddr) (e : ErrorKind)
      → ltb (L.len s.udp_lru) (L.cap s.udp_lru) ≡ true
      → bind_worker s src (err e) ≡ (s, err e)
  unfolding bind_worker
  bind_worker-err s src e h = rw h refl

  pub bind_worker-full :
      (s : UdpState L) (src : SocketAddr) (bound : Result ℕ)
      → ltb (L.len s.udp_lru) (L.cap s.udp_lru) ≡ false
      → bind_worker s src bound ≡ (s, err other)
  unfolding bind_worker
  bind_worker-full s src (ok p) h = rw h refl
  bind_worker-full s src (err e) h = rw h refl

  bind_new_run :
      {s : UdpState L} (src : SocketAddr) (bound : Result ℕ)
      → IsValid s
      → IsFresh s bound
      → s.datagram_map src ≡ none
      → (s' : UdpState L) × (result : Result ℕ) × (bind_new s src bound ≡ done (s', result))
        × IsValid s'
        × IsBoundOr s src s' result
  unfolding bind_new or_reuse
  bind_new_run {s} src (ok p) v fresh unknown =
      elim (Bool-cases (ltb (L.len s.udp_lru) (L.cap s.udp_lru))) [
        | inl room ↦
            let (v', b) = with_worker-IsValid src p v unknown fresh (ground arith) in
            (with_worker s src p, ok p, rw (bind_worker-room s src p room) refl, v', b)
        | inr full ↦
            let (s', r, e, v', b) = reuse_or_run other src v unknown in
            (s', r, rw (bind_worker-full s src (ok p) full) e, v', b)
      ]
  bind_new_run {s} src (err e) v fresh unknown =
      elim (Bool-cases (ltb (L.len s.udp_lru) (L.cap s.udp_lru))) [
        | inl room ↦
            let (s', r, i, v', b) = reuse_or_run e src v unknown in
            (s', r, rw (bind_worker-err s src e room) i, v', b)
        | inr full ↦
            let (s', r, i, v', b) = reuse_or_run other src v unknown in
            (s', r, rw (bind_worker-full s src (err e) full) i, v', b)
      ]

  -- Where a new local port is none in use, a call for a source's local port does not panic and
  -- keeps the state valid. It gives a port that is the source's in the map and in the LRU, with a
  -- worker; or it fails, then no port is in use and nothing changes.
  pub bind_local_udp_port_run :
      {s : UdpState L} (src : SocketAddr) (bound : Result ℕ)
      → IsValid s
      → IsFresh s bound
      → (s' : UdpState L) × (result : Result ℕ) × (bind_local_udp_port s src bound
          ≡ done (s', result))
        × IsValid s'
        × IsBoundOr s src s' result
  unfolding bind_local_udp_port
  bind_local_udp_port_run {s} src bound v fresh = elim (Option-cases (s.datagram_map src)) [
    | inl unknown ↦
        let (s', r, i, v', b) = bind_new_run src bound v fresh unknown in
        (s', r, rw (bind_local_udp_port, unknown) i, v', b)
    | inr (p, known) ↦
        let found = (v.agree src p).0 known in
        let (w, there) = v.served src p found in
        (
          record s { udp_lru = L.get p s.udp_lru },
          ok p,
          rw (bind_local_udp_port, known) refl,
          used-IsValid p v,
          record {
            mapped = known;
            in_lru = rw (L.peek-get p s.udp_lru p) found;
            worker = w;
            there = there;
          },
        )
  ]

  -- What a datagram leaves: its payload went to its destination over a worker behind the source's
  -- port, or no port is in use at all and nothing changed.
  abbrev pub IsHandled :
      UdpState L → SocketAddr → SocketAddr → List ℕ → UdpState L → Option Sent → Type 0
  IsHandled s src dst payload s' (some call) =
      (p : ℕ) × (s'.datagram_map src ≡ some p)
      × (s'.datagrams p ≡ some call.worker)
      × (call.payload ≡ payload)
      × (call.dst ≡ dst)
  IsHandled s src dst payload s' none = (s' ≡ s) × (L.len s.udp_lru ≡ 0)

  bound-IsHandled :
      {s : UdpState L} (src dst : SocketAddr) (payload : List ℕ) (bound sent : Result ℕ)
      (s' : UdpState L) (port : Result ℕ)
      → bind_local_udp_port s src bound ≡ done (s', port)
      → IsBoundOr s src s' port
      → (call : Option Sent) × (result : Result (Unit {0})) × (handle_udp s src dst payload bound
            sent
          ≡ done (s', call, result))
        × HasResult sent call result
        × IsHandled s src dst payload s' call
  unfolding handle_udp
  bound-IsHandled src dst payload bound (ok n) s' (err e) i b =
      (none, err e, rw (handle_udp, i) refl, (e, refl), b)
  bound-IsHandled src dst payload bound (err _) s' (err e) i b =
      (none, err e, rw (handle_udp, i) refl, (e, refl), b)
  bound-IsHandled src dst payload bound (ok n) s' (ok p) i b = (
    some (record { worker = b.worker; payload = payload; dst = dst }),
    ok tt,
    rw (handle_udp, i, b.there) refl,
    refl,
    (p, b.mapped, b.there, refl, refl),
  )
  bound-IsHandled src dst payload bound (err e) s' (ok p) i b = (
    some (record { worker = b.worker; payload = payload; dst = dst }),
    err e,
    rw (handle_udp, i, b.there) refl,
    refl,
    (p, b.mapped, b.there, refl, refl),
  )

  -- Where a new local port is none in use, a datagram is handled without a panic, and the state
  -- stays valid. The payload goes to its destination over the worker of the source's port, and the
  -- result is that of sending it; or the result is an error, no port is in use and nothing changes.
  pub handle_udp_run :
      {s : UdpState L} (src dst : SocketAddr) (payload : List ℕ) (bound sent : Result ℕ)
      → IsValid s
      → IsFresh s bound
      → (s' : UdpState L) × (call : Option Sent) × (result : Result (Unit {0})) × (handle_udp s src
            dst payload bound sent
          ≡ done (s', call, result))
        × IsValid s'
        × HasResult sent call result
        × IsHandled s src dst payload s' call
  handle_udp_run {s} src dst payload bound sent v fresh =
      let (s', r, i, v', b) = bind_local_udp_port_run src bound v fresh in
      let (call, result, e, q, h) = bound-IsHandled src dst payload bound sent s' r i b in
      (s', call, result, e, v', q, h)

  -- A source that is let go has no local port any more, and the state stays valid.
  pub unbind_local_udp_port-IsValid :
      {s : UdpState L} (src : SocketAddr)
      → IsValid s
      → IsValid (unbind_local_udp_port s src)
        × ((unbind_local_udp_port s src).datagram_map src ≡ none)
  unfolding unbind_local_udp_port
  unbind_local_udp_port-IsValid {s} src v = elim (Option-cases (s.datagram_map src)) [
    | inl unknown ↦ rw (unbind_local_udp_port, unknown) (v, unknown)
    | inr (p, known) ↦
        let found = (v.agree src p).0 known in
        rw (unbind_local_udp_port, known)
          (
            record {
              agree = λ a q. rw (L.peek-pop p s.udp_lru q) (Agree-remove v.agree src p found a q);
              served = λ a q h. Served-remove v.served p a q (rw (L.peek-pop p s.udp_lru q) at h);
              bounded = omega (arith, v.bounded, L.len-pop p s.udp_lru, L.cap-pop p s.udp_lru);
            },
            ground (arith, same_addr_iff src src),
          )
  ]
