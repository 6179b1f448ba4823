-- ===== src/Socks/Client/Laws.antt =====
-- A datagram to the server and back, and the address that datagrams go to.
use pcap2socks.Base.{
  ℕ, suc, ◌+◌, ◌-◌, ◌*◌, ◌/◌, ◌%◌, ◌≤◌, ◌<◌, ◌≡◌, refl, ap, ◌∙◌, ◌==◌, ◌⊎◌, inl, inr, min,
  Bool-cases, ◌||◌, true, false, none, some, List, [], ◌∷◌, ◌++◌, length, take, drop, replicate,
  splice, get_or, done, panic, write-eq-done, slice-eq-done, sub-eq-done, ok, u16_max, u32_max,
  arith, drop_beyond, append-nil, take_of_length, if◌then◌else◌, lt→ltb, length-replicate,
  length-splice, take-append, length-append,
}
use pcap2socks.Net.{SocketAddr}
use pcap2socks.Socks.Client.{
  SocksOption, SocksRecvHalf, datagram, octets, of_octets, recv_from, received, read_datagram, bind,
  Bound, granted, ip_v4, is_private, header_size,
}

abbrev framed : List ℕ → SocketAddr → List ℕ
framed payload dst = 0 ∷ 0 ∷ 0 ∷ 1 ∷ (octets dst.ip ++ dst.port / 256 ∷ dst.port % 256 ∷ payload)

datagram-eq-framed :
    (payload : List ℕ) (dst : SocketAddr) → datagram payload dst ≡ done (framed payload dst)
unfolding datagram
datagram-eq-framed payload dst =
    let n = length payload in
    let e : 10 + n ≡ suc (suc (suc (suc (suc (suc (suc (suc (suc (suc n))))))))) = omega arith in
    let zeros : List ℕ = replicate n 0 in
    let z : length zeros ≡ n = length-replicate n 0 in
    rw
      (
        e,
        write-eq-done (0 ∷ 0 ∷ 0 ∷ 0 ∷ 0 ∷ 0 ∷ 0 ∷ 0 ∷ 0 ∷ 0 ∷ zeros) 3 4 (1 ∷ []) refl
            (omega arith),
        write-eq-done (0 ∷ 0 ∷ 0 ∷ 1 ∷ 0 ∷ 0 ∷ 0 ∷ 0 ∷ 0 ∷ 0 ∷ zeros) 4 8 (octets dst.ip) refl
            (omega arith),
        write-eq-done (0 ∷ 0 ∷ 0 ∷ 1 ∷ (octets dst.ip ++ 0 ∷ 0 ∷ zeros)) 8 9 (dst.port / 256 ∷ [])
            refl (omega arith),
        write-eq-done (0 ∷ 0 ∷ 0 ∷ 1 ∷ (octets dst.ip ++ dst.port / 256 ∷ 0 ∷ zeros)) 9 10
            (dst.port % 256 ∷ []) refl (omega arith),
        write-eq-done (framed zeros dst) 10 (length (framed zeros dst)) payload (omega (arith, z))
            (omega arith),
        drop_beyond (10 + n) (framed zeros dst) (omega (arith, z)),
        append-nil payload,
      )
      refl

read_datagram-framed :
    (payload rest buffer : List ℕ) (dst : SocketAddr)
    → length payload ≤ length buffer
    → dst.ip ≤ u32_max
    → dst.port ≤ u16_max
    → read_datagram
        (record { buffer = framed payload dst ++ rest })
        (length (framed payload dst))
        buffer
      ≡ done (splice buffer 0 payload, length payload, dst)
unfolding read_datagram
read_datagram-framed payload rest buffer dst room ip port =
    let size : ℕ = length (framed payload dst) in
    let n : size - 10 ≡ length payload = omega arith in
    let all = length-append (framed payload dst) rest in
    let same : record {
      ip =
          of_octets (dst.ip / 16777216 % 256) (dst.ip / 65536 % 256) (dst.ip / 256 % 256)
            (dst.ip % 256);
      port = dst.port / 256 * 256 + dst.port % 256;
    }
        ≡ dst =
      ground arith in
    rw
      (
        sub-eq-done size 10 (omega arith),
        slice-eq-done (framed payload dst ++ rest) 10 size (omega arith) (omega (arith, all)),
        n,
        take-append payload rest (length payload) refl,
        write-eq-done buffer 0 (length payload) payload (omega arith) room,
      )
      (ap (λ addr. done (splice buffer 0 payload, length payload, addr)) same)

-- A datagram that the buffer holds is not cut.
received_whole :
    (r : SocksRecvHalf) (bytes : List ℕ)
    → length bytes ≤ length r.buffer
    → received r bytes ≡ (record { buffer = splice r.buffer 0 bytes }, length bytes)
unfolding received
received_whole r bytes h =
    let all : min (length r.buffer) (length bytes) ≡ length bytes = omega arith in
    rw (all, take_of_length bytes (length bytes) refl) refl

-- With a buffer of 65,535 bytes, a payload that fits in a datagram is sent to the server in a form
-- that is received with the same payload, at the start of the caller's buffer if that has room, the
-- same size and the same address.
pub recv_from-datagram :
    (r : SocksRecvHalf) (buffer payload : List ℕ) (dst : SocketAddr)
    → length r.buffer ≡ u16_max
    → header_size + length payload ≤ u16_max
    → length payload ≤ length buffer
    → dst.ip ≤ u32_max
    → dst.port ≤ u16_max
    → (bytes : List ℕ) × (r' : SocksRecvHalf) × (datagram payload dst ≡ done bytes)
      × (recv_from r buffer (ok bytes)
          ≡ done (r', splice buffer 0 payload, ok (length payload, dst)))
      × (length r'.buffer ≡ u16_max)
unfolding recv_from
recv_from-datagram r buffer payload dst whole fits room ip port =
    let bytes : List ℕ = framed payload dst in
    (
      bytes,
      record { buffer = splice r.buffer 0 bytes },
      datagram-eq-framed payload dst,
      rw
          (
            received_whole r bytes (omega arith),
            read_datagram-framed payload (drop (0 + length bytes) r.buffer) buffer dst room ip port,
          )
          refl,
      length-splice r.buffer 0 bytes (omega arith) ∙ whole,
    )

-- A datagram that is shorter than the header panics the call.
pub recv_from_short :
    (r : SocksRecvHalf) (buffer bytes : List ℕ)
    → length bytes < header_size
    → recv_from r buffer (ok bytes) ≡ panic
unfolding recv_from received read_datagram
recv_from_short r buffer bytes h =
    elim (Bool-cases
      (get_or (splice r.buffer 0 (take (min (length r.buffer) (length bytes)) bytes)) 3 0 == 1)) [
        | inl ipv4 ↦ rw (ipv4, lt→ltb (min (length r.buffer) (length bytes)) 10 (omega arith)) refl
        | inr not_ipv4 ↦ rw not_ipv4 refl
      ]

abbrev pub peer : Bound → SocketAddr → SocketAddr
peer b addr = elim b.rewritten [ none ↦ addr | some next ↦ next ]

-- Where every call succeeds and the server names an address of IPv4, a port is bound. Datagrams go
-- to the port that was named, at the address that was named or at that of the server. They go to a
-- private address only if the server's own is private, or the options force the address that was
-- named.
pub bind_run :
    (remote addr : SocketAddr) (options : SocksOption) (local_port : ℕ)
    → (b : Bound) × (bind remote options (record {
      stream = ok tt;
      local_port = ok local_port;
      proxy_addr = granted (ip_v4 addr);
      connected = λ a. ok tt;
    })
        ≡ done (ok b))
      × (b.local_port ≡ local_port)
      × ((peer b addr).port ≡ addr.port)
      × (((peer b addr).ip ≡ addr.ip) ⊎ ((peer b addr).ip ≡ remote.ip))
      × (is_private (peer b addr).ip ≡ true
          → (is_private remote.ip ≡ true) ⊎ (options.force_associate_bind_addr ≡ true))
unfolding bind
bind_run remote addr options local_port =
    elim (Bool-cases (
      options.force_associate_remote
      || (if options.force_associate_bind_addr then false else is_private addr.ip))) [
        | inl rewritten ↦ rw rewritten (_, refl, refl, refl, inr refl, λ h. inl h)
        | inr kept ↦ rw kept (_, refl, refl, refl, inl refl, λ h. inr (ground arith))
      ]
