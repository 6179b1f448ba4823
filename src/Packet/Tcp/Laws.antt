-- ===== src/Packet/Tcp/Laws.antt =====
-- What the constructors of the TCP layer write in its options, the getters read.
use pcap2socks.Base.{
  ℕ, ◌+◌, ◌*◌, ◌/◌, ◌%◌, ◌≤◌, ◌≡◌, refl, sym, ◌∙◌, ap, ap₂, min, Bool, true, false, Option, none,
  some, List, [], ◌∷◌, ◌++◌, length, take, get_or, append-nil, Run, done, ◌>>=◌, slice, sub,
  sub-eq-done, ◌-◌, arith, u16_max, u32_max,
}
use pcap2socks.Packet.Tcp.{
  Tcp, big_endian, edges, bytes_to_u16, bytes_to_u32, buffer_40, populate, read_option, read_pairs,
  new_ack, new_ack_syn, push, push_mss, push_wscale, push_sack_perm, ack_options, mss, wscale, sack,
}
use pcap2socks.Packet.Tcp.Options.{
  OptionNumber, nop_number, mss_number, wscale_number, sack_number, timestamps, u32_bytes,
  TcpOptions,
}

u16_back : (n : ℕ) → n ≤ u16_max → (0 * 256 + n / 256 % 256) * 256 + n % 256 ≡ n
u16_back n h = omega arith

u32_back :
    (n : ℕ)
    → n ≤ u32_max
    → (((0 * 256 + n / 16777216 % 256) * 256 + n / 65536 % 256) * 256 + n / 256 % 256) * 256
        + n % 256
      ≡ n
u32_back n h = omega arith

-- How many SACKs there is room for.
abbrev pub sack_limit : Option (ℕ × ℕ) → ℕ
sack_limit none = 4
sack_limit (some ts) = 3

-- Edges that are sequence numbers.
abbrev pub AreWords : List (ℕ × ℕ) → Type 0
AreWords [] = Unit {0}
AreWords ((left, right) ∷ sacks) = ((left ≤ u32_max) × (right ≤ u32_max)) × AreWords sacks

abbrev pair_read : ℕ × ℕ → ℕ × ℕ
pair_read (left, right) = (big_endian 0 (u32_bytes left), big_endian 0 (u32_bytes right))

pair_back : (p : ℕ × ℕ) → (p.0 ≤ u32_max) × (p.1 ≤ u32_max) → pair_read p ≡ p
pair_back (left, right) (h, k) = ap₂ (λ x y. (x, y)) (u32_back left h) (u32_back right k)

module _ (O : TcpOptions) where
  abbrev opened_with : ℕ → ℕ → ℕ → ℕ → ℕ → Option ℕ → Tcp O
  opened_with src dst sequence acknowledgement window m =
      let tcp = new_ack O src dst sequence acknowledgement window none none in
      push_mss O (record tcp { flags = record tcp.flags { syn = true } }) m

  -- An option that is not wanted is passed over, and one that is wanted is read.
  read_option_skip :
      {A : Type 0} (is_wanted : OptionNumber → Bool) (read : List ℕ → Run A) (buffer : List ℕ)
      (option : O.TcpOption) (options : List O.TcpOption) (n : OptionNumber)
      → O.number option ≡ n
      → is_wanted n ≡ false
      → read_option O is_wanted read buffer (option ∷ options)
        ≡ read_option O is_wanted read (populate O buffer option) options
  unfolding read_option
  read_option_skip is_wanted read buffer option options n e h = rw (e, h) refl

  read_option_hit :
      {A : Type 0} (is_wanted : OptionNumber → Bool) (read : List ℕ → Run A) (buffer : List ℕ)
      (option : O.TcpOption) (options : List O.TcpOption) (n : OptionNumber) (a : A)
      → O.number option ≡ n
      → is_wanted n ≡ true
      → read (populate O buffer option) ≡ done a
      → read_option O is_wanted read buffer (option ∷ options) ≡ done (some a)
  unfolding read_option
  read_option_hit is_wanted read buffer option options n a e h r = rw (e, h, r) refl

  options-push_wscale :
      (tcp : Tcp O) (scale : Option ℕ)
      → (rest : List O.TcpOption) × ((push_wscale O tcp scale).options ≡ tcp.options ++ rest)
  unfolding push_wscale push
  options-push_wscale tcp none = ([], sym (append-nil tcp.options))
  options-push_wscale tcp (some n) = (O.nop ∷ O.wscale n ∷ [], refl)

  options-push_sack_perm :
      (tcp : Tcp O) (sack_perm : Bool) (ts : Option (ℕ × ℕ))
      → (rest : List O.TcpOption) × ((push_sack_perm O tcp sack_perm ts).options
          ≡ tcp.options ++ rest)
  unfolding push_sack_perm push
  options-push_sack_perm tcp true (some (value, echo)) =
      (O.sack_perm ∷ O.timestamp value echo ∷ [], refl)
  options-push_sack_perm tcp true none = (O.nop ∷ O.nop ∷ O.sack_perm ∷ [], refl)
  options-push_sack_perm tcp false (some (value, echo)) =
      (O.nop ∷ O.nop ∷ O.timestamp value echo ∷ [], refl)
  options-push_sack_perm tcp false none = ([], sym (append-nil tcp.options))

  read_mss :
      (m : ℕ) (options : List O.TcpOption)
      → m ≤ u16_max
      → read_option O
          (λ n. elim n [ mss_number ↦ true | _ ↦ false ])
          (λ buffer. do bytes ← slice buffer 2 4; done (bytes_to_u16 bytes))
          buffer_40
          (O.mss m ∷ options)
        ≡ done (some m)
  unfolding populate slice bytes_to_u16
  read_mss m options h =
      read_option_hit _ _ buffer_40 (O.mss m) options mss_number m (O.number-mss m) refl
        (rw (O.bytes-mss m) (ap done (u16_back m h)))

  -- The MSS that an ACK/SYN is made with is the one that is read from it.
  pub mss-new_ack_syn :
      (src dst sequence acknowledgement window m : ℕ) (scale : Option ℕ) (sack_perm : Bool)
      (ts : Option (ℕ × ℕ))
      → m ≤ u16_max
      → mss O (new_ack_syn O src dst sequence acknowledgement window (some m) scale sack_perm ts)
        ≡ done (some m)
  unfolding mss new_ack_syn new_ack ack_options push_mss push
  mss-new_ack_syn src dst sequence acknowledgement window m scale sack_perm ts h =
      let opened = opened_with src dst sequence acknowledgement window (some m) in
      let (a, e) = options-push_wscale opened scale in
      let (b, e') = options-push_sack_perm (push_wscale O opened scale) sack_perm ts in
      rw (e', e) (read_mss m (a ++ b) h)

  read_wscale :
      (scale : ℕ) (buffer : List ℕ) (options : List O.TcpOption)
      → read_option O
          (λ n. elim n [ wscale_number ↦ true | _ ↦ false ])
          (λ buffer. done (get_or buffer 2 0))
          buffer
          (O.nop ∷ O.wscale scale ∷ options)
        ≡ done (some scale)
  unfolding populate
  read_wscale scale buffer options =
      read_option_skip _ _ buffer O.nop (O.wscale scale ∷ options) nop_number O.number-nop refl
      ∙ read_option_hit _ _ (populate O buffer O.nop) (O.wscale scale) options wscale_number scale
          (O.number-wscale scale) refl (rw (O.bytes-wscale scale) refl)

  -- The scale that an ACK/SYN is made with is the one that is read from it.
  pub wscale-new_ack_syn :
      (src dst sequence acknowledgement window : ℕ) (m : Option ℕ) (scale : ℕ) (sack_perm : Bool)
      (ts : Option (ℕ × ℕ))
      → wscale O (new_ack_syn O src dst sequence acknowledgement window m (some scale) sack_perm ts)
        ≡ done (some scale)
  unfolding wscale new_ack_syn new_ack ack_options push_mss push_wscale push
  wscale-new_ack_syn src dst sequence acknowledgement window none scale sack_perm ts =
      let opened = opened_with src dst sequence acknowledgement window none in
      let (rest, e) = options-push_sack_perm (push_wscale O opened (some scale)) sack_perm ts in
      rw e (read_wscale scale buffer_40 rest)
  wscale-new_ack_syn src dst sequence acknowledgement window (some m) scale sack_perm ts =
      let opened = opened_with src dst sequence acknowledgement window (some m) in
      let (rest, e) = options-push_sack_perm (push_wscale O opened (some scale)) sack_perm ts in
      rw e (
        read_option_skip _ _ buffer_40 (O.mss m) (O.nop ∷ O.wscale scale ∷ rest) mss_number
          (O.number-mss m) refl
        ∙ read_wscale scale (populate O buffer_40 (O.mss m)) rest)

  -- The getter of a `selective_ack` behind two `nop`s.
  read_sack :
      (vector : List ℕ) (sacks : List (ℕ × ℕ))
      → read_pairs
          (4 * length vector / 8)
          0
          (populate O (populate O (populate O buffer_40 O.nop) O.nop) (O.selective_ack vector))
        ≡ done sacks
      → read_option O
          (λ n. elim n [ sack_number ↦ true | _ ↦ false ])
          (λ buffer. do size ← sub (get_or buffer 1 0) 2; read_pairs (size / 8) 0 buffer)
          buffer_40
          (O.nop ∷ O.nop ∷ O.selective_ack vector ∷ [])
        ≡ done (some sacks)
  unfolding populate
  read_sack vector sacks h =
      let filled =
        populate O (populate O (populate O buffer_40 O.nop) O.nop) (O.selective_ack vector) in
      let second : get_or filled 1 0 ≡ 2 + 4 * length vector =
        rw (O.bytes-selective_ack vector) refl in
      let two_off : 2 + 4 * length vector - 2 ≡ 4 * length vector = omega arith in
      read_option_skip _ _ buffer_40 O.nop _ nop_number O.number-nop refl
      ∙ read_option_skip _ _ (populate O buffer_40 O.nop) O.nop _ nop_number O.number-nop refl
      ∙ read_option_hit _ _ (populate O (populate O buffer_40 O.nop) O.nop) (O.selective_ack vector)
          [] sack_number sacks (O.number-selective_ack vector) refl
          (rw (second, sub-eq-done (2 + 4 * length vector) 2 (omega arith), two_off) h)

  sack-new_ack_without :
      (src dst sequence acknowledgement window : ℕ) (a : ℕ × ℕ) (sacks : List (ℕ × ℕ))
      → AreWords (a ∷ sacks)
      → sack O (new_ack O src dst sequence acknowledgement window (some (a ∷ sacks)) none)
        ≡ done (some (take 4 (a ∷ sacks)))
  unfolding sack new_ack ack_options populate slice bytes_to_u32 read_pairs
  sack-new_ack_without src dst sequence acknowledgement window a [] h =
      read_sack (edges (a ∷ [])) (a ∷ []) (
        rw (O.bytes-selective_ack (edges (a ∷ [])), O.bytes-nop)
          (ap done (ap₂ ◌∷◌ (pair_back a h.0) refl)))
  sack-new_ack_without src dst sequence acknowledgement window a (b ∷ []) h =
      read_sack (edges (a ∷ b ∷ [])) (a ∷ b ∷ []) (
        rw (O.bytes-selective_ack (edges (a ∷ b ∷ [])), O.bytes-nop)
          (ap done (ap₂ ◌∷◌ (pair_back a h.0) (ap₂ ◌∷◌ (pair_back b h.1.0) refl))))
  sack-new_ack_without src dst sequence acknowledgement window a (b ∷ c ∷ []) h =
      read_sack (edges (a ∷ b ∷ c ∷ [])) (a ∷ b ∷ c ∷ []) (
        rw (O.bytes-selective_ack (edges (a ∷ b ∷ c ∷ [])), O.bytes-nop)
          (ap done (
            ap₂ ◌∷◌ (pair_back a h.0)
              (ap₂ ◌∷◌ (pair_back b h.1.0) (ap₂ ◌∷◌ (pair_back c h.1.1.0) refl)))))
  sack-new_ack_without src dst sequence acknowledgement window a (b ∷ c ∷ d ∷ rest) h =
      let most : min 4 (length (a ∷ b ∷ c ∷ d ∷ rest)) ≡ 4 = omega arith in
      rw most (
        read_sack (edges (a ∷ b ∷ c ∷ d ∷ [])) (a ∷ b ∷ c ∷ d ∷ []) (
          rw (O.bytes-selective_ack (edges (a ∷ b ∷ c ∷ d ∷ [])), O.bytes-nop)
            (ap done (
              ap₂ ◌∷◌ (pair_back a h.0) (
                ap₂ ◌∷◌ (pair_back b h.1.0)
                  (ap₂ ◌∷◌ (pair_back c h.1.1.0) (ap₂ ◌∷◌ (pair_back d h.1.1.1.0) refl)))))))

  -- The getter of a `selective_ack` behind a timestamp.
  read_sack_ts :
      (value echo : ℕ) (vector : List ℕ) (sacks : List (ℕ × ℕ))
      → read_pairs
          (4 * length vector / 8)
          0
          (populate O (populate O buffer_40 (O.timestamp value echo)) (O.selective_ack vector))
        ≡ done sacks
      → read_option O
          (λ n. elim n [ sack_number ↦ true | _ ↦ false ])
          (λ buffer. do size ← sub (get_or buffer 1 0) 2; read_pairs (size / 8) 0 buffer)
          buffer_40
          (O.timestamp value echo ∷ O.selective_ack vector ∷ [])
        ≡ done (some sacks)
  unfolding populate
  read_sack_ts value echo vector sacks h =
      let stamped = populate O buffer_40 (O.timestamp value echo) in
      let second : get_or (populate O stamped (O.selective_ack vector)) 1 0
          ≡ 2 + 4 * length vector =
        rw (O.bytes-selective_ack vector) refl in
      let two_off : 2 + 4 * length vector - 2 ≡ 4 * length vector = omega arith in
      read_option_skip _ _ buffer_40 (O.timestamp value echo) _ timestamps
        (O.number-timestamp value echo) refl
      ∙ read_option_hit _ _ stamped (O.selective_ack vector) [] sack_number sacks
          (O.number-selective_ack vector) refl
          (rw (second, sub-eq-done (2 + 4 * length vector) 2 (omega arith), two_off) h)

  sack-new_ack_with :
      (src dst sequence acknowledgement window value echo : ℕ) (a : ℕ × ℕ) (sacks : List (ℕ × ℕ))
      → AreWords (a ∷ sacks)
      → sack O (
          new_ack O src dst sequence acknowledgement window (some (a ∷ sacks)) (some (value, echo)))
        ≡ done (some (take 3 (a ∷ sacks)))
  unfolding sack new_ack ack_options populate slice bytes_to_u32 read_pairs
  sack-new_ack_with src dst sequence acknowledgement window value echo a [] h =
      read_sack_ts value echo (edges (a ∷ [])) (a ∷ []) (
        rw (O.bytes-selective_ack (edges (a ∷ [])), O.bytes-timestamp value echo)
          (ap done (ap₂ ◌∷◌ (pair_back a h.0) refl)))
  sack-new_ack_with src dst sequence acknowledgement window value echo a (b ∷ []) h =
      read_sack_ts value echo (edges (a ∷ b ∷ [])) (a ∷ b ∷ []) (
        rw (O.bytes-selective_ack (edges (a ∷ b ∷ [])), O.bytes-timestamp value echo)
          (ap done (ap₂ ◌∷◌ (pair_back a h.0) (ap₂ ◌∷◌ (pair_back b h.1.0) refl))))
  sack-new_ack_with src dst sequence acknowledgement window value echo a (b ∷ c ∷ rest) h =
      let most : min 3 (length (a ∷ b ∷ c ∷ rest)) ≡ 3 = omega arith in
      rw most (
        read_sack_ts value echo (edges (a ∷ b ∷ c ∷ [])) (a ∷ b ∷ c ∷ []) (
          rw (O.bytes-selective_ack (edges (a ∷ b ∷ c ∷ [])), O.bytes-timestamp value echo)
            (ap done (
              ap₂ ◌∷◌ (pair_back a h.0)
                (ap₂ ◌∷◌ (pair_back b h.1.0) (ap₂ ◌∷◌ (pair_back c h.1.1.0) refl))))))

  -- The SACKs that an ACK is made with are read from it, where their edges are words of 32 bits: the
  -- first four of them without a timestamp, and the first three with one.
  pub sack-new_ack :
      (src dst sequence acknowledgement window : ℕ) (a : ℕ × ℕ) (sacks : List (ℕ × ℕ))
      (ts : Option (ℕ × ℕ))
      → AreWords (a ∷ sacks)
      → sack O (new_ack O src dst sequence acknowledgement window (some (a ∷ sacks)) ts)
        ≡ done (some (take (sack_limit ts) (a ∷ sacks)))
  sack-new_ack src dst sequence acknowledgement window a sacks none h =
      sack-new_ack_without src dst sequence acknowledgement window a sacks h
  sack-new_ack src dst sequence acknowledgement window a sacks (some (value, echo)) h =
      sack-new_ack_with src dst sequence acknowledgement window value echo a sacks h
