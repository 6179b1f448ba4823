-- ===== src/Packet/Tcp.antt =====
-- `Tcp` of src/packet/layer/tcp.rs: the TCP layer, with its options. The options of the crate pnet
-- are an interface: its constructors, their numbers, and the bytes that populating a buffer with an
-- option writes at its start. The checksum and the other fields that are 0 are left out, and so is
-- the serialization of the layer, which is pnet's.
pub mod Options
mod Laws
mod Tests
use pcap2socks.Base.{
  ℕ, zero, suc, ◌+◌, ◌-◌, ◌*◌, ◌/◌, min, ◌==◌, ltb, Bool, true, false, not, ◌&&◌, Option, none,
  some, List, [], ◌∷◌, ◌++◌, length, take, drop, get_or, replicate, splice, Run, done, ◌>>=◌, sub,
  slice, if◌then◌else◌,
}
use pcap2socks.Net.{Ipv4Addr}
use Options.{
  OptionNumber, mss_number, wscale_number, sack_permitted, sack_number, timestamps, TcpOptions,
}

pub record TcpFlags : Type 0 where
  pub syn : Bool
  pub rst : Bool
  pub fin : Bool
  pub ack : Bool

pub record Tcp (O : TcpOptions) : Type 0 where
  pub source : ℕ
  pub destination : ℕ
  pub sequence : ℕ
  pub acknowledgement : ℕ
  pub data_offset : ℕ
  pub flags : TcpFlags
  pub window : ℕ
  pub options : List O.TcpOption
  pub src : Ipv4Addr
  pub dst : Ipv4Addr

abbrev pub only_ack : TcpFlags
only_ack = record { syn = false; rst = false; fin = false; ack = true }

-- The edges of SACKs in one list.
abbrev pub edges : List (ℕ × ℕ) → List ℕ
edges [] = []
edges ((left, right) ∷ sacks) = left ∷ right ∷ edges sacks

-- `bytes_to_u16` and `bytes_to_u32`: at most two or four bytes, the first the highest.
abbrev pub big_endian : ℕ → List ℕ → ℕ
big_endian result [] = result
big_endian result (byte ∷ bytes) = big_endian (result * 256 + byte) bytes

unfoldable pub bytes_to_u16 : List ℕ → ℕ
bytes_to_u16 bytes = big_endian 0 (take (min 2 (length bytes)) bytes)

unfoldable pub bytes_to_u32 : List ℕ → ℕ
bytes_to_u32 bytes = big_endian 0 (take (min 4 (length bytes)) bytes)

abbrev pub buffer_40 : List ℕ
buffer_40 = replicate 40 0

-- The pairs from the `i`-th on.
unfoldable pub read_pairs : ℕ → ℕ → List ℕ → Run (List (ℕ × ℕ))
unfolding bytes_to_u32
read_pairs zero i buffer = done []
read_pairs (suc n) i buffer = do
  left ← slice buffer (2 + 8 * i) (2 + 8 * i + 4)
  right ← slice buffer (2 + 8 * i + 4) (2 + 8 * i + 8)
  rest ← read_pairs n (i + 1) buffer
  done ((bytes_to_u32 left, bytes_to_u32 right) ∷ rest)

module _ (O : TcpOptions) where
  -- The options of an acknowledgement, and the words that they take in the header.
  unfoldable pub ack_options : Option (List (ℕ × ℕ)) → Option (ℕ × ℕ) → ℕ × List O.TcpOption
  ack_options (some (sack ∷ sacks)) (some (value, echo)) =
      let vector = edges (take (min 3 (length (sack ∷ sacks))) (sack ∷ sacks)) in
      (3 + length vector, O.timestamp value echo ∷ O.selective_ack vector ∷ [])
  ack_options (some (sack ∷ sacks)) none =
      let vector = edges (take (min 4 (length (sack ∷ sacks))) (sack ∷ sacks)) in
      (1 + length vector, O.nop ∷ O.nop ∷ O.selective_ack vector ∷ [])
  ack_options (some []) (some (value, echo)) = (3, O.nop ∷ O.nop ∷ O.timestamp value echo ∷ [])
  ack_options none (some (value, echo)) = (3, O.nop ∷ O.nop ∷ O.timestamp value echo ∷ [])
  ack_options (some []) none = (0, [])
  ack_options none none = (0, [])

  unfoldable pub new_ack : ℕ → ℕ → ℕ → ℕ → ℕ → Option (List (ℕ × ℕ)) → Option (ℕ × ℕ) → Tcp O
  unfolding ack_options
  new_ack src dst sequence acknowledgement window sacks ts =
      let (words, options) = ack_options sacks ts in
      record {
        source = src;
        destination = dst;
        sequence = sequence;
        acknowledgement = acknowledgement;
        data_offset = 5 + words;
        flags = only_ack;
        window = window;
        options = options;
        src = 0;
        dst = 0;
      }

  -- Options are pushed, and the words that they take counted.
  unfoldable pub push : Tcp O → ℕ → List O.TcpOption → Tcp O
  push tcp words options = record tcp {
    data_offset = tcp.data_offset + words;
    options = tcp.options ++ options;
  }

  unfoldable pub push_mss : Tcp O → Option ℕ → Tcp O
  unfolding push
  push_mss tcp none = tcp
  push_mss tcp (some mss) = push tcp 1 (O.mss mss ∷ [])

  unfoldable pub push_wscale : Tcp O → Option ℕ → Tcp O
  unfolding push
  push_wscale tcp none = tcp
  push_wscale tcp (some wscale) = push tcp 1 (O.nop ∷ O.wscale wscale ∷ [])

  unfoldable pub push_sack_perm : Tcp O → Bool → Option (ℕ × ℕ) → Tcp O
  unfolding push
  push_sack_perm tcp true (some (value, echo)) =
      push tcp 3 (O.sack_perm ∷ O.timestamp value echo ∷ [])
  push_sack_perm tcp true none = push tcp 1 (O.nop ∷ O.nop ∷ O.sack_perm ∷ [])
  push_sack_perm tcp false (some (value, echo)) =
      push tcp 3 (O.nop ∷ O.nop ∷ O.timestamp value echo ∷ [])
  push_sack_perm tcp false none = tcp

  unfoldable pub new_ack_syn :
      ℕ → ℕ → ℕ → ℕ → ℕ → Option ℕ → Option ℕ → Bool → Option (ℕ × ℕ) → Tcp O
  unfolding new_ack push_mss push_wscale push_sack_perm
  new_ack_syn src dst sequence acknowledgement window mss wscale sack_perm ts =
      let tcp = new_ack src dst sequence acknowledgement window none none in
      let opened : Tcp O = record tcp { flags = record tcp.flags { syn = true } } in
      push_sack_perm (push_wscale (push_mss opened mss) wscale) sack_perm ts

  unfoldable pub new_rst : ℕ → ℕ → ℕ → ℕ → ℕ → Option (ℕ × ℕ) → Tcp O
  unfolding new_ack
  new_rst src dst sequence acknowledgement window ts =
      record (new_ack src dst sequence acknowledgement window none ts) {
        flags = record { syn = false; rst = true; fin = false; ack = false };
      }

  unfoldable pub new_ack_rst : ℕ → ℕ → ℕ → ℕ → ℕ → Option (ℕ × ℕ) → Tcp O
  unfolding new_rst
  new_ack_rst src dst sequence acknowledgement window ts =
      let tcp = new_rst src dst sequence acknowledgement window ts in
      record tcp { flags = record tcp.flags { ack = true } }

  unfoldable pub new_ack_fin : ℕ → ℕ → ℕ → ℕ → ℕ → Option (ℕ × ℕ) → Tcp O
  unfolding new_ack
  new_ack_fin src dst sequence acknowledgement window ts =
      let tcp = new_ack src dst sequence acknowledgement window none ts in
      record tcp { flags = record tcp.flags { fin = true } }

  unfoldable pub new_fin : ℕ → ℕ → ℕ → ℕ → ℕ → Option (ℕ × ℕ) → Tcp O
  unfolding new_ack
  new_fin src dst sequence acknowledgement window ts =
      record (new_ack src dst sequence acknowledgement window none ts) {
        flags = record { syn = false; rst = false; fin = true; ack = false };
      }

  -- The addresses of the IPv4 layer.
  unfoldable pub set_ipv4_layer : Tcp O → Ipv4Addr → Ipv4Addr → Tcp O
  set_ipv4_layer tcp src dst = record tcp { src = src; dst = dst }

  -- `populate`
  unfoldable pub populate : List ℕ → O.TcpOption → List ℕ
  populate buffer option = splice buffer 0 (O.bytes option)

  -- The loop of the getters: the options go through one buffer, and the first with the number is
  -- read from it.
  unfoldable pub read_option :
      {A : Type 0}
      → (OptionNumber → Bool)
      → (List ℕ → Run A)
      → List ℕ
      → List O.TcpOption
      → Run (Option A)
  unfolding populate
  read_option is_wanted read buffer [] = done none
  read_option is_wanted read buffer (option ∷ options) =
      let rest = read_option is_wanted read (populate buffer option) options in
      if is_wanted (O.number option)
      then (do value ← read (populate buffer option); done (some value))
      else rest

  unfoldable pub mss : Tcp O → Run (Option ℕ)
  mss tcp =
      read_option (λ n. elim n [ mss_number ↦ true | _ ↦ false ])
        (λ buffer. do bytes ← slice buffer 2 4; done (bytes_to_u16 bytes)) buffer_40 tcp.options

  unfoldable pub wscale : Tcp O → Run (Option ℕ)
  wscale tcp =
      read_option (λ n. elim n [ wscale_number ↦ true | _ ↦ false ])
        (λ buffer. done (get_or buffer 2 0)) buffer_40 tcp.options

  unfoldable pub sack : Tcp O → Run (Option (List (ℕ × ℕ)))
  unfolding read_pairs
  sack tcp =
      read_option (λ n. elim n [ sack_number ↦ true | _ ↦ false ])
        (λ buffer. do size ← sub (get_or buffer 1 0) 2; read_pairs (size / 8) 0 buffer) buffer_40
        tcp.options

  unfoldable pub ts : Tcp O → Run (Option ℕ)
  ts tcp =
      read_option (λ n. elim n [ timestamps ↦ true | _ ↦ false ])
        (λ buffer. do bytes ← slice buffer 2 6; done (bytes_to_u32 bytes)) buffer_40 tcp.options

  unfoldable pub ts_ecr : Tcp O → Run (Option ℕ)
  ts_ecr tcp =
      read_option (λ n. elim n [ timestamps ↦ true | _ ↦ false ])
        (λ buffer. do bytes ← slice buffer 6 10; done (bytes_to_u32 bytes)) buffer_40 tcp.options

  unfoldable pub has_sack_perm : List O.TcpOption → Bool
  has_sack_perm [] = false
  has_sack_perm (option ∷ options) = elim (O.number option) [
    | sack_permitted ↦ true
    | _ ↦ has_sack_perm options
  ]

  unfoldable pub is_sack_perm : Tcp O → Bool
  unfolding has_sack_perm
  is_sack_perm tcp = has_sack_perm tcp.options
