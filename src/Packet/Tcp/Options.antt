-- ===== src/Packet/Tcp/Options.antt =====
-- The TCP options of the crate pnet, by what its documentation says: the encoding is that of RFC
-- 793, RFC 2018 and RFC 7323, whose numbers are constants of pnet.
use pcap2socks.Base.{ℕ, ◌+◌, ◌*◌, ◌/◌, ◌%◌, ◌≡◌, List, [], ◌∷◌, ◌++◌, length}

-- `TcpOptionNumbers`, and the numbers that have no name here.
pub data OptionNumber : Type 0 where
  nop_number mss_number wscale_number sack_permitted sack_number timestamps : OptionNumber
  other_number : ℕ → OptionNumber

-- A `u32` as four bytes, the highest first.
abbrev pub u32_bytes : ℕ → List ℕ
u32_bytes n = n / 16777216 % 256 ∷ n / 65536 % 256 ∷ n / 256 % 256 ∷ n % 256 ∷ []

abbrev pub all_u32_bytes : List ℕ → List ℕ
all_u32_bytes [] = []
all_u32_bytes (n ∷ ns) = u32_bytes n ++ all_u32_bytes ns

pub record TcpOptions : Type 1 where
  pub TcpOption : Type 0
  pub nop : TcpOption
  pub mss : ℕ → TcpOption
  pub wscale : ℕ → TcpOption
  pub sack_perm : TcpOption
  pub selective_ack : List ℕ → TcpOption
  pub timestamp : ℕ → ℕ → TcpOption
  pub number : TcpOption → OptionNumber
  pub bytes : TcpOption → List ℕ
  pub number-nop : number nop ≡ nop_number
  pub number-mss : (n : ℕ) → number (mss n) ≡ mss_number
  pub number-wscale : (n : ℕ) → number (wscale n) ≡ wscale_number
  pub number-sack_perm : number sack_perm ≡ sack_permitted
  pub number-selective_ack : (l : List ℕ) → number (selective_ack l) ≡ sack_number
  pub number-timestamp : (value echo : ℕ) → number (timestamp value echo) ≡ timestamps
  pub bytes-nop : bytes nop ≡ 1 ∷ []
  pub bytes-mss : (n : ℕ) → bytes (mss n) ≡ 2 ∷ 4 ∷ n / 256 % 256 ∷ n % 256 ∷ []
  pub bytes-wscale : (n : ℕ) → bytes (wscale n) ≡ 3 ∷ 3 ∷ n ∷ []
  pub bytes-sack_perm : bytes sack_perm ≡ 4 ∷ 2 ∷ []
  pub bytes-selective_ack :
      (l : List ℕ) → bytes (selective_ack l) ≡ (5 ∷ (2 + 4 * length l) ∷ all_u32_bytes l)
  pub bytes-timestamp :
      (value echo : ℕ) → bytes (timestamp value echo) ≡ 8 ∷ 10 ∷ (u32_bytes value ++ u32_bytes echo)
