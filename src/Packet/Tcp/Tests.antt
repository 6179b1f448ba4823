-- ===== src/Packet/Tcp/Tests.antt =====
-- Examples for the TCP layer, with options as a data type.
use pcap2socks.Base.{
  ℕ, ◌+◌, ◌*◌, ◌%◌, ◌/◌, ◌≡◌, refl, some, List, [], ◌∷◌, ◌++◌, length, done, arith,
}
use pcap2socks.Packet.Tcp.{new_ack, sack}
use pcap2socks.Packet.Tcp.Laws.{sack-new_ack}
use pcap2socks.Packet.Tcp.Options.{
  OptionNumber, nop_number, mss_number, wscale_number, sack_permitted, sack_number, timestamps,
  TcpOptions, u32_bytes, all_u32_bytes,
}

data AnOption : Type 0 where
  a_nop a_sack_perm : AnOption
  a_mss a_wscale : ℕ → AnOption
  a_selective_ack : List ℕ → AnOption
  a_timestamp : ℕ → ℕ → AnOption

abbrev number_of : AnOption → OptionNumber
number_of a_nop = nop_number
number_of a_sack_perm = sack_permitted
number_of (a_mss n) = mss_number
number_of (a_wscale n) = wscale_number
number_of (a_selective_ack l) = sack_number
number_of (a_timestamp value echo) = timestamps

abbrev bytes_of : AnOption → List ℕ
bytes_of a_nop = 1 ∷ []
bytes_of a_sack_perm = 4 ∷ 2 ∷ []
bytes_of (a_mss n) = 2 ∷ 4 ∷ n / 256 % 256 ∷ n % 256 ∷ []
bytes_of (a_wscale n) = 3 ∷ 3 ∷ n ∷ []
bytes_of (a_selective_ack l) = 5 ∷ (2 + 4 * length l) ∷ all_u32_bytes l
bytes_of (a_timestamp value echo) = 8 ∷ 10 ∷ (u32_bytes value ++ u32_bytes echo)

abbrev options : TcpOptions
options = record {
  TcpOption = AnOption;
  nop = a_nop;
  mss = a_mss;
  wscale = a_wscale;
  sack_perm = a_sack_perm;
  selective_ack = a_selective_ack;
  timestamp = a_timestamp;
  number = number_of;
  bytes = bytes_of;
  number-nop = refl;
  number-mss = λ n. refl;
  number-wscale = λ n. refl;
  number-sack_perm = refl;
  number-selective_ack = λ l. refl;
  number-timestamp = λ value echo. refl;
  bytes-nop = refl;
  bytes-mss = λ n. refl;
  bytes-wscale = λ n. refl;
  bytes-sack_perm = refl;
  bytes-selective_ack = λ l. refl;
  bytes-timestamp = λ value echo. refl;
}

sack-new_ack_example :
    sack options (
      new_ack options 443 40000 7000 1001 65535
        (some ((1101, 1201) ∷ (1301, 4294967295) ∷ (1501, 1601) ∷ (1701, 1801) ∷ []))
        (some (77, 78)))
    ≡ done (some ((1101, 1201) ∷ (1301, 4294967295) ∷ (1501, 1601) ∷ []))
sack-new_ack_example =
    sack-new_ack options 443 40000 7000 1001 65535 (1101, 1201)
      ((1301, 4294967295) ∷ (1501, 1601) ∷ (1701, 1801) ∷ []) (some (77, 78)) (omega arith)
