-- ===== src/Main/Mask.antt =====
-- The mask of `show_info` of src/main.rs, which the user is to set on the device: the octets where
-- the source and the gateway agree and that the source's own mask keeps, aligned to whole octets.
pub mod Laws
use Prim.Native.Nat.{bit_and, bit_xor}
use pcap2socks.Base.{ℕ, ◌-◌, ◌==◌, if◌then◌else◌, Bool, true, false, not, ◌||◌, List, [], ◌∷◌}
use pcap2socks.Net.{Ipv4Addr}
use pcap2socks.Socks.Client.{octets}

-- `!(src ^ gw) & mask` on octets.
abbrev pub agreeing : ℕ → ℕ → ℕ → ℕ
agreeing src gw mask = bit_and (255 - bit_xor src gw) mask

unfoldable pub all_agreeing : List ℕ → List ℕ → List ℕ → List ℕ
all_agreeing (src ∷ srcs) (gw ∷ gws) (mask ∷ masks) =
    agreeing src gw mask ∷ all_agreeing srcs gws masks
all_agreeing srcs gws masks = []

-- The closure on the octets, with `is_zero`.
unfoldable pub align : Bool → List ℕ → List ℕ
align is_zero [] = []
align is_zero (b ∷ bs) =
    let zero = is_zero || not (b == 255) in (if zero then 0 else b) ∷ align zero bs

-- The octets of the mask.
unfoldable pub mask_octets : Ipv4Addr → Ipv4Addr → Ipv4Addr → List ℕ
unfolding all_agreeing align
mask_octets src gw mask = align false (all_agreeing (octets src) (octets gw) (octets mask))
