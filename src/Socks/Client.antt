-- ===== src/Socks/Client.antt =====
-- src/socks/socks/mod.rs: the SOCKS5 client. What the crates async-socks5 and tokio do is an
-- argument: the results of their calls, in the order of the calls.
mod Laws
mod Tests
use Prim.Native.String.{String}
use pcap2socks.Base.{
  ℕ, ◌+◌, ◌*◌, ◌/◌, ◌%◌, leb, ◌==◌, ◌&&◌, ◌||◌, min, if◌then◌else◌, Bool, true, false, Option, none,
  some, List, [], ◌∷◌, length, take, replicate, splice, get_or, Run, done, panic, ◌>>=◌, sub, slice,
  write, Result, ok, err, ErrorKind, other,
}
use pcap2socks.Net.{Ipv4Addr, SocketAddr}

pub record SocksAuth : Type 0 where
  pub username : String
  pub password : String

pub record SocksOption : Type 0 where
  pub force_associate_remote : Bool
  pub force_associate_bind_addr : Bool
  pub auth : Option SocksAuth

-- `async_socks5::Error`, and a result with it.
pub data SocksResult (A : Type 0) : Type 0 where
  granted : A → SocksResult A
  io_error : ErrorKind → SocksResult A
  refused : SocksResult A

-- An error that is not one of input or output becomes one of the kind `Other`.
unfoldable pub as_io : {A : Type 0} → SocksResult A → Result A
as_io (granted a) = ok a
as_io (io_error e) = err e
as_io refused = err other

-- The results of connecting to the server, and of its CONNECT.
unfoldable pub connect : Result (Unit {0}) → SocksResult (Unit {0}) → Result (Unit {0})
unfolding as_io
connect (err e) granted_by = err e
connect (ok stream) granted_by = as_io granted_by

-- `RSV_SIZE` to `DST_PORT_SIZE` together, and `ATYP_IPV4`.
abbrev pub header_size : ℕ
header_size = 10

abbrev pub atyp_ipv4 : ℕ
atyp_ipv4 = 1

-- `octets`, and the address of octets.
abbrev pub octets : Ipv4Addr → List ℕ
octets ip = ip / 16777216 % 256 ∷ ip / 65536 % 256 ∷ ip / 256 % 256 ∷ ip % 256 ∷ []

abbrev pub of_octets : ℕ → ℕ → ℕ → ℕ → Ipv4Addr
of_octets a b c d = ((a * 256 + b) * 256 + c) * 256 + d

-- `SocksSendHalf::send_to`, up to the socket: the datagram for the server.
unfoldable pub datagram : List ℕ → SocketAddr → Run (List ℕ)
datagram payload dst = do
  with_atyp ← write (replicate (header_size + length payload) 0) 3 4 (atyp_ipv4 ∷ [])
  with_addr ← write with_atyp 4 8 (octets dst.ip)
  with_high ← write with_addr 8 9 (dst.port / 256 ∷ [])
  with_port ← write with_high 9 10 (dst.port % 256 ∷ [])
  write with_port 10 (length with_port) payload

-- Its buffer; the connection and the socket have no state here.
pub record SocksRecvHalf : Type 0 where
  pub buffer : List ℕ

unfoldable pub new : SocksRecvHalf
new = record { buffer = replicate 65535 0 }

-- A datagram in the half's buffer, cut where it is longer, and its size.
unfoldable pub received : SocksRecvHalf → List ℕ → SocksRecvHalf × ℕ
received r bytes =
    let n = min (length r.buffer) (length bytes) in
    (record { buffer = splice r.buffer 0 (take n bytes) }, n)

-- What is in the buffer: an address that is not IPv4 is `unreachable!`.
unfoldable pub read_datagram : SocksRecvHalf → ℕ → List ℕ → Run (List ℕ × ℕ × SocketAddr)
read_datagram r n buffer =
    if get_or r.buffer 3 0 == atyp_ipv4
    then (do
      let ip =
          of_octets (get_or r.buffer 4 0) (get_or r.buffer 5 0) (get_or r.buffer 6 0)
            (get_or r.buffer 7 0)
      let addr : SocketAddr = record {
        ip = ip;
        port = get_or r.buffer 8 0 * 256 + get_or r.buffer 9 0;
      }
      size ← sub n header_size
      part ← slice r.buffer header_size n
      buffer' ← write buffer 0 size part
      done (buffer', size, addr))
    else panic

-- `recv_from` with what the socket gives: the half, the caller's buffer and the result.
unfoldable pub recv_from :
    SocksRecvHalf
    → List ℕ
    → Result (List ℕ)
    → Run (SocksRecvHalf × List ℕ × Result (ℕ × SocketAddr))
recv_from r buffer (err e) = done (r, buffer, err e)
recv_from r buffer (ok bytes) = do
  let (r', n) = received r bytes
  (buffer', size, addr) ← read_datagram r' n buffer
  done (r', buffer', ok (size, addr))

-- `Ipv4Addr::is_private`
abbrev pub is_private : Ipv4Addr → Bool
is_private ip = (ip / 16777216 == 10) || ((ip / 1048576 == 2753) || (ip / 65536 == 49320))

-- `AddrKind`, with the port of an address of IPv6.
pub data AddrKind : Type 0 where
  ip_v4 : SocketAddr → AddrKind
  ip_v6 : ℕ → AddrKind
  domain : AddrKind

-- The address that the server names, by its version, whether it is overwritten, and its port.
unfoldable pub is_rewrite : SocksOption → AddrKind → Run Bool
is_rewrite options (ip_v4 addr) = done (
    options.force_associate_remote
    || (if options.force_associate_bind_addr then false else is_private addr.ip))
is_rewrite options (ip_v6 port) =
    if options.force_associate_remote
    then done true
    else (if options.force_associate_bind_addr then panic else done true)
is_rewrite options domain = panic

abbrev pub port_of : AddrKind → ℕ
port_of (ip_v4 addr) = addr.port
port_of (ip_v6 port) = port
port_of domain = 0

-- The results of the calls of `bind`: connecting to the server, binding a local port, the server's
-- ASSOCIATE, and connecting the socket to another address.
pub record Surroundings : Type 0 where
  pub stream : Result (Unit {0})
  pub local_port : Result ℕ
  pub proxy_addr : SocksResult AddrKind
  pub connected : SocketAddr → Result (Unit {0})

-- The half that receives, the local port, and the address that the socket was connected to, if
-- not to the one that the server named.
pub record Bound : Type 0 where
  pub recv_half : SocksRecvHalf
  pub local_port : ℕ
  pub rewritten : Option SocketAddr

-- Once the server has named an address.
unfoldable pub associate :
    SocksOption → SocketAddr → (SocketAddr → Result (Unit {0})) → ℕ → AddrKind → Run (Result Bound)
unfolding is_rewrite new
associate options remote connected local_port proxy_addr = do
  rewrite ← is_rewrite options proxy_addr
  let next_proxy_addr : SocketAddr = record { ip = remote.ip; port = port_of proxy_addr }
  let bound : Bound = record { recv_half = new; local_port = local_port; rewritten = none }
  if rewrite
      then (elim (connected next_proxy_addr) [
        | ok u ↦ done (ok (record bound { rewritten = some next_proxy_addr }))
        | err e ↦ done (err e)
      ])
      else done (ok bound)

unfoldable pub bind : SocketAddr → SocksOption → Surroundings → Run (Result Bound)
unfolding as_io associate
bind remote options e = elim e.stream [
  | err kind ↦ done (err kind)
  | ok stream ↦ elim e.local_port [
    | err kind ↦ done (err kind)
    | ok local_port ↦ elim (as_io e.proxy_addr) [
      | err kind ↦ done (err kind)
      | ok proxy_addr ↦ associate options remote e.connected local_port proxy_addr
    ]
  ]
]
