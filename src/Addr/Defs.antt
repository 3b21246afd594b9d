-- ===== src/Addr/Defs.antt =====
-- The record `Addr` of addr/src/lib.rs, its parser and its printer.
use efcp.Prelude.{ℕ, zero, suc, ◌^◌, ◌<◌, List, [], ◌∷◌, ◌++◌, Option, none, some, if◌then◌else◌}
use efcp.Outcome.{Outcome, ok, err, ◌>>=◌, ok_or, map_err}
use efcp.Bytes.{slice_from}
use efcp.Text.{Str, str_eq, split, decimal, ParseIntError, parse_u16}
use efcp.Addr.Ip.{IpAddr, v4, v6, IpText}

pub record Addr : Type 0 where
  pub ip : IpAddr
  pub port : ℕ

-- The ranges of the fields' types: 32 or 128 bits, and `u16`.
abbrev pub IsIp : IpAddr → Type 0
IsIp (v4 a) = a < 2 ^ 32
IsIp (v6 a) = a < 2 ^ 128

pub record IsAddr (a : Addr) : Type 0 where
  pub ip_fits : IsIp a.ip
  pub port_fits : a.port < 65536

pub data AddrParseError : Type 0 where
  unknown_protocol : AddrParseError
  ip_error : AddrParseError
  port_error : ParseIntError → AddrParseError

-- `std::net::SocketAddr` as a pair of its parts.
abbrev pub SocketAddr : Type 0
SocketAddr = IpAddr × ℕ

unfoldable pub socket_addr : Addr → SocketAddr
socket_addr a = (a.ip, a.port)

-- `impl From<SocketAddr> for Addr`
unfoldable pub from_socket_addr : SocketAddr → Addr
from_socket_addr (ip, port) = record { ip = ip; port = port }

abbrev pub ip4 : Str
ip4 = b'i' ∷ b'p' ∷ b'4' ∷ []

abbrev pub ip6 : Str
ip6 = b'i' ∷ b'p' ∷ b'6' ∷ []

abbrev pub udp : Str
udp = b'u' ∷ b'd' ∷ b'p' ∷ []

-- `[T]::chunks(2)`
unfoldable pub chunks {ℓ} : {A : Type ℓ} → List A → List (List A)
chunks [] = []
chunks (k ∷ []) = (k ∷ []) ∷ []
chunks (k ∷ v ∷ rest) = (k ∷ v ∷ []) ∷ chunks rest

module _ (net : IpText) where
  -- `Some(match *k { "ip4" => .., "ip6" => .., _ => .. })`
  unfoldable pub read_ip : Str → Str → Outcome AddrParseError IpAddr
  read_ip k v =
      if str_eq k ip4
      then (do a ← ok_or (net.parse_v4 v) ip_error; ok (v4 a))
      else if str_eq k ip6
      then (do a ← ok_or (net.parse_v6 v) ip_error; ok (v6 a))
      else err unknown_protocol

  unfoldable pub read_port : Str → Str → Outcome AddrParseError ℕ
  read_port k v = if str_eq k udp then map_err port_error (parse_u16 v) else err unknown_protocol

  -- One round of the `for` loop: the chunk's index, the chunk, and the two variables.
  unfoldable pub read_chunk :
      ℕ → List Str → Option IpAddr × Option ℕ → Outcome AddrParseError (Option IpAddr × Option ℕ)
  unfolding read_ip read_port
  read_chunk zero (k ∷ v ∷ []) (ip, port) = do a ← read_ip k v; ok (some a, port)
  read_chunk (suc zero) (k ∷ v ∷ []) (ip, port) = do n ← read_port k v; ok (ip, some n)
  read_chunk _ _ _ = err unknown_protocol

  unfoldable pub read_chunks :
      ℕ
      → List (List Str)
      → Option IpAddr × Option ℕ
      → Outcome AddrParseError (Option IpAddr × Option ℕ)
  unfolding read_chunk
  read_chunks i [] s = ok s
  read_chunks i (p ∷ ps) s = read_chunk i p s >>= read_chunks (suc i) ps

  -- The `Ok(Self { .. })` at the end.
  unfoldable pub build : Option IpAddr × Option ℕ → Outcome AddrParseError Addr
  build (none, port) = err unknown_protocol
  build (some ip, none) = ok (record { ip = ip; port = 0 })
  build (some ip, some port) = ok (record { ip = ip; port = port })

  unfoldable pub from_str : Str → Outcome AddrParseError Addr
  unfolding read_chunks build chunks
  from_str addr = do
    parts ← slice_from 1 (split b'/' addr)
    s ← read_chunks 0 (chunks parts) (none, none)
    build s

  unfoldable pub print_ip : IpAddr → Str
  print_ip (v4 a) = b'/' ∷ ip4 ++ b'/' ∷ net.print_v4 a
  print_ip (v6 a) = b'/' ∷ ip6 ++ b'/' ∷ net.print_v6 a

  -- `Display`
  unfoldable pub to_string : Addr → Str
  unfolding print_ip
  to_string a = print_ip a.ip ++ (b'/' ∷ udp ++ b'/' ∷ decimal a.port)

  -- `impl ToAddr for &str`; an `Addr` is its own address.
  unfoldable pub to_addr : Str → Outcome AddrParseError Addr
  unfolding from_str
  to_addr s = from_str s
