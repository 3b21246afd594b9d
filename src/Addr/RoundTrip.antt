-- ===== src/Addr/RoundTrip.antt =====
-- The text of an address is read back, is ASCII, and names its protocols.
use efcp.Prelude.{ℕ, ◌<◌, ◌^◌, ◌≡◌, ◌≢◌, [], ◌∷◌, ◌++◌, true, arith, All, All-append}
use efcp.Outcome.{ok}
use efcp.Text.{
  Str, str_eq, split, split-append, split-whole, decimal, decimal-All, IsDigit, parse_u16-decimal,
  IsAscii, is_utf8, is_utf8-ascii,
}
use efcp.Addr.Ip.{IpAddr, v4, v6, IpText, IsPlain}
use efcp.Addr.Defs.{Addr, IsAddr, ip4, ip6, udp, from_str, to_string, print_ip}

no_slash : (s : Str) → All IsPlain s → All (λ c. c ≢ b'/') s
no_slash [] h = tt
no_slash (c ∷ s) h = (h.0.1, no_slash s h.1)

digits-no_slash : (s : Str) → All IsDigit s → All (λ c. c ≢ b'/') s
digits-no_slash [] h = tt
digits-no_slash (c ∷ s) h = (omega arith, digits-no_slash s h.1)

plain-IsAscii : (s : Str) → All IsPlain s → All IsAscii s
plain-IsAscii [] h = tt
plain-IsAscii (c ∷ s) h = (h.0.0, plain-IsAscii s h.1)

digits-IsAscii : (s : Str) → All IsDigit s → All IsAscii s
digits-IsAscii [] h = tt
digits-IsAscii (c ∷ s) h = (omega arith, digits-IsAscii s h.1)

module _ (net : IpText) where
  print-read :
      (ip : IpAddr) (port : ℕ)
      → IsAddr (record { ip = ip; port = port })
      → from_str net (to_string net (record { ip = ip; port = port }))
        ≡ ok (record { ip = ip; port = port })
  unfolding from_str to_string split str_eq
  print-read (v4 i) port h = rw (
    split-append b'/' (net.print_v4 i) _ (no_slash _ (net.plain_v4 i)),
    split-whole b'/' (decimal port) (digits-no_slash _ (decimal-All port)),
    net.read_v4 i h.ip_fits,
    parse_u16-decimal port h.port_fits,
  )
  print-read (v6 i) port h = rw (
    split-append b'/' (net.print_v6 i) _ (no_slash _ (net.plain_v6 i)),
    split-whole b'/' (decimal port) (digits-no_slash _ (decimal-All port)),
    net.read_v6 i h.ip_fits,
    parse_u16-decimal port h.port_fits,
  )

  -- `from_str` reads what `Display` prints as the same address, for every address whose parts are
  -- in the range of their types.
  pub from_str-to_string : (a : Addr) → IsAddr a → from_str net (to_string net a) ≡ ok a
  from_str-to_string a h = print-read a.ip a.port h

  -- An IPv4 address with no `/udp/` part is read with port 0; so for IPv6.
  pub from_str-no_port :
      (i : ℕ)
      → i < 2 ^ 32
      → from_str net (b'/' ∷ ip4 ++ b'/' ∷ net.print_v4 i) ≡ ok (record { ip = v4 i; port = 0 })
  unfolding from_str split str_eq
  from_str-no_port i h =
      rw (split-whole b'/' (net.print_v4 i) (no_slash _ (net.plain_v4 i)), net.read_v4 i h)

  port-IsAscii : (port : ℕ) → All IsAscii (b'/' ∷ udp ++ b'/' ∷ decimal port)
  port-IsAscii port =
      All-append IsAscii (b'/' ∷ udp) (b'/' ∷ decimal port) (omega arith)
        (omega arith, digits-IsAscii _ (decimal-All port))

  ip-IsAscii : (ip : IpAddr) → All IsAscii (print_ip net ip)
  unfolding print_ip
  ip-IsAscii (v4 i) =
      All-append IsAscii (b'/' ∷ ip4) (b'/' ∷ net.print_v4 i) (omega arith)
        (omega arith, plain-IsAscii _ (net.plain_v4 i))
  ip-IsAscii (v6 i) =
      All-append IsAscii (b'/' ∷ ip6) (b'/' ∷ net.print_v6 i) (omega arith)
        (omega arith, plain-IsAscii _ (net.plain_v6 i))

  -- A printed address is ASCII text, and so `core::str::from_utf8` accepts it.
  pub to_string-is_utf8 : (a : Addr) → is_utf8 (to_string net a) ≡ true
  unfolding to_string
  to_string-is_utf8 a =
      is_utf8-ascii _
        (All-append IsAscii (print_ip net a.ip) _ (ip-IsAscii a.ip) (port-IsAscii a.port))
