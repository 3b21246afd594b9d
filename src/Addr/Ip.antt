-- ===== src/Addr/Ip.antt =====
-- IP addresses of the standard library. An address is the number that its octets make. How the library
-- prints and reads it is a parameter: an `IpText` with what the code relies on.
use efcp.Prelude.{ℕ, ◌^◌, ◌≤◌, ◌<◌, ◌≡◌, ◌≢◌, Option, some, All}
use efcp.Text.{Str}

pub data IpAddr : Type 0 where
  v4 : ℕ → IpAddr
  v6 : ℕ → IpAddr

-- A printed address is ASCII and has no `/`.
abbrev pub IsPlain : ℕ → Type 0
IsPlain c = (c ≤ 0x7f) × (c ≢ b'/')

pub record IpText : Type 0 where
  pub print_v4 : ℕ → Str
  pub print_v6 : ℕ → Str
  pub parse_v4 : Str → Option ℕ
  pub parse_v6 : Str → Option ℕ
  pub read_v4 : (a : ℕ) → a < 2 ^ 32 → parse_v4 (print_v4 a) ≡ some a
  pub read_v6 : (a : ℕ) → a < 2 ^ 128 → parse_v6 (print_v6 a) ≡ some a
  pub plain_v4 : (a : ℕ) → All IsPlain (print_v4 a)
  pub plain_v6 : (a : ℕ) → All IsPlain (print_v6 a)
