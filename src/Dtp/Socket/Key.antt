-- ===== src/Dtp/Socket/Key.antt =====
-- `Channel` of dtp/src/dtp.rs, the key of the maps, with its derived equality.
use efcp.Prelude.{ℕ, ◌≡◌, Bool, true, false, ◌&&◌, ◌==◌, arith}
use efcp.Addr.{Addr, IpAddr, v4, v6}

pub record Channel : Type 0 where
  pub peer_addr : Addr
  pub channel_id : ℕ

abbrev ip_eq : IpAddr → IpAddr → Bool
ip_eq (v4 a) (v4 b) = a == b
ip_eq (v6 a) (v6 b) = a == b
ip_eq (v4 a) (v6 b) = false
ip_eq (v6 a) (v4 b) = false

unfoldable pub chan_eq : Channel → Channel → Bool
chan_eq a b =
    ip_eq a.peer_addr.ip b.peer_addr.ip
    && (a.peer_addr.port == b.peer_addr.port)
    && (a.channel_id == b.channel_id)

ip_eq_refl : (a : IpAddr) → ip_eq a a ≡ true
ip_eq_refl (v4 a) = ground arith
ip_eq_refl (v6 a) = ground arith

ip_eq→eq : (a b : IpAddr) → ip_eq a b ≡ true → a ≡ b
ip_eq→eq (v4 a) (v4 b) h = ground arith
ip_eq→eq (v6 a) (v6 b) h = ground arith
ip_eq→eq (v4 a) (v6 b) h = cc
ip_eq→eq (v6 a) (v4 b) h = cc

pub chan_eq_refl : (a : Channel) → chan_eq a a ≡ true
unfolding chan_eq
chan_eq_refl a = ground (arith, ip_eq_refl a.peer_addr.ip)

pub chan_eq→eq : (a b : Channel) → chan_eq a b ≡ true → a ≡ b
unfolding chan_eq
chan_eq→eq a b h = ground (arith, ip_eq→eq a.peer_addr.ip b.peer_addr.ip)
