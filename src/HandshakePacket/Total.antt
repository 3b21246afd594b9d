-- ===== src/HandshakePacket/Total.antt =====
-- What `from_bytes` does on arbitrary bytes.
use efcp.Prelude.{
  ℕ, zero, suc, ◌/◌, ◌%◌, ◌≤◌, ◌<◌, ◌≡◌, refl, Bool, true, false, List, [], ◌∷◌, Option, arith, ltb,
  length, length-take, drop, All,
}
use efcp.Outcome.{Outcome, IoError, map_err}
use efcp.Outcome.Ensures.{Ensures, Ensures-bind, Ensures-map_err}
use efcp.Text.{Str, is_utf8, from_utf8}
use efcp.Addr.{Addr, IpText, from_str}
use efcp.Addr.Total.{from_str-Ensures}
use efcp.HandshakePacket.Defs.{invalid, next, read_str, read_negotiate, read_addr, from_bytes}
use efcp.HandshakePacket.RoundTrip.{IsText}

abbrev IsByte : ℕ → Type 0
IsByte b = b < 256

-- A result that satisfies `Q`, or the one error of the parser; never a panic.
abbrev pub Returns : {A : Type 0} → (A → Type 0) → Outcome IoError A → Type 0
Returns = Ensures (λ e. e ≡ invalid)

abbrev IsShort : Str → Type 0
IsShort s = (is_utf8 s ≡ true) × (length s ≤ 255)

All-drop : (n : ℕ) (bs : List ℕ) → All IsByte bs → All IsByte (drop n bs)
All-drop zero bs h = h
All-drop (suc n) [] h = h
All-drop (suc n) (b ∷ bs) h = All-drop n bs h.1

abbrev Left : {A : Type 0} → (A → Type 0) → A × List ℕ → Type 0
Left Q (a, bs) = Q a × All IsByte bs

read_str-Returns : (bs : List ℕ) → All IsByte bs → Returns (Left IsShort) (read_str bs)
unfolding read_str next from_utf8
read_str-Returns [] h = refl
read_str-Returns (len ∷ rest) h = ground (arith, length-take len rest, All-drop len rest h.1)

read_negotiate-Returns :
    (ty : ℕ) (bs : List ℕ) → All IsByte bs → Returns (Left IsText) (read_negotiate ty bs)
unfolding read_negotiate
read_negotiate-Returns zero bs h = (tt, h)
read_negotiate-Returns (suc zero) bs h =
    Ensures-bind _ (Left IsShort) (Left IsText) (read_str bs) _ (read_str-Returns bs h) λ r s. s
read_negotiate-Returns (suc (suc zero)) bs h = (tt, h)
read_negotiate-Returns (suc (suc (suc zero))) bs h = (tt, h)
read_negotiate-Returns (suc (suc (suc (suc n)))) bs h = refl

module _ (net : IpText) where
  read_addr-Returns :
      (b : Bool) (bs : List ℕ)
      → All IsByte bs
      → Returns (λ (o : Option Addr). Unit {0}) (read_addr net b bs)
  unfolding read_addr
  read_addr-Returns false bs h = tt
  read_addr-Returns true bs h =
      Ensures-bind _ (Left IsShort) _ (read_str bs) _ (read_str-Returns bs h) λ r s.
        Ensures-bind _ _ _ (map_err (λ _. invalid) (from_str net r.0)) _
          (Ensures-map_err (λ _. Unit {0}) _ _ _ (from_str net r.0) (from_str-Ensures net r.0)
            (λ _ _. refl))
          λ a _. tt

  -- On any bytes below 256 `from_bytes` returns a packet or the error `invalid handshake packet`;
  -- it does not panic. A protocol that it returns is UTF-8 of at most 255 bytes.
  pub from_bytes-Returns :
      (bs : List ℕ) → All IsByte bs → Returns (λ p. IsText p.negotiate) (from_bytes net bs)
  unfolding from_bytes next
  from_bytes-Returns [] h = refl
  from_bytes-Returns (ty ∷ rest) h =
      Ensures-bind _ (Left IsText) _ (read_negotiate (ty % 16) rest) _
        (read_negotiate-Returns (ty % 16) rest h.1)
        λ r s.
          Ensures-bind _ (λ _. Unit {0}) _ (read_addr net (ltb 0 (ty / 16)) r.1) _
            (read_addr-Returns (ltb 0 (ty / 16)) r.1 s.1) λ o _. s.0
