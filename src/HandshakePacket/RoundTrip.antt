-- ===== src/HandshakePacket/RoundTrip.antt =====
-- What `to_bytes` writes, `from_bytes` reads.
use Prim.Native.Nat.{bit_or}
use efcp.Prelude.{
  ℕ, ◌-◌, ◌/◌, ◌%◌, ◌≤◌, ◌<◌, ◌≡◌, ◌⊎◌, refl, true, false, List, [], ◌∷◌, ◌++◌, append_assoc,
  Option, none, some, arith, ltb, length, length-append, take-append, le→leb, lt→leb, drop-append,
  inl, inr,
}
use efcp.Outcome.{ok, err}
use efcp.Text.{Str, is_utf8, from_utf8-is_utf8}
use efcp.Addr.{Addr, IpText, IsAddr, to_string}
use efcp.Addr.RoundTrip.{from_str-to_string, to_string-is_utf8}
use efcp.Negotiation.Message.{Message}
use efcp.HandshakePacket.Defs.{
  HandshakePacket, invalid, read_str, read_negotiate, read_addr, from_bytes, write_str,
  write_negotiate, write_addr, to_bytes,
}

-- A `&str` is UTF-8, an address has the ranges of its types, and a length byte counts at most 255.
abbrev pub IsText : Option Message → Type 0
IsText (some (Message.propose protocol)) = (is_utf8 protocol ≡ true) × (length protocol ≤ 255)
IsText _ = Unit

abbrev pub IsShortAddr : IpText → Option Addr → Type 0
IsShortAddr net none = Unit
IsShortAddr net (some a) = IsAddr a × (length (to_string net a) ≤ 255)

pub record IsPacket (net : IpText) (p : HandshakePacket) : Type 0 where
  pub text : IsText p.negotiate
  pub addr : IsShortAddr net p.external_addr

write_str-short : (s : Str) → length s ≤ 255 → write_str s ≡ ok (length s ∷ s)
unfolding write_str
write_str-short s h = rw (le→leb (length s) 255 h)

write_str-long : (s : Str) → 255 < length s → write_str s ≡ err invalid
unfolding write_str
write_str-long s h = rw (lt→leb (length s) 255 h)

read_str-cons : (s tail : Str) → is_utf8 s ≡ true → read_str (length s ∷ s ++ tail) ≡ ok (s, tail)
unfolding read_str
read_str-cons s tail u = rw (
  le→leb (length s) (length (s ++ tail)) (omega (arith, length-append s tail)),
  (let whole : length s - 0 ≡ length s = omega arith in whole),
  take-append s tail,
  drop-append s tail,
  from_utf8-is_utf8 s u,
)

-- The first byte and the rest of the negotiation's part.
abbrev head_of : Option Message → ℕ × List ℕ
head_of none = (0, [])
head_of (some (Message.propose s)) = (1, length s ∷ s)
head_of (some Message.accept) = (2, [])
head_of (some Message.fail) = (3, [])

write_negotiate-head_of : (m : Option Message) → IsText m → write_negotiate m ≡ ok (head_of m)
unfolding write_negotiate
write_negotiate-head_of none h = refl
write_negotiate-head_of (some (Message.propose s)) h = rw (write_str-short s h.1)
write_negotiate-head_of (some Message.accept) h = refl
write_negotiate-head_of (some Message.fail) h = refl

read_negotiate-head_of :
    (m : Option Message) (tail : List ℕ)
    → IsText m
    → read_negotiate (head_of m).0 ((head_of m).1 ++ tail) ≡ ok (m, tail)
unfolding read_negotiate
read_negotiate-head_of none tail h = refl
read_negotiate-head_of (some (Message.propose s)) tail h = rw (read_str-cons s tail h.0)
read_negotiate-head_of (some Message.accept) tail h = refl
read_negotiate-head_of (some Message.fail) tail h = refl

-- The two halves of the first byte, without and with the address bit.
record IsHead (ty : ℕ) : Type 0 where
  low : ty % 16 ≡ ty
  plain : ltb 0 (ty / 16) ≡ false
  low_marked : bit_or ty 0xf0 % 16 ≡ ty
  marked : ltb 0 (bit_or ty 0xf0 / 16) ≡ true

head_of-IsHead : (m : Option Message) → IsHead (head_of m).0
head_of-IsHead none = record { low = refl; plain = refl; low_marked = refl; marked = refl }
head_of-IsHead (some (Message.propose s)) = record {
  low = refl;
  plain = refl;
  low_marked = refl;
  marked = refl;
}
head_of-IsHead (some Message.accept) = record {
  low = refl;
  plain = refl;
  low_marked = refl;
  marked = refl;
}
head_of-IsHead (some Message.fail) = record {
  low = refl;
  plain = refl;
  low_marked = refl;
  marked = refl;
}

module _ (net : IpText) where
  read_addr-cons :
      (a : Addr) (tail : List ℕ)
      → IsAddr a
      → read_addr net true (length (to_string net a) ∷ to_string net a ++ tail) ≡ ok (some a)
  unfolding read_addr
  read_addr-cons a tail h =
      rw
        (read_str-cons (to_string net a) tail (to_string-is_utf8 net a), from_str-to_string net a h)

  abbrev Reads : HandshakePacket → Type 0
  Reads p =
      (bs : List ℕ) × (to_bytes net p ≡ ok bs)
      × ((tail : List ℕ) → from_bytes net (bs ++ tail) ≡ ok p)

  fields-Reads :
      (m : Option Message) (o : Option Addr)
      → IsText m
      → IsShortAddr net o
      → Reads (record { negotiate = m; external_addr = o })
  unfolding to_bytes from_bytes
  fields-Reads m none t h = (
    (head_of m).0 ∷ (head_of m).1,
    rw (write_negotiate-head_of m t),
    λ tail.
        let head = head_of-IsHead m in
        rw (head.low, read_negotiate-head_of m tail t, head.plain) (unfold read_addr in refl),
  )
  fields-Reads m (some a) t h = (
    bit_or (head_of m).0 0xf0 ∷ ((head_of m).1 ++ length (to_string net a) ∷ to_string net a),
    rw (write_negotiate-head_of m t, write_str-short (to_string net a) h.1),
    λ tail.
        let head = head_of-IsHead m in
        rw (
          head.low_marked,
          append_assoc,
          read_negotiate-head_of m _ t,
          head.marked,
          read_addr-cons a tail h.0,
        ),
  )

  -- A packet whose protocol is UTF-8 of at most 255 bytes, and whose address has its parts in
  -- range and at most 255 bytes of text, is written, and `from_bytes` reads it back, whatever
  -- bytes follow it.
  pub from_bytes-to_bytes :
      (p : HandshakePacket)
      → IsPacket net p
      → (bs : List ℕ) × (to_bytes net p ≡ ok bs)
        × ((tail : List ℕ) → from_bytes net (bs ++ tail) ≡ ok p)
  from_bytes-to_bytes p v = fields-Reads p.negotiate p.external_addr v.text v.addr

  write_addr-long :
      (a : Addr) (ty : ℕ) (bs : List ℕ)
      → 255 < length (to_string net a)
      → write_addr net (some a) (ty, bs) ≡ err invalid
  unfolding write_addr
  write_addr-long a ty bs h = rw (write_str-long (to_string net a) h)

  -- A packet with a proposal of more than 255 bytes, or with a negotiation part that can be
  -- written and an address of more than 255 bytes, is refused with `invalid handshake packet`.
  pub to_bytes_too_long :
      (p : HandshakePacket) (s : Str) (a : Addr)
      → ((p.negotiate ≡ some (Message.propose s)) × (255 < length s))
        ⊎ (IsText p.negotiate × (p.external_addr ≡ some a) × (255 < length (to_string net a)))
      → to_bytes net p ≡ err invalid
  unfolding to_bytes write_negotiate
  to_bytes_too_long p s a (inl (e, h)) = rw (e, write_str-long s h)
  to_bytes_too_long p s a (inr (t, e, h)) = rw (
    write_negotiate-head_of p.negotiate t,
    e,
    write_addr-long a (head_of p.negotiate).0 (head_of p.negotiate).1 h,
  )
