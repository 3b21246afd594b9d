-- ===== src/HandshakePacket/Defs.antt =====
-- The record `HandshakePacket` of efcp/src/packet.rs, `to_bytes` and `from_bytes`.
use Prim.Native.Nat.{bit_or}
use efcp.Prelude.{
  ℕ, zero, suc, ◌/◌, ◌%◌, Bool, true, false, List, [], ◌∷◌, ◌++◌, Option, none, some, ltb, leb,
  length, drop,
}
use efcp.Outcome.{Outcome, ok, err, IoError, other, ◌>>=◌, ◌>>◌, guard, ok_or, map_err}
use efcp.Bytes.{slice}
use efcp.Text.{Str, from_utf8}
use efcp.Addr.{Addr, IpText, from_str, to_string}
use efcp.Negotiation.Message.{Message}

pub record HandshakePacket : Type 0 where
  pub negotiate : Option Message
  pub external_addr : Option Addr

unfoldable pub new : Option Message → Option Addr → HandshakePacket
new negotiate external_addr = record { negotiate = negotiate; external_addr = external_addr }

abbrev pub invalid : IoError
invalid = other "invalid handshake packet"

-- `negotiate.take()` and `external_addr.take()`, as the methods of those names do: the field and the
-- packet that is left.
unfoldable pub take_negotiate : HandshakePacket → Option Message × HandshakePacket
take_negotiate p = (p.negotiate, record p { negotiate = none })

unfoldable pub take_external_addr : HandshakePacket → Option Addr × HandshakePacket
take_external_addr p = (p.external_addr, record p { external_addr = none })

-- The bytes from index `i` on stand for `i`. `next` is the test `bytes.get(i).is_none()` with the read
-- `bytes[i]` and the step `i += 1` behind it.
unfoldable pub next : List ℕ → Outcome IoError (ℕ × List ℕ)
next [] = err invalid
next (b ∷ rest) = ok (b, rest)

-- A length byte and that many bytes of UTF-8: the code that both branches repeat.
unfoldable pub read_str : List ℕ → Outcome IoError (Str × List ℕ)
unfolding next
read_str bytes = do
  (len, rest) ← next bytes
  guard (leb len (length rest)) invalid
  text ← slice 0 len rest
  s ← ok_or (from_utf8 text) invalid
  ok (s, drop len rest)

-- `match ty & 0xf { .. }`
unfoldable pub read_negotiate : ℕ → List ℕ → Outcome IoError (Option Message × List ℕ)
unfolding read_str
read_negotiate zero rest = ok (none, rest)
read_negotiate (suc zero) rest = do
  (protocol, rest') ← read_str rest
  ok (some (Message.propose protocol), rest')
read_negotiate (suc (suc zero)) rest = ok (some Message.accept, rest)
read_negotiate (suc (suc (suc zero))) rest = ok (some Message.fail, rest)
read_negotiate _ rest = err invalid

-- A length byte and the text; a text that the byte cannot count is refused.
unfoldable pub write_str : Str → Outcome IoError (List ℕ)
write_str s = do guard (leb (length s) 255) invalid; ok (length s ∷ s)

-- `match self.negotiate { .. }`: the first byte, and what follows it.
unfoldable pub write_negotiate : Option Message → Outcome IoError (ℕ × List ℕ)
unfolding write_str
write_negotiate none = ok (0, [])
write_negotiate (some (Message.propose protocol)) = do bytes ← write_str protocol; ok (1, bytes)
write_negotiate (some Message.accept) = ok (2, [])
write_negotiate (some Message.fail) = ok (3, [])

module _ (net : IpText) where
  -- `if contains_addr { .. } else { None }`
  unfoldable pub read_addr : Bool → List ℕ → Outcome IoError (Option Addr)
  unfolding read_str
  read_addr false rest = ok none
  read_addr true rest = do
    (s, _) ← read_str rest
    addr ← map_err (λ _. invalid) (from_str net s)
    ok (some addr)

  unfoldable pub from_bytes : List ℕ → Outcome IoError HandshakePacket
  unfolding read_negotiate read_addr
  from_bytes bytes = do
    (ty, rest) ← next bytes
    (negotiate, rest') ← read_negotiate (ty % 16) rest
    external_addr ← read_addr (ltb 0 (ty / 16)) rest'
    ok (record { negotiate = negotiate; external_addr = external_addr })

  -- `match &self.external_addr { .. }`, with `bytes[0] |= 0xf0`.
  unfoldable pub write_addr : Option Addr → ℕ × List ℕ → Outcome IoError (List ℕ)
  unfolding write_str
  write_addr none (ty, bytes) = ok (ty ∷ bytes)
  write_addr (some addr) (ty, bytes) = do
    text ← write_str (to_string net addr)
    ok (bit_or ty 0xf0 ∷ (bytes ++ text))

  unfoldable pub to_bytes : HandshakePacket → Outcome IoError (List ℕ)
  unfolding write_negotiate write_addr
  to_bytes p = do head ← write_negotiate p.negotiate; write_addr p.external_addr head
