-- ===== src/Channel/Traits.antt =====
-- The traits `BasePacket`, `Packet` and `Channel` of channel/src/lib.rs, as records of operations, and
-- what the macro `derive_packet!` derives. `BufMut`, which `BasePacket` extends, shows as `put` (its
-- provided methods all append bytes) and `remaining_mut`.
use efcp.Prelude.{ℕ, ◌+◌, ◌≤◌, ◌≡◌, List, [], ◌++◌, length}
use efcp.Outcome.{Outcome, ok, IoError, ◌>>=◌, ◌>>◌}
use efcp.Outcome.Exec.{Exec}

pub record BasePacket (P : Type 0) : Type 0 where
  pub new : ℕ → Outcome IoError P
  pub check : P → Outcome IoError (Unit {0})
  pub payload : P → Outcome IoError (List ℕ)
  -- A store of a slice of the same length through `payload_mut`.
  pub payload_mut : P → List ℕ → Outcome IoError P
  pub put : P → List ℕ → Outcome IoError P
  pub remaining_mut : P → ℕ

-- What a layer may rely on of the packets below it: a new packet is empty and has room for the payload
-- that it was made for, `put` appends within the room, and a store changes the payload and no room.
-- `Allows n` says that a payload of length `n` is within the layer's limit.
pub record IsPacket {P : Type 0} (d : BasePacket P) (Allows : ℕ → Type 0) : Type 0 where
  pub new_empty :
      (n : ℕ)
      → Allows n
      → (p : P) × (d.new n ≡ ok p) × (d.payload p ≡ ok []) × (n ≤ d.remaining_mut p)
  pub put_appends :
      (p : P) (bs xs : List ℕ)
      → d.payload p ≡ ok bs
      → length xs ≤ d.remaining_mut p
      → (q : P) × (d.put p xs ≡ ok q)
        × (d.payload q ≡ ok (bs ++ xs))
        × (d.remaining_mut q + length xs ≡ d.remaining_mut p)
  pub store_replaces :
      (p : P) (bs cs : List ℕ)
      → d.payload p ≡ ok bs
      → length cs ≡ length bs
      → (q : P) × (d.payload_mut p cs ≡ ok q)
        × (d.payload q ≡ ok cs)
        × (d.remaining_mut q ≡ d.remaining_mut p)

-- `derive_packet!`: `impl Packet<P>`. A wrapper is a value of the lower layer's type `P`, so `wrap` and
-- `into_packet` are the identity; the upper layer's methods are given as `d`.
unfoldable pub parse : {P : Type 0} → BasePacket P → P → Outcome IoError P
parse d packet = do d.check packet; ok packet

-- `derive_packet!`: `impl From<&[u8]>`, and through `as_bytes` `impl From<&str>`.
unfoldable pub from_payload : {P : Type 0} → BasePacket P → List ℕ → Outcome IoError P
from_payload d payload = do p ← d.new (length payload); d.put p payload

pub record Channel (C P : Type 0) : Type 0 where
  pub recv : Exec C IoError P
  pub send : P → Exec C IoError (Unit {0})
