-- ===== src/Notes/Packet.antt =====
-- `Packet`, `Type` and `PacketError` of notes/packet.rs over the buffer of `bytes`.
use Prim.Native.Nat.{bit_and, bit_or}
use efcp.Prelude.{ℕ, ◌+◌, ◌-◌, ◌^◌, Bool, List, [], ◌∷◌, ltb, ◌==◌, if◌then◌else◌, length}
use efcp.Outcome.{Outcome, ok, err, panic, pending, IoError, ◌>>=◌, ◌>>◌, guard}
use efcp.Bytes.{BytesMut, BigEndian, index, slice, slice_from, store, store_slice}

pub data PacketType : Type 0 where
  transfer : PacketType
  control : PacketType

-- `ty as u8`
unfoldable pub code : PacketType → ℕ
code transfer = 0
code control = 1

pub data PacketError : Type 0 where
  invalid_version : PacketError
  invalid_type : PacketError

abbrev pub header_len : ℕ
header_len = 12

abbrev pub default_header : List ℕ
default_header = 1 ∷ 0 ∷ 0 ∷ 0 ∷ 0 ∷ 0 ∷ 0 ∷ 0 ∷ 0 ∷ 0 ∷ 0 ∷ 0 ∷ []

abbrev pub drf_mask : ℕ
drf_mask = 2 ^ 7

pub record Packet (b : BytesMut) : Type 0 where
  pub data_bytes : b.Buf

-- `BytesMut::put_slice`, which has no error.
unfoldable pub put_slice : {E A : Type 0} → Outcome IoError A → Outcome E A
put_slice (ok a) = ok a
put_slice (err e) = panic
put_slice panic = panic
put_slice pending = pending

module _ (b : BytesMut) where
  abbrev pub new : b.Buf → Packet b
  new buf = record { data_bytes = buf }

  -- `&self.data[..]`, and a store of a slice of the same length.
  abbrev pub bytes_of : Packet b → List ℕ
  bytes_of p = b.slice_of p.data_bytes

  abbrev pub with_bytes : Packet b → List ℕ → Packet b
  with_bytes p bs = record { data_bytes = b.write p.data_bytes bs }

module _ (b : BytesMut) {E : Type 0} where
  unfoldable pub version : Packet b → Outcome E ℕ
  version p = index (bytes_of b p) 0

  unfoldable pub raw_type : Packet b → Outcome E ℕ
  raw_type p = index (bytes_of b p) 1

  -- `unreachable!()` panics.
  unfoldable pub ty : Packet b → Outcome E PacketType
  unfolding raw_type
  ty p = do t ← raw_type p; if t == 0 then ok transfer else if t == 1 then ok control else panic

  unfoldable pub set_type : Packet b → PacketType → Outcome E (Packet b)
  unfolding code
  set_type p t = do bs ← store (bytes_of b p) 1 (code t); ok (with_bytes b p bs)

  unfoldable pub payload : Packet b → Outcome E (List ℕ)
  payload p = slice_from header_len (bytes_of b p)

  -- `self.data[2] & mask > 0`
  abbrev flag : ℕ → Packet b → Outcome E Bool
  flag mask p = do x ← index (bytes_of b p) 2; ok (ltb 0 (bit_and x mask))

  unfoldable pub drf : Packet b → Outcome E Bool
  drf = flag drf_mask

  unfoldable pub ecn : Packet b → Outcome E Bool
  ecn = flag (2 ^ 6)

  unfoldable pub fci : Packet b → Outcome E Bool
  fci = flag (2 ^ 3)

  unfoldable pub acki : Packet b → Outcome E Bool
  acki = flag (2 ^ 2)

  unfoldable pub sel_ack : Packet b → Outcome E Bool
  sel_ack = flag (2 ^ 1)

  unfoldable pub ack : Packet b → Outcome E Bool
  ack = flag 1

  -- `!DRF_MASK` on a `u8`.
  unfoldable pub set_drf : Packet b → Bool → Outcome E (Packet b)
  set_drf p v = do
    x ← index (bytes_of b p) 2
    bs ← store (bytes_of b p) 2 (if v then bit_or x drf_mask else bit_and x (255 - drf_mask))
    ok (with_bytes b p bs)

  -- `Packet::dtp`
  unfoldable pub dtp : List ℕ → Outcome E (Packet b)
  unfolding put_slice set_type
  dtp xs = do
    header ← put_slice (b.put (b.with_capacity (header_len + length xs)) default_header)
    buf ← put_slice (b.put header xs)
    set_type (new b buf) transfer

module _ (b : BytesMut) (be : BigEndian) {E : Type 0} where
  unfoldable pub sequence_number : Packet b → Outcome E ℕ
  sequence_number p = do field ← slice 4 12 (bytes_of b p); ok (be.read_u64 field)

  unfoldable pub set_sequence_number : Packet b → ℕ → Outcome E (Packet b)
  set_sequence_number p n = do
    bs ← store_slice 4 12 (be.write_u64 n) (bytes_of b p)
    ok (with_bytes b p bs)

unfoldable pub parse : (b : BytesMut) → b.Buf → Outcome PacketError (Packet b)
unfolding version raw_type
parse b buf = do
  v ← version b (new b buf)
  guard (v == 1) invalid_version
  t ← raw_type b (new b buf)
  guard (ltb t 2) invalid_type
  ok (new b buf)
