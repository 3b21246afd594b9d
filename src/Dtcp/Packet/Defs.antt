-- ===== src/Dtcp/Packet/Defs.antt =====
-- `DtcpType` and `DtcpPacket` of dtcp/src/packet.rs. A `DtcpPacket<P>` is its lower packet.
use Prim.Native.Nat.{bit_and, bit_or}
use efcp.Prelude.{ℕ, ◌*◌, ◌/◌, ◌^◌, Bool, [], ◌∷◌, ltb, leb, ◌==◌, if◌then◌else◌, length}
use efcp.Outcome.{Outcome, ok, panic, IoError, other, ◌>>=◌, ◌>>◌, guard}
use efcp.Bytes.{BigEndian, index, slice, store, store_slice}
use efcp.Channel.{BasePacket}
use efcp.Channel.Header.{payload_behind, store_behind, new_with}

pub data DtcpType : Type 0 where
  transfer : Bool → DtcpType
  control : DtcpType

module _ {P : Type 0} (be : BigEndian) (d : BasePacket P) where
  raw_type : P → Outcome IoError ℕ
  raw_type p = do bs ← d.payload p; b ← index bs 0; ok (b / 2 ^ 4)

  flag0 : P → Outcome IoError Bool
  flag0 p = do bs ← d.payload p; b ← index bs 0; ok (ltb 0 (bit_and b 1))

  -- `unreachable!()` panics.
  unfoldable pub ty : P → Outcome IoError DtcpType
  unfolding raw_type flag0
  ty p = do
    t ← raw_type p
    if t == 0 then (do drf ← flag0 p; ok (transfer drf)) else if t == 1 then ok control else panic

  unfoldable pub set_ty : P → DtcpType → Outcome IoError P
  set_ty p t = do
    let byte : ℕ = elim t [
      | transfer drf ↦ bit_or 0 (if drf then 1 else 0)
      | control ↦ bit_or (1 * 2 ^ 4) 0
    ]
    bs ← d.payload p
    bs' ← store bs 0 byte
    d.payload_mut p bs'

  unfoldable pub seq_num : P → Outcome IoError ℕ
  seq_num p = do bs ← d.payload p; field ← slice 1 3 bs; ok (be.read_u16 field)

  unfoldable pub set_seq_num : P → ℕ → Outcome IoError P
  set_seq_num p n = do
    bs ← d.payload p
    bs' ← store_slice 1 3 (be.write_u16 n) bs
    d.payload_mut p bs'

  check : P → Outcome IoError (Unit {0})
  unfolding raw_type
  check p = do
    bs ← d.payload p
    guard (leb 3 (length bs)) (other "invalid dtcp packet")
    t ← raw_type p
    guard (ltb t 2) (other "invalid dtcp packet type")

  unfoldable pub dtcp_packet : BasePacket P
  unfolding check
  dtcp_packet = record {
    new = new_with d 3 (0 ∷ []) (be.write_u16 0);
    check = check;
    payload = payload_behind d 3;
    payload_mut = store_behind d 3;
    put = d.put;
    remaining_mut = d.remaining_mut;
  }
