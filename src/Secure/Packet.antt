-- ===== src/Secure/Packet.antt =====
-- `DiscoPacket` of efcp/src/secure.rs. A `DiscoPacket<P>` is its lower packet.
use efcp.Prelude.{ℕ, ◌+◌, List, length, leb, replicate}
use efcp.Outcome.{Outcome, ok, IoError, other, guard, ◌>>=◌}
use efcp.Bytes.{BigEndian, slice, store_slice}
use efcp.Channel.{BasePacket}
use efcp.Channel.Header.{payload_behind, store_behind, new_with}
use efcp.Secure.Session.{Disco}

module _ (disco : Disco) {P : Type 0} (be : BigEndian) (d : BasePacket P) where
  unfoldable pub check : P → Outcome IoError (Unit {0})
  check p = do bs ← d.payload p; guard (leb 8 (length bs)) (other "invalid disco packet")

  unfoldable pub disco_packet : BasePacket P
  unfolding check
  disco_packet = record {
    new = new_with d (8 + disco.tag_len) (be.write_u64 0) (replicate disco.tag_len 0);
    check = check;
    payload = payload_behind d (8 + disco.tag_len);
    payload_mut = store_behind d (8 + disco.tag_len);
    put = d.put;
    remaining_mut = d.remaining_mut;
  }

  unfoldable pub nonce : P → Outcome IoError ℕ
  nonce p = do bs ← d.payload p; field ← slice 0 8 bs; ok (be.read_u64 field)

  unfoldable pub set_nonce : P → ℕ → Outcome IoError P
  set_nonce p n = do
    bs ← d.payload p
    bs' ← store_slice 0 8 (be.write_u64 n) bs
    d.payload_mut p bs'

module _ (disco : Disco) {P : Type 0} (d : BasePacket P) where
  unfoldable pub tag : P → Outcome IoError (List ℕ)
  tag p = do bs ← d.payload p; slice 8 (8 + disco.tag_len) bs

  unfoldable pub set_tag : P → List ℕ → Outcome IoError P
  set_tag p t = do
    bs ← d.payload p
    bs' ← store_slice 8 (8 + disco.tag_len) t bs
    d.payload_mut p bs'
