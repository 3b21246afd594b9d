-- ===== src/Dtp/Packet/Defs.antt =====
-- `DtpPacket` of dtp/src/packet.rs.
use efcp.Prelude.{ℕ, ◌+◌, ◌-◌, Bool, false, List, [], ◌∷◌, leb, length}
use efcp.Outcome.{Outcome, ok, IoError, other, ◌>>=◌, ◌>>◌, guard, assert}
use efcp.Bytes.{BytesMut, index, slice_from, store, store_from}
use efcp.Channel.{BasePacket}

abbrev pub max_packet_len : ℕ
max_packet_len = 65535

abbrev ip6_header_len : ℕ
ip6_header_len = 40

abbrev udp_header_len : ℕ
udp_header_len = 8

abbrev max_header_len : ℕ
max_header_len = ip6_header_len + udp_header_len + 1

abbrev pub max_payload_len : ℕ
max_payload_len = max_packet_len - max_header_len

pub record DtpPacket (b : BytesMut) : Type 0 where
  pub ecn : Bool
  pub bytes : b.Buf

module _ (b : BytesMut) where
  -- `debug_assert!`, then a buffer with the channel byte 0.
  new : ℕ → Outcome IoError (DtpPacket b)
  new payload_len = do
    assert (leb payload_len max_payload_len)
    bytes ← b.put (b.with_capacity (payload_len + 1)) (0 ∷ [])
    ok (record { ecn = false; bytes = bytes })

  check : DtpPacket b → Outcome IoError (Unit {0})
  check p = guard (leb 1 (length (b.slice_of p.bytes))) (other "invalid packet")

  payload_mut : DtpPacket b → List ℕ → Outcome IoError (DtpPacket b)
  payload_mut p cs = do
    bs ← store_from 1 cs (b.slice_of p.bytes)
    ok (record p { bytes = b.write p.bytes bs })

  put : DtpPacket b → List ℕ → Outcome IoError (DtpPacket b)
  put p xs = do bytes ← b.put p.bytes xs; ok (record p { bytes = bytes })

  unfoldable pub dtp_packet : BasePacket (DtpPacket b)
  unfolding new check payload_mut put
  dtp_packet = record {
    new = new;
    check = check;
    payload = λ p. slice_from 1 (b.slice_of p.bytes);
    payload_mut = payload_mut;
    put = put;
    remaining_mut = λ p. b.remaining_mut p.bytes;
  }

  -- `uninitialized`, the write of the received bytes to `bytes_mut()`, and `set_len` to their count.
  unfoldable pub received : List ℕ → DtpPacket b
  received bytes = record { ecn = false; bytes = b.fill (b.with_capacity max_packet_len) bytes }

  unfoldable pub set_ecn : DtpPacket b → Bool → DtpPacket b
  set_ecn p ecn = record p { ecn = ecn }

  unfoldable pub channel : DtpPacket b → Outcome IoError ℕ
  channel p = index (b.slice_of p.bytes) 0

  unfoldable pub set_channel : DtpPacket b → ℕ → Outcome IoError (DtpPacket b)
  set_channel p c = do
    bs ← store (b.slice_of p.bytes) 0 c
    ok (record p { bytes = b.write p.bytes bs })
