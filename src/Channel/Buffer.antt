-- ===== src/Channel/Buffer.antt =====
-- `impl BasePacket for BytesMut` of channel/src/lib.rs.
use efcp.Prelude.{refl, ap, arith}
use efcp.Outcome.{ok}
use efcp.Bytes.{BytesMut}
use efcp.Channel.Traits.{BasePacket, IsPacket}

module _ (b : BytesMut) where
  unfoldable pub bytes_packet : BasePacket b.Buf
  bytes_packet = record {
    new = λ payload_len. ok (b.with_capacity payload_len);
    check = λ p. ok tt;
    payload = λ p. ok (b.slice_of p);
    payload_mut = λ p bs. ok (b.write p bs);
    put = b.put;
    remaining_mut = b.remaining_mut;
  }

  -- A plain buffer is the bottom layer, with no limit on the payload.
  pub bytes_packet-IsPacket : IsPacket bytes_packet (λ n. Unit {0})
  unfolding bytes_packet
  bytes_packet-IsPacket = record {
    new_empty = λ n _. (
      b.with_capacity n,
      refl,
      ap ok (b.slice_of-with_capacity n),
      b.remaining_mut-with_capacity n,
    );
    put_appends = λ p bs xs e h.
        let (c, put, bytes, room) = b.put_fits p xs h in (c, put, ground (arith, bytes), room);
    store_replaces = λ p bs cs e h. (
      b.write p cs,
      refl,
      ap ok (b.slice_of-write p cs (ground arith)),
      b.remaining_mut-write p cs,
    );
  }
