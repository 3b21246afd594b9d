-- ===== src/Dtp/Packet/Layer.antt =====
-- `DtpPacket` keeps the promises of a packet layer, and its setters.
use efcp.Prelude.{ℕ, ◌+◌, ◌≤◌, ◌≡◌, refl, ap, false, List, [], ◌∷◌, arith, length, le→leb}
use efcp.Outcome.{ok, IoError}
use efcp.Bytes.{BytesMut, slice_from}
use efcp.Channel.{IsPacket}
use efcp.Dtp.Packet.Defs.{DtpPacket, dtp_packet, max_payload_len, channel, set_channel}

module _ (b : BytesMut) where
  pub raw_of : (raw bs : List ℕ) → slice_from {E = IoError} 1 raw ≡ ok bs → (c : ℕ) × (raw ≡ c ∷ bs)
  raw_of [] bs e = cc
  raw_of (c ∷ raw) bs e = (c, ground arith)

  -- A `DtpPacket` keeps the promises of a packet layer, for payloads of up to `MAX_PAYLOAD_LEN`
  -- bytes.
  pub dtp_packet-IsPacket : IsPacket (dtp_packet b) (λ n. n ≤ max_payload_len)
  unfolding dtp_packet
  dtp_packet-IsPacket = record {
    new_empty = λ n h.
        let (c, put, bytes, room) =
          b.put_fits (b.with_capacity (n + 1)) (0 ∷ [])
            (omega (arith, b.remaining_mut-with_capacity (n + 1))) in
        (
          record { ecn = false; bytes = c },
          rw (le→leb n max_payload_len h, put),
          rw (bytes, b.slice_of-with_capacity (n + 1)),
          omega (arith, b.remaining_mut-with_capacity (n + 1)),
        );
    put_appends = λ p bs xs e h.
        let (x, raw) = raw_of (b.slice_of p.bytes) bs e in
        let (c, put, bytes, room) = b.put_fits p.bytes xs h in
        (record p { bytes = c }, rw put, rw (bytes, raw) (ground arith), room);
    store_replaces = λ p bs cs e h.
        let (x, raw) = raw_of (b.slice_of p.bytes) bs e in
        (
          record p { bytes = b.write p.bytes (x ∷ cs) },
          rw raw (ground arith),
          rw (b.slice_of-write p.bytes (x ∷ cs) (omega (arith, ap (length {A = ℕ}) raw, h)))
              (ground arith),
          b.remaining_mut-write p.bytes (x ∷ cs),
        );
  }

  -- `set_channel` on a packet that has its channel byte returns a packet of that channel, with the
  -- payload and the congestion mark unchanged.
  pub channel-set_channel :
      (p : DtpPacket b) (c : ℕ) (bs : List ℕ)
      → (dtp_packet b).payload p ≡ ok bs
      → (q : DtpPacket b) × (set_channel b p c ≡ ok q)
        × (channel b q ≡ ok c)
        × ((dtp_packet b).payload q ≡ ok bs)
        × (q.ecn ≡ p.ecn)
  unfolding dtp_packet set_channel channel
  channel-set_channel p c bs e =
      let (x, raw) = raw_of (b.slice_of p.bytes) bs e in
      let back = b.slice_of-write p.bytes (c ∷ bs) (omega (arith, ap (length {A = ℕ}) raw)) in
      (
        record p { bytes = b.write p.bytes (c ∷ bs) },
        rw raw (ground arith),
        rw back,
        rw back (ground arith),
        refl,
      )
