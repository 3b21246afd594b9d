-- ===== src/Dtcp/Channel/Send.antt =====
-- What `send` hands to the lower channel, and the state that it leaves.
use efcp.Prelude.{ℕ, ◌+◌, ◌%◌, ◌^◌, ◌<◌, ◌≡◌, ◌∙◌, Bool, false, ◌||◌}
use efcp.Outcome.{ok}
use efcp.Outcome.Exec.{continue}
use efcp.Bytes.{BigEndian}
use efcp.Channel.{BasePacket, IsPacket, parse}
use efcp.Channel
use efcp.Channel.Header.{payload_behind}
use efcp.Dtcp.Packet.{transfer, ty, seq_num, dtcp_packet}
use efcp.Dtcp.Packet.Fields.{HasHeader, ty-set_ty, seq_num-set_seq_num}
use efcp.Dtcp.Timer.{restart, stop}
use efcp.Dtcp.Channel.Defs.{DtcpChannel, send}

module _ {P : Type 0} (be : BigEndian) (d : BasePacket P) where
  -- What a packet on the wire says: the flag, the number, and the payload of `p`.
  pub record Says (p : P) (drf : Bool) (n : ℕ) (q : P) : Type 0 where
    pub type_says : ty be d q ≡ ok (transfer drf)
    pub number_says : seq_num be d q ≡ ok n
    pub same_payload : payload_behind d 3 q ≡ payload_behind d 3 p
    pub accepted : (dtcp_packet be d).check q ≡ ok tt

  module _ {C : Type 0} (below : Channel.Channel C P) {Allows : ℕ → Type 0}
      (packets : IsPacket d Allows) where
    -- The state in which the lower channel is called.
    abbrev pub sending : ℕ → DtcpChannel C → DtcpChannel C
    sending now ch = record ch {
      set_drf = false;
      seq_num = (ch.seq_num + 1) % 2 ^ 16;
      sit = (stop now ch.sit).1;
    }

    -- For a packet with room for the header and a sequence number of 16 bits, over a lower layer
    -- that keeps the promises of packets, `send` calls the lower channel once, with a data packet
    -- that has the payload given, the number `ch.seq_num`, and the data run flag if it was due or
    -- the sender's timer has expired. The flag is then no longer due and the number has gone up
    -- by one, modulo 2 ^ 16. An error or a wait of the lower channel is passed on; after a
    -- success the sender's timer is running.
    pub send_lem :
        (now later : ℕ) (p : P) (ch : DtcpChannel C)
        → HasHeader d p
        → ch.seq_num < 2 ^ 16
        → (q : P) × Says p (ch.set_drf || (stop now ch.sit).0) ch.seq_num q
          × (send be d below now later p ch
              ≡ continue
                  (below.send q ch.channel).0
                  (λ _ s. (ok tt, record s { sit = restart later s.sit }))
                  (record (sending now ch) { channel = (below.send q ch.channel).1 }))
    unfolding send
    send_lem now later p ch header small =
        let (q, made, typed, _, payload, good, header') =
          ty-set_ty be d packets p (transfer (ch.set_drf || (stop now ch.sit).0)) header in
        let (r, made', number, type', payload', good', _) =
          seq_num-set_seq_num be d packets q ch.seq_num header' small in
        (
          r,
          record {
            type_says = type' ∙ typed;
            number_says = number;
            same_payload = payload' ∙ payload;
            accepted = good' ∙ good;
          },
          rw (made, made'),
        )
