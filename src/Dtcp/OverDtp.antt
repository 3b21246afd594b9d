-- ===== src/Dtcp/OverDtp.antt =====
-- A `DtcpChannel` over a `DtpChannel` at both ends, as efcp/src/lib.rs stacks them for its handshake, and
-- a network that delivers the datagram.
use efcp.Prelude.{
  ℕ, ◌≤◌, ◌<◌, ◌^◌, ◌≡◌, refl, sym, ap, ◌∙◌, ◌||◌, List, [], ◌∷◌, ◌++◌, Option, arith, length, drop,
  length-drop,
}
use efcp.Outcome.{ok}
use efcp.Outcome.Exec.{continue}
use efcp.Bytes.{BigEndian}
use efcp.Addr.{SocketAddr, socket_addr}
use efcp.Channel.{BasePacket, IsPacket, parse}
use efcp.Channel.Header.{payload_behind, payload_behind-inv, payload_behind_ok}
use efcp.Dtcp.Packet.{ty, seq_num, dtcp_packet}
use efcp.Dtcp.Timer.{stop, restart}
use efcp.Dtcp.Channel.{DtcpChannel, send, recv}
use efcp.Dtcp.Channel.Send.{Says, sending, send_lem}
use efcp.Dtp.Ecn.{EcnCodepoint}
use efcp.Dtp.Packet.{DtpPacket, dtp_packet}
use efcp.Dtp.Packet.Layer.{dtp_packet-IsPacket}
use efcp.Dtp.Udp.{Datagram, datagram}
use efcp.Dtp.Socket.{Channel, Crates, InnerDtpSocket, poll_channel, poll_send}
use efcp.Dtp.Socket.Mux.{Mux}
use efcp.Dtp.Socket.Simulation.{Shows}
use efcp.Dtp.Socket.Wire.{from, poll_channel-poll_send}
use efcp.Dtp.Handle.{dtp_channel}

module _ {P : Type 0} (be : BigEndian) (d : BasePacket P) where
  -- What a packet says is in its bytes.
  pub same_bytes :
      (p q : P)
      → d.payload p ≡ d.payload q
      → (ty be d p ≡ ty be d q)
        × (seq_num be d p ≡ seq_num be d q)
        × (payload_behind d 3 p ≡ payload_behind d 3 q)
        × ((dtcp_packet be d).check p ≡ (dtcp_packet be d).check q)
  unfolding ty seq_num dtcp_packet
  same_bytes p q e = (rw e refl, rw e refl, rw e refl, rw e refl)

  -- The bytes of a packet with the payload of `p` are as many as those of `p`.
  as_long :
      {Allows : ℕ → Type 0} (lower : IsPacket d Allows) (p q : P) (bs : List ℕ)
      → d.payload p ≡ ok bs
      → 3 ≤ length bs
      → payload_behind d 3 q ≡ payload_behind d 3 p
      → (raw : List ℕ) × (d.payload q ≡ ok raw) × (length raw ≡ length bs)
  as_long lower p q bs e h same =
      let (raw, is_raw, long, rest) =
        payload_behind-inv d lower 3 q (drop 3 bs) (same ∙ payload_behind_ok d 3 p bs e h) in
      (raw, is_raw, omega (arith, length-drop 3 raw, length-drop 3 bs, ap (length {A = ℕ}) rest))

module _ (c : Crates) (be : BigEndian) where
  -- `recv` over a dtp channel that has the packet `q`.
  recv_lem :
      (now later : ℕ) (key : Channel) (q : DtpPacket c.buf) (ch : DtcpChannel (InnerDtpSocket c))
      → (poll_channel c key ch.channel).0 ≡ ok q
      → (dtcp_packet be (dtp_packet c.buf)).check q ≡ ok tt
      → (recv be (dtp_packet c.buf) (dtp_channel c key) now later ch).0 ≡ ok q
  unfolding recv parse
  recv_lem now later key q ch got good = rw (got, good) refl

  send_ok :
      (now later : ℕ) (key : Channel) (p q : DtpPacket c.buf) (ch : DtcpChannel (InnerDtpSocket c))
      (s' : InnerDtpSocket c)
      → send be (dtp_packet c.buf) (dtp_channel c key) now later p ch
        ≡ continue
            (poll_send c key q ch.channel).0
            (λ _ s. (ok tt, record s { sit = restart later s.sit }))
            (record (sending be
              (dtp_packet c.buf)
              (dtp_channel c key)
              (dtp_packet-IsPacket c.buf)
              now
              ch) { channel = (poll_send c key q ch.channel).1 })
      → poll_send c key q ch.channel ≡ (ok tt, s')
      → (a : DtcpChannel (InnerDtpSocket c)) × (send be
            (dtp_packet c.buf)
            (dtp_channel c key)
            now
            later
            p
            ch
          ≡ (ok tt, a))
        × (a.channel ≡ s')
  send_ok now later key p q ch s' e ran =
      let mid =
        sending be (dtp_packet c.buf) (dtp_channel c key) (dtp_packet-IsPacket c.buf) now ch in
      (record mid { channel = s'; sit = restart later mid.sit }, e ∙ (rw ran refl), refl)

  -- A packet of three header bytes or more, and fewer than 65535, that a `DtcpChannel` with a
  -- sequence number of 16 bits sends over the dtp channel `key`, with a kernel that takes it,
  -- leaves as one datagram to the peer of `key`. If the network delivers its bytes from the
  -- address `here` to a socket whose state shows an abstract state with nothing queued for that
  -- channel, then the `DtcpChannel` there receives a packet with the payload that was sent, the
  -- sender's sequence number, and the data run flag if the sender's was due or its timer had
  -- expired.
  pub recv-send_over_dtp :
      (now later now' later' : ℕ) (here : SocketAddr) (ecn : Option EcnCodepoint) (key : Channel)
      (p : DtpPacket c.buf) (bs : List ℕ) (a b : DtcpChannel (InnerDtpSocket c)) (m : Mux c.buf)
      → (dtp_packet c.buf).payload p ≡ ok bs
      → 3 ≤ length bs
      → length bs < 65535
      → a.seq_num < 2 ^ 16
      → a.channel.socket.answers ≡ []
      → Shows c b.channel m
      → m.queues (from c.buf here key.channel_id) ≡ []
      → (dg : Datagram) × (q : DtpPacket c.buf) × (a' : DtcpChannel (InnerDtpSocket c)) × (send be
            (dtp_packet c.buf)
            (dtp_channel c key)
            now
            later
            p
            a
          ≡ (ok tt, a'))
        × (a'.channel.socket.outbox ≡ a.channel.socket.outbox ++ dg ∷ [])
        × (dg.addr ≡ socket_addr key.peer_addr)
        × ((recv be
              (dtp_packet c.buf)
              (dtp_channel c (from c.buf here key.channel_id))
              now'
              later'
              (record b {
                channel = record b.channel {
                  socket = record b.channel.socket {
                    inbox = datagram (record dg { addr = here; ecn = ecn }) ∷ [];
                  };
                };
              })).0
            ≡ ok q)
        × Says be (dtp_packet c.buf) p (a.set_drf || (stop now a.sit).0) a.seq_num q
  recv-send_over_dtp now later now' later' here ecn key p bs a b m e h short small free v empty =
      let layer = dtp_packet c.buf in
      let (out, says, ran) =
        send_lem be layer (dtp_channel c key) (dtp_packet-IsPacket c.buf) now later p a (bs, e, h)
          small in
      let (raw, is_raw, long) =
        as_long be layer (dtp_packet-IsPacket c.buf) p out bs e h says.same_payload in
      let (dg, q, sent, to, got, payload, _) =
        poll_channel-poll_send c here ecn key out raw a.channel b.channel m is_raw (omega arith)
          free v empty in
      let (a', ran', socket) = send_ok now later key p out a _ ran sent in
      let (same_ty, same_num, same_payload, same_check) =
        same_bytes be layer q out (payload ∙ sym is_raw) in
      (
        dg,
        q,
        a',
        ran',
        ap (λ (s : InnerDtpSocket c). s.socket.outbox) socket,
        to,
        recv_lem now' later' (from c.buf here key.channel_id) q _ got (same_check ∙ says.accepted),
        record {
          type_says = same_ty ∙ says.type_says;
          number_says = same_num ∙ says.number_says;
          same_payload = same_payload ∙ says.same_payload;
          accepted = same_check ∙ says.accepted;
        },
      )
