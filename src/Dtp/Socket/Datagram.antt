-- ===== src/Dtp/Socket/Datagram.antt =====
-- How `poll_recv` of dtp/src/dtp.rs reads a datagram.
use efcp.Prelude.{ℕ, Bool, List}
use efcp.Outcome.{Outcome, ok, IoError, ◌>>=◌, ◌>>◌}
use efcp.Bytes.{BytesMut}
use efcp.Addr.{SocketAddr, from_socket_addr}
use efcp.Dtp.Packet.{DtpPacket, dtp_packet, received, set_ecn, channel}
use efcp.Dtp.Socket.Key.{Channel}

-- A datagram as a packet, with the channel that it belongs to.
unfoldable pub read_packet :
    (b : BytesMut) → SocketAddr → List ℕ → Bool → Outcome IoError (Channel × DtpPacket b)
read_packet b peer_addr bytes ecn = do
  (dtp_packet b).check (received b bytes)
  id ← channel b (received b bytes)
  ok (
    record { peer_addr = from_socket_addr peer_addr; channel_id = id },
    set_ecn b (received b bytes) ecn,
  )
