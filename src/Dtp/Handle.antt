-- ===== src/Dtp/Handle.antt =====
-- `DtpSocket`, `Incoming` and `DtpChannel` of dtp/src/lib.rs. They share the inner socket, which is the
-- state; a `DtpChannel` is the key of its channel.
use efcp.Prelude.{ℕ, Option, some}
use efcp.Outcome.{Outcome, ok, err, panic, pending, IoError, other, map_err, ◌>>=◌}
use efcp.Outcome.Exec.{continue}
use efcp.Text.{Str}
use efcp.Addr.{Addr, IpText, SocketAddr, socket_addr, to_addr}
use efcp.Channel
use efcp.Dtp.Packet.{DtpPacket}
use efcp.Dtp.Udp.{Kernel}
use efcp.Dtp.Socket.{Channel, Crates, InnerDtpSocket, Call}
use efcp.Dtp.Socket

-- `.to_addr().map_err(..)`
unfoldable pub parse_addr : IpText → Str → Outcome IoError Addr
parse_addr net s = map_err (λ _. other "failed to parse socket addr") (to_addr net s)

module _ (c : Crates) where
  -- `Poll::Ready(Some(..))`: the stream does not end.
  unfoldable pub item : Outcome IoError Channel → Outcome IoError (Option Channel)
  item (ok ch) = ok (some ch)
  item (err e) = err e
  item panic = panic
  item pending = pending

  -- `open_socket` is the bind of a UDP socket by the kernel.
  unfoldable pub bind :
      IpText → (SocketAddr → Outcome IoError Kernel) → Str → Outcome IoError (InnerDtpSocket c)
  unfolding parse_addr
  bind net open_socket addr = do
    a ← parse_addr net addr
    kernel ← open_socket (socket_addr a)
    ok (Socket.bind c kernel)

  unfoldable pub poll_next : Call c (Option Channel)
  unfolding item
  poll_next s = (item (Socket.poll_incoming c s).0, (Socket.poll_incoming c s).1)

  unfoldable pub outgoing : IpText → Str → ℕ → Call c Channel
  unfolding parse_addr
  outgoing net peer_addr channel =
      continue (parse_addr net peer_addr) (λ a. Socket.outgoing c a channel)

  unfoldable pub peer_addr : Channel → Addr
  peer_addr ch = ch.peer_addr

  unfoldable pub channel : Channel → ℕ
  channel ch = ch.channel_id

  -- The drop of a `DtpChannel`.
  unfoldable pub drop : Channel → Call c (Unit {0})
  drop ch = Socket.close c ch

  -- `RecvFuture` and `SendFuture`, as the channel that the layers above use.
  abbrev pub dtp_channel : Channel → Channel.Channel (InnerDtpSocket c) (DtpPacket c.buf)
  dtp_channel ch = record { recv = Socket.poll_channel c ch; send = Socket.poll_send c ch }

  -- `DtpSocket::local_addr` and `DtpChannel::local_addr`, and the time to live.
  unfoldable pub local_addr : Call c Addr
  local_addr = Socket.local_addr c

  unfoldable pub ttl : Call c ℕ
  ttl = Socket.ttl c

  unfoldable pub set_ttl : ℕ → Call c (Unit {0})
  set_ttl n = Socket.set_ttl c n
