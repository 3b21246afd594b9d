-- ===== src/Handshake/Socket.antt =====
-- `EfcpSocket`, `Dial` and the methods of `EfcpChannel` of efcp/src/lib.rs, over the sockets and channels of
-- the crate dtp.
use efcp.Prelude.{ℕ, ◌+◌, List, Option, none, some}
use efcp.Outcome.{Outcome, ok, err, panic, pending, IoError, map_err}
use efcp.Outcome
use efcp.Outcome.Exec.{Exec, pure, ◌>>=◌}
use efcp.Bytes.{BigEndian}
use efcp.HandshakeError.{HandshakeError, from_io}
use efcp.Text.{Str}
use efcp.Addr.{Addr, IpText, SocketAddr}
use efcp.Dtcp.Channel.{DtcpChannel, send, recv}
use efcp.Dtp.Packet.{DtpPacket, dtp_packet}
use efcp.Dtp.Udp.{Kernel}
use efcp.Dtp.Socket.{Channel, Crates, InnerDtpSocket, outgoing}
use efcp.Dtp.Handle.{dtp_channel, poll_next}
use efcp.Dtp.Handle
use efcp.Secure.{Disco, DiscoChannel, disco_packet}
use efcp.Handshake.Noise.{Noise}
use efcp.Handshake.Transport.{Stack}
use efcp.Handshake.Layers.{
  Timed, Plain, Sealed, efcp_stack, disco_channel, enter_sealed, leave_sealed,
}
use efcp.Handshake.Defs.{
  EfcpChannel, Task, Turn, initiator, responder, resume_initiator, resume_responder,
}

pub record Dial (PublicKey : Type 0) : Type 0 where
  pub peer_addr : Addr
  pub channel : ℕ
  pub remote_public : PublicKey
  pub protocols : List Str

pub record EfcpSocket (S Keypair : Type 0) : Type 0 where
  pub dtp : S
  pub identity : Keypair
  pub protocols : List Str

module _ (net : IpText) {disco : Disco} (noise : Noise disco) (c : Crates) (clock : ℕ → ℕ)
    (be : BigEndian) where
  abbrev pub World : Type 0
  World = InnerDtpSocket c

  abbrev pub Low : Type 0
  Low = Plain disco clock be (dtp_packet c.buf) (dtp_channel c)

  abbrev pub High : Type 0
  High = Sealed disco clock be (dtp_packet c.buf) (dtp_channel c)

  abbrev pub stack : Stack disco.State (Timed Channel) Low High World
  stack = efcp_stack disco clock be (dtp_packet c.buf) (dtp_channel c)

  abbrev pub Result : Type 0
  Result = Turn noise.Session Low noise.PublicKey High

  abbrev pub Handshakes : Type 0 → Type 0
  Handshakes = Exec World (HandshakeError disco.ReadError)

  abbrev pub Socket : Type 0
  Socket = EfcpSocket World noise.Keypair

  unfoldable pub bind :
      (SocketAddr → Outcome IoError Kernel)
      → Str
      → noise.Keypair
      → List Str
      → Outcome IoError Socket
  bind open_socket addr identity protocols =
      Outcome.◌>>=◌ (Handle.bind c net open_socket addr)
        (λ dtp. ok (record { dtp = dtp; identity = identity; protocols = protocols }))

  -- A call of the socket below.
  unfoldable pub on_dtp : {A : Type 0} → Exec World IoError A → Handshakes A
  on_dtp m w = (map_err from_io (m w).0, (m w).1)

  -- A future that returns an error drops its `DtpChannel`, and unwinding drops it behind a panic. It
  -- is panicking then, or aborts, if the drop panics too.
  unfoldable pub after_drop :
      {A : Type 0}
      → Outcome (HandshakeError disco.ReadError) A
      → Outcome IoError (Unit {0}) × World
      → Outcome (HandshakeError disco.ReadError) A × World
  after_drop r (ok u, w) = (r, w)
  after_drop r (err x, w) = (r, w)
  after_drop r (panic, w) = (panic, w)
  after_drop r (pending, w) = (r, w)

  unfoldable pub owning : {A : Type 0} → Channel → Handshakes A → Handshakes A
  unfolding after_drop
  owning key m w = elim (m w).0 [
    | ok a ↦ (ok a, (m w).1)
    | err e ↦ after_drop (err e) (Handle.drop c key (m w).1)
    | panic ↦ after_drop panic (Handle.drop c key (m w).1)
    | pending ↦ (pending, (m w).1)
  ]

  abbrev pub handle : Channel → ℕ → Timed Channel
  handle key ticks = record { inner = key; ticks = ticks }

  -- `incoming`, up to the first wait of the listener's future. `ticks` counts the readings of the clock.
  unfoldable pub listen : noise.Keypair → List Str → ℕ → Option Channel → Handshakes (Option Result)
  unfolding owning
  listen identity protocols ticks none = pure none
  listen identity protocols ticks (some key) = do
    turn ←
        owning key
          (responder net noise stack (handle key ticks) identity protocols (Handle.peer_addr c key))
    pure (some turn)

  unfoldable pub incoming : noise.Keypair → List Str → ℕ → Handshakes (Option Result)
  unfolding on_dtp listen
  incoming identity protocols ticks = do
    key ← on_dtp (poll_next c)
    listen identity protocols ticks key

  -- `dial`, up to the first wait. `protocols` are the socket's.
  unfoldable pub dial : noise.Keypair → List Str → ℕ → Dial noise.PublicKey → Handshakes Result
  unfolding on_dtp owning
  dial identity protocols ticks d = do
    key ← on_dtp (outgoing c d.peer_addr d.channel)
    owning key (initiator net noise stack (handle key ticks) identity protocols d.remote_public)

  -- A later poll of either future.
  unfoldable pub poll_dial :
      Channel → Task noise.Session Low noise.PublicKey High → Handshakes Result
  unfolding owning
  poll_dial key task = owning key (resume_initiator net noise stack task)

  unfoldable pub poll_listen :
      Channel → Task noise.Session Low noise.PublicKey High → Handshakes Result
  unfolding owning
  poll_listen key task = owning key (resume_responder net noise stack task)

  unfoldable pub local_addr : Exec World IoError Addr
  local_addr = Handle.local_addr c

  unfoldable pub identity : Socket → noise.PublicKey
  identity s = noise.public s.identity

  unfoldable pub protocols : Socket → List Str
  protocols s = s.protocols

  abbrev pub Connection : Type 0
  Connection = EfcpChannel noise.PublicKey High

  -- The key of the `DtpChannel` at the bottom.
  abbrev pub key_of : Connection → Channel
  key_of ch = ch.channel.inner.channel.channel

  unfoldable pub peer_addr : Connection → Addr
  peer_addr ch = Handle.peer_addr c (key_of ch)

  unfoldable pub channel : Connection → ℕ
  channel ch = Handle.channel c (key_of ch)

  unfoldable pub external_addr : Connection → Option Addr
  external_addr ch = ch.external_addr

  unfoldable pub peer_identity : Connection → noise.PublicKey
  peer_identity ch = ch.remote

  unfoldable pub protocol : Connection → Str
  protocol ch = ch.protocol

  -- `channel::Channel for EfcpChannel`.
  on_sealed :
      {A : Type 0}
      → Connection
      → Outcome IoError A × (High × World)
      → Outcome IoError A × (Connection × World)
  on_sealed ch (r, (m, w)) = (r, (record ch { channel = m }, w))

  abbrev base : High → World → DtcpChannel (DiscoChannel disco World)
  base = enter_sealed disco clock be (dtp_packet c.buf) (dtp_channel c)

  unfoldable pub send_packet : DtpPacket c.buf → Exec (Connection × World) IoError (Unit {0})
  unfolding on_sealed
  send_packet packet (ch, w) = on_sealed ch (
      leave_sealed disco clock be (dtp_packet c.buf) (dtp_channel c) ch.channel (
        send be (disco_packet disco be (dtp_packet c.buf))
          (disco_channel disco clock be (dtp_packet c.buf) (dtp_channel c) (key_of ch))
          (clock ch.channel.ticks) (clock (ch.channel.ticks + 1)) packet (base ch.channel w)))

  unfoldable pub recv_packet : Exec (Connection × World) IoError (DtpPacket c.buf)
  unfolding on_sealed
  recv_packet (ch, w) = on_sealed ch (
      leave_sealed disco clock be (dtp_packet c.buf) (dtp_channel c) ch.channel (
        recv be (disco_packet disco be (dtp_packet c.buf))
          (disco_channel disco clock be (dtp_packet c.buf) (dtp_channel c) (key_of ch))
          (clock ch.channel.ticks) (clock (ch.channel.ticks + 1)) (base ch.channel w)))
