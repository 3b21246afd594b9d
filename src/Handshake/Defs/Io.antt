-- ===== src/Handshake/Defs/Io.antt =====
-- The steps that `initiator` and `responder` of efcp/src/lib.rs share.
use efcp.Prelude.{true, false, Option}
use efcp.Outcome.{unwrap, ok_or, map_err}
use efcp.Outcome.Exec.{Exec, pure, lift, ◌>>=◌}
use efcp.HandshakeError.{HandshakeError, from_io, from_disco, negotiation}
use efcp.Addr.{Addr, IpText}
use efcp.Negotiation.{is_finished, into_protocol}
use efcp.Negotiation.Message.{Message}
use efcp.HandshakePacket.{HandshakePacket, from_bytes, to_bytes, take_negotiate, take_external_addr}
use efcp.HandshakePacket
use efcp.Secure.{Disco}
use efcp.Handshake.Noise.{Noise}
use efcp.Handshake.Transport.{Stack}
use efcp.Handshake.Defs.Locals.{Shaking, Negotiating, Turn, negotiating, wait, finish, run, call}

module _ (net : IpText) {disco : Disco} (noise : Noise disco) {C L M W : Type 0}
    (stack : Stack disco.State C L M W) where
  abbrev pub Returned : Type 0 → Type 0
  Returned = Exec W (HandshakeError disco.ReadError)

  abbrev pub Step : Type 0
  Step = Returned (Turn noise.Session L noise.PublicKey M)

  abbrev pub InShake : Type 0
  InShake = Shaking noise.Session L

  abbrev pub InTalk : Type 0
  InTalk = Negotiating noise.PublicKey M

  -- `HandshakePacket::new(..)`, `session.write_message(&msg.to_bytes()?)` and
  -- `channel.send(..).await?`.
  unfoldable pub write_shaking : Option Message → Option Addr → InShake → Returned InShake
  write_shaking next_neg addr s = do
    bytes ← lift (map_err from_io (to_bytes net (HandshakePacket.new next_neg addr)))
    (_, channel) ← call from_io (stack.plain.send (noise.write_message s.session bytes).0) s.channel
    pure (record s { channel = channel; session = (noise.write_message s.session bytes).1 })

  -- `channel.recv().await?`, `session.read_message(..)?` and `HandshakePacket::from_bytes(..)?`.
  unfoldable pub read_shaking : InShake → Returned (HandshakePacket × InShake)
  read_shaking s = do
    (ct, channel) ← call from_io stack.plain.recv s.channel
    (pt, session) ← lift (run from_disco (noise.read_message s.session ct))
    msg ← lift (map_err from_io (from_bytes net pt))
    pure (msg, record s { channel = channel; session = session })

  -- The same over the encrypted channel.
  unfoldable pub write_talking : Option Message → Option Addr → InTalk → Returned InTalk
  write_talking next_neg addr t = do
    bytes ← lift (map_err from_io (to_bytes net (HandshakePacket.new next_neg addr)))
    (_, channel) ← call from_io (stack.sealed.send bytes) t.channel
    pure (record t { channel = channel })

  unfoldable pub read_talking : InTalk → Returned (HandshakePacket × InTalk)
  read_talking t = do
    (bytes, channel) ← call from_io stack.sealed.recv t.channel
    msg ← lift (map_err from_io (from_bytes net bytes))
    pure (msg, record t { channel = channel })

  -- From `let remote = ..` to the second `build_channel`.
  unfoldable pub enter_transport : InShake → Returned InTalk
  enter_transport s = do
    remote ← lift (unwrap (noise.get_remote_static s.session))
    channel ← lift (map_err from_io (stack.seal s.channel (noise.into_stateless s.session)))
    pure (record {
      channel = channel;
      remote = remote;
      negotiate = s.negotiate;
      external_addr = s.external_addr;
    })

  -- From `let protocol = ..` on.
  unfoldable pub conclude : InTalk → Step
  conclude t = do
    accepted ← lift (into_protocol t.negotiate)
    protocol ← lift (ok_or accepted negotiation)
    pure (
        finish (record {
          channel = t.channel;
          remote = t.remote;
          protocol = protocol;
          external_addr = t.external_addr;
        }))

  -- `while !negotiate.is_finished()` of the initiator, and `if negotiate.is_finished() { break; }` of the
  -- responder: the wait, or the code behind the loop.
  unfoldable pub wait_unless_finished : InTalk → Step
  unfolding is_finished
  wait_unless_finished t = elim (is_finished t.negotiate) [
    | true ↦ conclude t
    | false ↦ pure (wait (negotiating t))
  ]
