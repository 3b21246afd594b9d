-- ===== src/Handshake/Defs/Initiator.antt =====
-- `EfcpChannel::initiator` of efcp/src/lib.rs, from one wait to the next.
use efcp.Prelude.{true, false, List, Option, none, some}
use efcp.Outcome.{ok_or, map_err}
use efcp.Outcome.Exec.{pure, lift, ◌>>=◌}
use efcp.HandshakeError.{from_io, external_addr}
use efcp.Text.{Str}
use efcp.Addr.{Addr, IpText}
use efcp.Negotiation.{Negotiation, initiate, message, is_finished, into_protocol}
use efcp.Negotiation
use efcp.Negotiation.Message.{Message}
use efcp.HandshakePacket.{take_external_addr}
use efcp.Secure.{Disco}
use efcp.Handshake.Noise.{Noise}
use efcp.Handshake.Transport.{Stack}
use efcp.Handshake.Defs.Locals.{shaking, wait, run, answer}
use efcp.Handshake.Defs.Io.{
  Step, InShake, InTalk, write_shaking, read_shaking, write_talking, read_talking, enter_transport,
  conclude, wait_unless_finished,
}

module _ (net : IpText) {disco : Disco} (noise : Noise disco) {C L M W : Type 0}
    (stack : Stack disco.State C L M W) where
  unfoldable pub initiator_reply : Option Message → InTalk net noise stack → Step net noise stack
  unfolding wait_unless_finished
  initiator_reply none t = conclude net noise stack t
  initiator_reply (some m) t = do
    t' ← write_talking net noise stack (some m) none t
    wait_unless_finished net noise stack t'

  -- An iteration of the second loop, from the wait on.
  unfoldable pub initiator_talks : InTalk net noise stack → Step net noise stack
  unfolding initiator_reply
  initiator_talks t = do
    (msg, t') ← read_talking net noise stack t
    (next_neg, negotiate) ← lift (answer msg t'.negotiate)
    initiator_reply next_neg (record t' { negotiate = negotiate })

  -- Behind the first loop. `if external_addr.is_none()` follows the building of the channel.
  unfoldable pub initiator_seals : InShake net noise stack → Step net noise stack
  unfolding wait_unless_finished
  initiator_seals s = do
    t ← enter_transport net noise stack s
    _ ← lift (ok_or t.external_addr external_addr)
    wait_unless_finished net noise stack t

  -- The head of the first loop, up to the test of `is_handshake_finished`.
  unfoldable pub initiator_shakes : Option Message → InShake net noise stack → Step net noise stack
  unfolding initiator_seals
  initiator_shakes next_neg s = do
    s' ← write_shaking net noise stack next_neg none s
    elim (noise.is_handshake_finished s'.session) [
      | true ↦ initiator_seals s'
      | false ↦ pure (wait (shaking s'))
    ]

  -- `if let Some(addr) = msg.external_addr() { external_addr = Some(addr); }`
  abbrev or_else : Option Addr → Option Addr → Option Addr
  or_else none old = old
  or_else (some addr) old = some addr

  -- The rest of an iteration of the first loop, and the head of the next.
  unfoldable pub initiator_hears : InShake net noise stack → Step net noise stack
  unfolding take_external_addr
  initiator_hears s = do
    (msg, s') ← read_shaking net noise stack s
    (next_neg, negotiate) ← lift (answer (take_external_addr msg).1 s'.negotiate)
    initiator_shakes next_neg (record s' {
      negotiate = negotiate;
      external_addr = or_else (take_external_addr msg).0 s'.external_addr;
    })

  unfoldable pub initiator : C → noise.Keypair → List Str → noise.PublicKey → Step net noise stack
  initiator channel identity protocols remote_public = do
    built ← lift (map_err from_io (stack.wrap channel))
    (next_neg, negotiate) ← lift (run (λ e. e) (initiate (Negotiation.new protocols)))
    initiator_shakes (some next_neg) (record {
      channel = built;
      session = noise.initiator identity remote_public;
      negotiate = negotiate;
      external_addr = none;
    })
