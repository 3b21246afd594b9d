-- ===== src/Handshake/Defs/Responder.antt =====
-- `EfcpChannel::responder` of efcp/src/lib.rs, from one wait to the next.
use efcp.Prelude.{true, false, List, Option, none, some}
use efcp.Outcome.{map_err}
use efcp.Outcome.Exec.{pure, lift, ◌>>=◌}
use efcp.HandshakeError.{from_io}
use efcp.Text.{Str}
use efcp.Addr.{Addr, IpText}
use efcp.Negotiation.{Negotiation, initiate, message, is_finished, into_protocol}
use efcp.Negotiation
use efcp.Negotiation.Message.{Message}
use efcp.Secure.{Disco}
use efcp.Handshake.Noise.{Noise}
use efcp.Handshake.Transport.{Stack}
use efcp.Handshake.Defs.Locals.{shaking, wait, answer}
use efcp.Handshake.Defs.Io.{
  Step, InShake, InTalk, write_shaking, read_shaking, write_talking, read_talking, enter_transport,
  conclude, wait_unless_finished,
}

module _ (net : IpText) {disco : Disco} (noise : Noise disco) {C L M W : Type 0}
    (stack : Stack disco.State C L M W) where
  -- `while let Some(msg) = next_neg.take()`, up to the wait.
  unfoldable pub responder_loop : Option Message → InTalk net noise stack → Step net noise stack
  unfolding wait_unless_finished
  responder_loop none t = conclude net noise stack t
  responder_loop (some m) t = do
    t' ← write_talking net noise stack (some m) t.external_addr t
    wait_unless_finished net noise stack (record t' { external_addr = none })

  unfoldable pub responder_talks : InTalk net noise stack → Step net noise stack
  responder_talks t = do
    (msg, t') ← read_talking net noise stack t
    (next_neg, negotiate) ← lift (answer msg t'.negotiate)
    responder_loop next_neg (record t' { negotiate = negotiate })

  -- The tail of the first loop, or the code behind it.
  unfoldable pub responder_shakes : Option Message → InShake net noise stack → Step net noise stack
  responder_shakes next_neg s = elim (noise.is_handshake_finished s.session) [
    | true ↦ do t ← enter_transport net noise stack s; responder_loop next_neg t
    | false ↦ do
      s' ← write_shaking net noise stack next_neg s.external_addr s
      pure (wait (shaking (record s' { external_addr = none })))
  ]

  unfoldable pub responder_hears : InShake net noise stack → Step net noise stack
  unfolding responder_shakes
  responder_hears s = do
    (msg, s') ← read_shaking net noise stack s
    (next_neg, negotiate) ← lift (answer msg s'.negotiate)
    responder_shakes next_neg (record s' { negotiate = negotiate })

  unfoldable pub responder : C → noise.Keypair → List Str → Addr → Step net noise stack
  responder channel identity protocols remote_addr = do
    built ← lift (map_err from_io (stack.wrap channel))
    pure (
        wait (
          shaking (record {
            channel = built;
            session = noise.responder identity;
            negotiate = Negotiation.new protocols;
            external_addr = some remote_addr;
          })))
