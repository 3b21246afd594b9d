-- ===== src/Handshake/Defs/Poll.antt =====
-- The polls of the two futures of efcp/src/lib.rs.
use efcp.Addr.{IpText}
use efcp.Secure.{Disco}
use efcp.Handshake.Noise.{Noise}
use efcp.Handshake.Transport.{Stack}
use efcp.Handshake.Defs.Locals.{Task, shaking, negotiating}
use efcp.Handshake.Defs.Io.{Step}
use efcp.Handshake.Defs.Initiator.{initiator_hears, initiator_talks}
use efcp.Handshake.Defs.Responder.{responder_hears, responder_talks}

module _ (net : IpText) {disco : Disco} (noise : Noise disco) {C L M W : Type 0}
    (stack : Stack disco.State C L M W) where
  -- A poll of the future at the place where it waits; with no packet it waits on.
  unfoldable pub resume_initiator : Task noise.Session L noise.PublicKey M → Step net noise stack
  resume_initiator (shaking s) = initiator_hears net noise stack s
  resume_initiator (negotiating t) = initiator_talks net noise stack t

  unfoldable pub resume_responder : Task noise.Session L noise.PublicKey M → Step net noise stack
  resume_responder (shaking s) = responder_hears net noise stack s
  resume_responder (negotiating t) = responder_talks net noise stack t
