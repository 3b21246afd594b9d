-- ===== src/Handshake/Safe.antt =====
-- The safety of the two futures at each poll, against any peer.
use efcp.Prelude.{◌≡◌, refl, true, false, List, Option, none, some}
use efcp.Outcome.{ok, panic}
use efcp.Outcome.Leaves.{Leaves}
use efcp.Text.{Str}
use efcp.Addr.{Addr, IpText}
use efcp.Negotiation.{into_protocol}
use efcp.HandshakePacket.{new}
use efcp.Secure.{Disco}
use efcp.Handshake.Noise.{Noise}
use efcp.Handshake.Transport.{Stack}
use efcp.Handshake.Sound.{Safe, SafeTurn, initiator_talks-Safe}
use efcp.Handshake.Sides.{initiator_hears-Safe, responder_talks-Safe, responder_hears-Safe}
use efcp.Handshake.Defs.{
  Task, shaking, negotiating, InTalk, InShake, answer, read_talking, read_shaking, conclude,
  initiator_reply, enter_transport, initiator_talks, responder_loop, responder_talks,
  responder_shakes, responder_hears, resume_initiator, resume_responder,
}

abbrev pub IsKnown : Option Addr → Type 0
IsKnown o = (a : Addr) × (o ≡ some a)

module _ (net : IpText) {disco : Disco} (noise : Noise disco) {C L M W : Type 0}
    (stack : Stack disco.State C L M W) (ps : List Str) where
  -- Whatever a poll of the dialer reads, it keeps what is known at a wait: proposed and accepted
  -- protocols are of the list `ps`, and behind the first loop the external address is known. If
  -- the poll returns a channel, its protocol is one of `ps` and its external address is known.
  pub resume_initiator-Safe :
      (task : Task noise.Session L noise.PublicKey M) (w : W)
      → Safe ps net noise stack IsKnown task
      → Leaves (SafeTurn ps net noise stack IsKnown) (resume_initiator net noise stack task w).0
  unfolding resume_initiator
  resume_initiator-Safe (shaking s) w v =
      initiator_hears-Safe ps net noise stack IsKnown (λ a. (a, refl)) s v w
  resume_initiator-Safe (negotiating t) w g = initiator_talks-Safe ps net noise stack IsKnown t g w

  abbrev pub Anything : Option Addr → Type 0
  Anything o = Unit

  -- Whatever a poll of the listener reads, it keeps that proposed and accepted protocols are of the
  -- list `ps`. If the poll returns a channel, its protocol is one of `ps`.
  pub resume_responder-Safe :
      (task : Task noise.Session L noise.PublicKey M) (w : W)
      → Safe ps net noise stack Anything task
      → Leaves (SafeTurn ps net noise stack Anything) (resume_responder net noise stack task w).0
  unfolding resume_responder
  resume_responder-Safe (shaking s) w v =
      responder_hears-Safe ps net noise stack Anything tt s v tt w
  resume_responder-Safe (negotiating t) w g =
      responder_talks-Safe ps net noise stack Anything tt t g w

module _ (net : IpText) {disco : Disco} (noise : Noise disco) {C L M W : Type 0}
    (stack : Stack disco.State C L M W) where
  unfinished_panics :
      (t : InTalk net noise stack) (w : W)
      → t.negotiate.finished ≡ false
      → (conclude net noise stack t w).0 ≡ panic
  unfolding conclude into_protocol
  unfinished_panics t w e = rw e refl

  -- In the second loop, a peer whose packet has no negotiation message makes a side panic that is
  -- not finished, dialer and listener alike.
  pub silent_peer_panics :
      (t t' : InTalk net noise stack) (o : Option Addr) (w w' : W)
      → read_talking net noise stack t w ≡ (ok (new none o, t'), w')
      → t'.negotiate.finished ≡ false
      → ((initiator_talks net noise stack t w).0 ≡ panic)
        × ((responder_talks net noise stack t w).0 ≡ panic)
  unfolding initiator_talks responder_talks initiator_reply responder_loop answer new
  silent_peer_panics t t' o w w' got e =
      ((rw got (unfinished_panics t' w' e)), (rw got (unfinished_panics t' w' e)))

  -- A last message of the first loop with no negotiation message makes a listener panic that is
  -- not finished: the session is then finished, the dialer's key known and the encrypted channel
  -- built.
  pub silent_dialer_panics :
      (s s' : InShake net noise stack) (t : InTalk net noise stack) (o : Option Addr) (w w' : W)
      → read_shaking net noise stack s w ≡ (ok (new none o, s'), w')
      → noise.is_handshake_finished s'.session ≡ true
      → enter_transport net noise stack s' w' ≡ (ok t, w')
      → t.negotiate.finished ≡ false
      → (responder_hears net noise stack s w).0 ≡ panic
  unfolding responder_hears responder_shakes responder_loop answer new
  silent_dialer_panics s s' t o w w' got done entered e =
      rw (got, responder_shakes, done, entered) (unfinished_panics t w' e)
