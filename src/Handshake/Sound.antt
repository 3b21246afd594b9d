-- ===== src/Handshake/Sound.antt =====
-- What is asked of the locals of the two futures of efcp/src/lib.rs at a wait and at the end, whatever
-- the peer sends, and the calls that both sides share.
use efcp.Prelude.{◌≡◌, refl, sym, subst, true, false, Bool, List, Option, none, some, arith}
use efcp.Outcome.{Outcome, ok, err, panic, pending}
use efcp.HandshakeError.{HandshakeError}
use efcp.Outcome.Exec.{pure}
use efcp.Outcome.Leaves.{Leaves, Always, Always-bind}
use efcp.Text.{Str, contains}
use efcp.Addr.{Addr, IpText}
use efcp.Negotiation.{Negotiation, message, propose, into_protocol, is_finished}
use efcp.Negotiation.Message.{Message}
use efcp.Negotiation.Invariant.{IsValid, message-IsValid}
use efcp.HandshakePacket.{HandshakePacket, new}
use efcp.Secure.{Disco}
use efcp.Handshake.Noise.{Noise}
use efcp.Handshake.Transport.{Stack}
use efcp.Handshake.Defs.{
  Task, Turn, shaking, negotiating, wait, finish, InTalk, InShake, Step, answer, run, read_talking,
  write_talking, read_shaking, write_shaking, enter_transport, conclude, wait_unless_finished,
  initiator_reply, initiator_talks,
}

-- The error type of `message` plays no part in the state that it leaves.
same_state :
    (R S : Type 0) (m : Message) (n : Negotiation)
    → (message {R = R} m n).1 ≡ (message {R = S} m n).1
unfolding message propose
same_state R S (Message.propose p) n = ground arith
same_state R S Message.accept n = refl
same_state R S Message.fail n = refl

own_accepted :
    (ps : List Str) (n : Negotiation) (p : Str)
    → n.accepted ≡ some p
    → IsValid ps n
    → contains ps p ≡ true
own_accepted ps n p e v = ground arith

module _ (ps : List Str) where
  run_keeps :
      {R : Type 0} (r : Outcome (HandshakeError R) (Option Message)) (n : Negotiation)
      → IsValid ps n
      → Leaves (λ (a : Option Message × Negotiation). IsValid ps a.1) (run (λ e. e) (r, n))
  run_keeps (ok a) n v = v
  run_keeps (err e) n v = tt
  run_keeps panic n v = tt
  run_keeps pending n v = tt

  answered :
      (R : Type 0) (m : Option Message) (o : Option Addr) (n : Negotiation)
      → IsValid ps n
      → Leaves (λ (a : Option Message × Negotiation). IsValid ps a.1) (answer {R = R} (new m o) n)
  unfolding answer new
  answered R none o n v = v
  answered R (some m) o n v =
      run_keeps (message {R = R} m n).0 (message {R = R} m n).1
        (subst (IsValid ps) (same_state Unit R m n) (message-IsValid ps m n v))

  pub answer-Leaves :
      (R : Type 0) (p : HandshakePacket) (n : Negotiation)
      → IsValid ps n
      → Leaves (λ (a : Option Message × Negotiation). IsValid ps a.1) (answer {R = R} p n)
  unfolding new
  answer-Leaves R p n v = answered R p.negotiate p.external_addr n v

  module _ (net : IpText) {disco : Disco} (noise : Noise disco) {C L M W : Type 0}
      (stack : Stack disco.State C L M W) (Known : Option Addr → Type 0) where
    -- What is known of the locals at a wait, and of a channel that is returned.
    abbrev pub Safe : Task noise.Session L noise.PublicKey M → Type 0
    Safe (shaking s) = IsValid ps s.negotiate
    Safe (negotiating t) = IsValid ps t.negotiate × Known t.external_addr

    abbrev pub SafeTurn : Turn noise.Session L noise.PublicKey M → Type 0
    SafeTurn (wait task) = Safe task
    SafeTurn (finish ch) = (contains ps ch.protocol ≡ true) × Known ch.external_addr

    abbrev pub Keeps : InTalk net noise stack → InTalk net noise stack → Type 0
    Keeps t t' = (t'.negotiate ≡ t.negotiate) × (t'.external_addr ≡ t.external_addr)

    abbrev pub KeepsShake : InShake net noise stack → InShake net noise stack → Type 0
    KeepsShake s s' = (s'.negotiate ≡ s.negotiate) × (s'.external_addr ≡ s.external_addr)

    abbrev pub Keeps2 : InTalk net noise stack → HandshakePacket × InTalk net noise stack → Type 0
    Keeps2 t (msg, t') = Keeps t t'

    abbrev pub KeepsShake2 :
        InShake net noise stack → HandshakePacket × InShake net noise stack → Type 0
    KeepsShake2 s (msg, s') = KeepsShake s s'

    pub read_talking-Keeps :
        (t : InTalk net noise stack) → Always (Keeps2 t) (read_talking net noise stack t)
    unfolding read_talking
    read_talking-Keeps t w = ground arith

    pub write_talking-Keeps :
        (m : Option Message) (o : Option Addr) (t : InTalk net noise stack)
        → Always (Keeps t) (write_talking net noise stack m o t)
    unfolding write_talking
    write_talking-Keeps m o t w = ground arith

    pub read_shaking-Keeps :
        (s : InShake net noise stack) → Always (KeepsShake2 s) (read_shaking net noise stack s)
    unfolding read_shaking
    read_shaking-Keeps s w = ground arith

    pub write_shaking-Keeps :
        (m : Option Message) (o : Option Addr) (s : InShake net noise stack)
        → Always (KeepsShake s) (write_shaking net noise stack m o s)
    unfolding write_shaking
    write_shaking-Keeps m o s w = ground arith

    abbrev pub Sealed : InShake net noise stack → InTalk net noise stack → Type 0
    Sealed s t = (t.negotiate ≡ s.negotiate) × (t.external_addr ≡ s.external_addr)

    pub enter_transport-Sealed :
        (s : InShake net noise stack) → Always (Sealed s) (enter_transport net noise stack s)
    unfolding enter_transport
    enter_transport-Sealed s w = ground arith

    abbrev pub Good : InTalk net noise stack → Type 0
    Good t = IsValid ps t.negotiate × Known t.external_addr

    pub keep-Good : (t t' : InTalk net noise stack) → Keeps t t' → Good t → Good t'
    keep-Good t t' k g = (subst (IsValid ps) (sym k.0) g.0, subst Known (sym k.1) g.1)

    abbrev Returns : Step net noise stack → W → Type 0
    Returns step w = Leaves SafeTurn (step w).0

    concludes :
        (t : InTalk net noise stack) (w : W) (b : Bool) (o : Option Str)
        → t.negotiate.finished ≡ b
        → t.negotiate.accepted ≡ o
        → Good t
        → Returns (conclude net noise stack t) w
    unfolding conclude into_protocol
    concludes t w false o e f g = rw e tt
    concludes t w true none e f g = rw (e, f) tt
    concludes t w true (some p) e f g = rw (e, f) (own_accepted ps t.negotiate p f g.0, g.1)

    pub conclude-Safe :
        (t : InTalk net noise stack) (w : W) → Good t → Returns (conclude net noise stack t) w
    conclude-Safe t w g = concludes t w t.negotiate.finished t.negotiate.accepted refl refl g

    pub test-Safe :
        (t : InTalk net noise stack) (w : W)
        → Good t
        → Returns (wait_unless_finished net noise stack t) w
    unfolding wait_unless_finished is_finished
    test-Safe t w g =
        elim t.negotiate.finished
          as (λ b.
            Leaves {E = HandshakeError disco.ReadError} SafeTurn
              ((elim b as (λ _. Step net noise stack) [
                | true ↦ conclude net noise stack t
                | false ↦ pure (wait (negotiating t))
              ])
                w).0) [ true ↦ conclude-Safe t w g | false ↦ g ]

    initiator_reply-Safe :
        (m : Option Message) (t : InTalk net noise stack)
        → Good t
        → Always SafeTurn (initiator_reply net noise stack m t)
    unfolding initiator_reply
    initiator_reply-Safe none t g = λ w. conclude-Safe t w g
    initiator_reply-Safe (some m) t g =
        Always-bind (Keeps t) SafeTurn _ _ (write_talking-Keeps (some m) none t)
          λ t' k w. test-Safe t' w (keep-Good t t' k g)

    abbrev pub Answered : Option Message × Negotiation → Type 0
    Answered (m, n) = IsValid ps n

    pub initiator_talks-Safe :
        (t : InTalk net noise stack) → Good t → Always SafeTurn (initiator_talks net noise stack t)
    unfolding initiator_talks
    initiator_talks-Safe t g =
        Always-bind (Keeps2 t) SafeTurn _ _ (read_talking-Keeps t) λ (msg, t') k.
          let g' = keep-Good t t' k g in
          Always-bind Answered SafeTurn _ _
            (λ w. answer-Leaves disco.ReadError msg t'.negotiate g'.0)
            λ (m, n) v. initiator_reply-Safe m (record t' { negotiate = n }) (v, g'.1)
