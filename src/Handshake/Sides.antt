-- ===== src/Handshake/Sides.antt =====
-- The polls of each side keep what `Sound` says of its locals.
use efcp.Prelude.{
  ◌≡◌, refl, sym, subst, true, false, Bool, Bool-cases, inl, inr, List, Option, none, some,
}
use efcp.Outcome.{ok_or}
use efcp.HandshakeError.{external_addr}
use efcp.Outcome.Exec.{pure, lift, ◌>>=◌}
use efcp.Outcome.Leaves.{Always, Always-bind}
use efcp.Text.{Str}
use efcp.Addr.{Addr, IpText}
use efcp.Negotiation.Message.{Message}
use efcp.Negotiation.Invariant.{IsValid}
use efcp.HandshakePacket.{take_external_addr}
use efcp.Secure.{Disco}
use efcp.Handshake.Noise.{Noise}
use efcp.Handshake.Transport.{Stack}
use efcp.Handshake.Defs.{
  shaking, wait, InTalk, InShake, Step, wait_unless_finished, initiator_seals, initiator_shakes,
  initiator_hears, responder_loop, responder_talks, responder_shakes, responder_hears,
}
use efcp.Handshake.Sound.{
  SafeTurn, Keeps, KeepsShake, Keeps2, KeepsShake2, read_talking-Keeps, write_talking-Keeps,
  read_shaking-Keeps, write_shaking-Keeps, Sealed, enter_transport-Sealed, Good, keep-Good,
  conclude-Safe, test-Safe, Answered, answer-Leaves,
}

module _ (ps : List Str) (net : IpText) {disco : Disco} (noise : Noise disco) {C L M W : Type 0}
    (stack : Stack disco.State C L M W) (Known : Option Addr → Type 0) where
  -- The second loop of the responder, which gives its address away.
  module _ (forgets : Known none) where
    responder_loop-Safe :
        (m : Option Message) (t : InTalk net noise stack)
        → Good ps net noise stack Known t
        → Always (SafeTurn ps net noise stack Known) (responder_loop net noise stack m t)
    unfolding responder_loop
    responder_loop-Safe none t g = λ w. conclude-Safe ps net noise stack Known t w g
    responder_loop-Safe (some m) t g =
        Always-bind (Keeps ps net noise stack Known t) (SafeTurn ps net noise stack Known) _ _
          (write_talking-Keeps ps net noise stack Known (some m) t.external_addr t)
          λ t' k w.
            test-Safe ps net noise stack Known (record t' { external_addr = none }) w
              ((keep-Good ps net noise stack Known t t' k g).0, forgets)

    pub responder_talks-Safe :
        (t : InTalk net noise stack)
        → Good ps net noise stack Known t
        → Always (SafeTurn ps net noise stack Known) (responder_talks net noise stack t)
    unfolding responder_talks
    responder_talks-Safe t g =
        Always-bind (Keeps2 ps net noise stack Known t) (SafeTurn ps net noise stack Known) _ _
          (read_talking-Keeps ps net noise stack Known t)
          λ (msg, t') k.
            let g' = keep-Good ps net noise stack Known t t' k g in
            Always-bind (Answered ps net noise stack Known) (SafeTurn ps net noise stack Known) _ _
              (λ w. answer-Leaves ps disco.ReadError msg t'.negotiate g'.0)
              λ (m, n) v. responder_loop-Safe m (record t' { negotiate = n }) (v, g'.1)

    responder_shakes-Safe :
        (m : Option Message) (s : InShake net noise stack)
        → IsValid ps s.negotiate
        → Known s.external_addr
        → Always (SafeTurn ps net noise stack Known) (responder_shakes net noise stack m s)
    unfolding responder_shakes
    responder_shakes-Safe m s v known = elim (Bool-cases (noise.is_handshake_finished s.session)) [
      | inl done ↦
          rw (responder_shakes, done)
            (Always-bind (Sealed ps net noise stack Known s) (SafeTurn ps net noise stack Known) _ _
              (enter_transport-Sealed ps net noise stack Known s)
              λ t k.
                responder_loop-Safe m t
                  (subst (IsValid ps) (sym k.0) v, subst Known (sym k.1) known))
      | inr more ↦
          rw (responder_shakes, more)
            (Always-bind (KeepsShake ps net noise stack Known s) (SafeTurn ps net noise stack Known)
              _ _ (write_shaking-Keeps ps net noise stack Known m s.external_addr s)
              λ s' k w. subst (IsValid ps) (sym k.0) v)
    ]

    pub responder_hears-Safe :
        (s : InShake net noise stack)
        → IsValid ps s.negotiate
        → Known s.external_addr
        → Always (SafeTurn ps net noise stack Known) (responder_hears net noise stack s)
    unfolding responder_hears
    responder_hears-Safe s v known =
        Always-bind (KeepsShake2 ps net noise stack Known s) (SafeTurn ps net noise stack Known) _ _
          (read_shaking-Keeps ps net noise stack Known s)
          λ (msg, s') k.
            Always-bind (Answered ps net noise stack Known) (SafeTurn ps net noise stack Known) _ _
              (λ w.
                answer-Leaves ps disco.ReadError msg s'.negotiate (subst (IsValid ps) (sym k.0) v))
              λ (m, n) v'.
                responder_shakes-Safe m (record s' { negotiate = n }) v'
                  (subst Known (sym k.1) known)

  -- The dialer does not leave the first loop without an address.
  module _ (given : (a : Addr) → Known (some a)) where
    seals_known :
        (t : InTalk net noise stack) (o : Option Addr)
        → t.external_addr ≡ o
        → IsValid ps t.negotiate
        → Always
            (SafeTurn ps net noise stack Known)
            (lift (ok_or o external_addr) >>= λ _. wait_unless_finished net noise stack t)
    seals_known t none e v w = tt
    seals_known t (some a) e v w = test-Safe ps net noise stack Known t w (v, rw e (given a))

    initiator_seals-Safe :
        (s : InShake net noise stack)
        → IsValid ps s.negotiate
        → Always (SafeTurn ps net noise stack Known) (initiator_seals net noise stack s)
    unfolding initiator_seals
    initiator_seals-Safe s v =
        Always-bind (Sealed ps net noise stack Known s) (SafeTurn ps net noise stack Known) _ _
          (enter_transport-Sealed ps net noise stack Known s)
          λ t k. seals_known t t.external_addr refl (subst (IsValid ps) (sym k.0) v)

    shaken :
        (s : InShake net noise stack) (b : Bool)
        → noise.is_handshake_finished s.session ≡ b
        → IsValid ps s.negotiate
        → Always
            (SafeTurn ps net noise stack Known)
            (elim (noise.is_handshake_finished s.session) as (λ _. Step net noise stack) [
              | true ↦ initiator_seals net noise stack s
              | false ↦ pure (wait (shaking s))
            ])
    shaken s true e v = rw e (initiator_seals-Safe s v)
    shaken s false e v = rw e (λ w. v)

    initiator_shakes-Safe :
        (m : Option Message) (s : InShake net noise stack)
        → IsValid ps s.negotiate
        → Always (SafeTurn ps net noise stack Known) (initiator_shakes net noise stack m s)
    unfolding initiator_shakes
    initiator_shakes-Safe m s v =
        Always-bind (KeepsShake ps net noise stack Known s) (SafeTurn ps net noise stack Known) _ _
          (write_shaking-Keeps ps net noise stack Known m none s)
          λ s' k.
            shaken s' (noise.is_handshake_finished s'.session) refl (subst (IsValid ps) (sym k.0) v)

    pub initiator_hears-Safe :
        (s : InShake net noise stack)
        → IsValid ps s.negotiate
        → Always (SafeTurn ps net noise stack Known) (initiator_hears net noise stack s)
    unfolding initiator_hears
    initiator_hears-Safe s v =
        Always-bind (KeepsShake2 ps net noise stack Known s) (SafeTurn ps net noise stack Known) _ _
          (read_shaking-Keeps ps net noise stack Known s)
          λ (msg, s') k.
            Always-bind (Answered ps net noise stack Known) (SafeTurn ps net noise stack Known) _ _
              (λ w.
                answer-Leaves ps disco.ReadError (take_external_addr msg).1 s'.negotiate
                  (subst (IsValid ps) (sym k.0) v))
              λ (m, n) v'. initiator_shakes-Safe m _ v'
