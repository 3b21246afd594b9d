-- ===== src/Handshake/Talk.antt =====
-- Behind the first loop the two sides run the exchange of their negotiations to its end.
use efcp.Prelude.{ℕ, subst, zero, suc, ◌≤◌, ◌≡◌, refl, ap, sym, ◌∙◌, true, List, Option, none, some}
use efcp.Outcome.{Outcome, ok}
use efcp.HandshakeError.{HandshakeError}
use efcp.HandshakePacket.RoundTrip.{IsText}
use efcp.Addr.{IpText}
use efcp.Negotiation.{Negotiation, message}
use efcp.Negotiation.Message.{Message}
use efcp.Negotiation.Exchange.{Sides, to_initiator, to_responder}
use efcp.Secure.{Disco}
use efcp.Handshake.Noise.{Noise}
use efcp.Handshake.Transport.{Stack, IsStack}
use efcp.Handshake.Replies.{Coded, encode, packet_len, Closing, accepts, fails, Closing-reply}
use efcp.Handshake.Passing.{InFlight}
use efcp.Handshake.Exchange.{
  Side, Pair, settle, waiting, returned, round, rounds, then_initiator, rounds-returned,
  then_initiator_talks, round_talks, then_initiator_returned,
}
use efcp.Handshake.Steps.{
  same_reply, outcome, ended, conclude_lem, heard, initiator_talks_lem, responder_talks_lem,
  responder_ends,
}
use efcp.Handshake.Defs.{EfcpChannel, InTalk, negotiating, initiator_reply, responder_loop}

-- `to_responder` and `to_initiator`, one message at a time.
module _ (f : ℕ) (m r : Message) (a b n : Negotiation) where
  pub onward_to_initiator :
      message {R = Unit} m b ≡ (ok (some r), n) → to_responder (suc f) a b m ≡ to_initiator f a n r
  unfolding to_responder
  onward_to_initiator e = rw e refl

  pub onward_to_responder :
      message {R = Unit} m a ≡ (ok (some r), n) → to_initiator (suc f) a b m ≡ to_responder f n b r
  unfolding to_initiator
  onward_to_responder e = rw e refl

module _ (f : ℕ) (m : Message) (a b n : Negotiation) where
  pub ends_at_initiator :
      message {R = Unit} m a ≡ (ok none, n) → to_initiator (suc f) a b m ≡ some (n, b)
  unfolding to_initiator
  ends_at_initiator e = rw e refl

  pub ends_at_responder :
      message {R = Unit} m b ≡ (ok none, n) → to_responder (suc f) a b m ≡ some (a, n)
  unfolding to_responder
  ends_at_responder e = rw e refl

module _ (net : IpText) {disco : Disco} (noise : Noise disco) {C L M W : Type 0}
    (stack : Stack disco.State C L M W) {limit : ℕ} {Apart : C → C → W → Type 0}
    {Ready : L → L → W → Type 0} {Ready' : M → M → W → Type 0}
    (ends : IsStack stack limit disco.Peers Apart Ready Ready') (room : packet_len ≤ limit) where
  -- Both have returned, as the final negotiations say.
  abbrev pub Done : Pair net noise stack → InTalk net noise stack → noise.PublicKey → Sides → Type 0
  Done p ti remote s =
      (c d : M) × (w : W) × (p ≡ (
        returned (outcome c ti.remote ti.external_addr s.0.accepted),
        returned (outcome d remote none s.1.accepted),
        w,
      ))

  -- The round in which the responder makes the reply `r`, the initiator waiting.
  abbrev pub replying :
      Side net noise stack
      → InTalk net noise stack
      → InTalk net noise stack
      → Option Message
      → W
      → Pair net noise stack
  replying old ti tr r w =
      then_initiator net noise stack (waiting (negotiating ti))
        (settle old (responder_loop net noise stack r (record tr { external_addr = none }) w))

  module _ (m : Message) (bs : List ℕ) (coded : Coded net (some m) none bs)
      (t : InTalk net noise stack) (c : M) (w : W)
      (f : InFlight stack.sealed Ready' bs c t.channel w) (n : Negotiation) where
    -- A side that hears a message to which it has no reply returns.
    module _ (says : message {R = Unit} m t.negotiate ≡ (ok none, n))
        (done : n.finished ≡ true) where
      abbrev pub last : InTalk net noise stack
      last =
          heard net noise stack ends m bs coded t c w f n none
            (same_reply m t.negotiate n none says)

      pub initiator_hears_last :
          (r : Side net noise stack)
          → then_initiator net noise stack (waiting (negotiating t)) (r, w)
            ≡ (ended net noise stack last n.accepted, r, f.after)
      unfolding initiator_reply
      initiator_hears_last r =
          then_initiator_talks net noise stack t r r w
          ∙ (rw
              (
                initiator_talks_lem net noise stack ends m bs coded t c w f n none
                    (same_reply m t.negotiate n none says),
                conclude_lem net noise stack (waiting (negotiating t)) last f.after done,
              )
              refl)

      pub responder_hears_last :
          (r : Outcome (HandshakeError disco.ReadError) (EfcpChannel noise.PublicKey M))
          → round net noise stack (returned r, waiting (negotiating t), w)
            ≡ (returned r, ended net noise stack last n.accepted, f.after)
      unfolding responder_loop
      responder_hears_last r =
          round_talks net noise stack t (returned r) (returned r) w
          ∙ then_initiator_returned net noise stack r _
          ∙ (rw
              (
                responder_talks_lem net noise stack ends m bs coded t c w f n none
                    (same_reply m t.negotiate n none says),
                conclude_lem net noise stack (waiting (negotiating t)) last f.after done,
              )
              refl)

  pub Closing-IsText : (m : Message) → Closing m → IsText (some m)
  Closing-IsText _ accepts = tt
  Closing-IsText _ fails = tt

  pub closing_bytes : (m : Message) → Closing m → (bs : List ℕ) × Coded net (some m) none bs
  closing_bytes m c = encode net (some m) none (Closing-IsText m c) tt

  pub Done-now :
      (n : ℕ) (p : Pair net noise stack) (ti : InTalk net noise stack) (k : noise.PublicKey)
      (s s' : Sides)
      → Done p ti k s'
      → some s' ≡ some s
      → Done (rounds net noise stack n p) ti k s
  Done-now n p ti k s s' (c, d, w, e) same =
      let same_sides : s' ≡ s = cc in
      (
        c,
        d,
        w,
        subst
            (λ (z : Sides). rounds net noise stack n p ≡ (
              returned (outcome c ti.remote ti.external_addr z.0.accepted),
              returned (outcome d k none z.1.accepted),
              w,
            ))
            same_sides (ap (rounds net noise stack n) e ∙ rounds-returned net noise stack n _ _ w),
      )

  module _ (old : Side net noise stack) (ti tr : InTalk net noise stack) (w : W)
      (ready : Ready' tr.channel ti.channel w) where
    -- The responder's reply is its last word.
    pub reply_closes :
        (f n : ℕ) (m : Message) (s : Sides)
        → Closing m
        → tr.negotiate.finished ≡ true
        → to_initiator f ti.negotiate tr.negotiate m ≡ some s
        → Done (rounds net noise stack n (replying old ti tr (some m) w)) ti tr.remote s
    unfolding to_initiator
    reply_closes zero n m s c done e = cc
    reply_closes (suc f) n m s c done e =
        let (bs, coded) = closing_bytes m c in
        let (a, says, over) = Closing-reply {R = Unit} m ti.negotiate c in
        let (d, w', spoke, fl) =
          responder_ends net noise stack ends room m bs coded old tr ti.channel w ready done in
        Done-now n (replying old ti tr (some m) w) ti tr.remote s (a, tr.negotiate)
          (
            fl.there,
            d,
            fl.after,
            ap (then_initiator net noise stack (waiting (negotiating ti))) spoke
                ∙ initiator_hears_last m bs coded ti d w' fl a says over _,
          )
          (sym (ends_at_initiator f m ti.negotiate tr.negotiate a says) ∙ e)
