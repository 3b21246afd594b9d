-- ===== src/Handshake/Counter.antt =====
-- A proposal behind the first loop, and the reply that ends the exchange or counters it.
use efcp.Prelude.{ℕ, zero, suc, ◌≤◌, ◌≡◌, refl, ap, sym, ◌∙◌, true, false, List, none, some}
use efcp.Outcome.{ok}
use efcp.Text.{Str}
use efcp.Addr.{IpText}
use efcp.Negotiation.{Negotiation, message}
use efcp.Negotiation.Message.{Message}
use efcp.Negotiation.Exchange.{Sides, to_responder}
use efcp.Secure.{Disco}
use efcp.Handshake.Noise.{Noise}
use efcp.Handshake.Transport.{Stack, IsStack}
use efcp.Handshake.Replies.{Coded, encode, packet_len, IsOpen, IsShort, Closing, Closing-reply}
use efcp.Handshake.Passing.{InFlight}
use efcp.Handshake.Exchange.{
  Side, Pair, settle, waiting, round, rounds, then_initiator, then_initiator_talks, round_talks,
  beside,
}
use efcp.Handshake.Steps.{
  same_reply, outcome, initiator_talks_lem, responder_talks_lem, initiator_waits, initiator_ends,
  responder_waits,
}
use efcp.Handshake.Defs.{InTalk, negotiating, initiator_reply}
use efcp.Handshake.Talk.{
  Done, replying, closing_bytes, Done-now, responder_hears_last, ends_at_responder,
}

module _ (net : IpText) {disco : Disco} (noise : Noise disco) {C L M W : Type 0}
    (stack : Stack disco.State C L M W) {limit : ℕ} {Apart : C → C → W → Type 0}
    {Ready : L → L → W → Type 0} {Ready' : M → M → W → Type 0}
    (ends : IsStack stack limit disco.Peers Apart Ready Ready') (room : packet_len ≤ limit) where
  Done-round :
      (n : ℕ) (p p' : Pair net noise stack) (ti : InTalk net noise stack) (k : noise.PublicKey)
      (s : Sides)
      → p ≡ p'
      → Done net noise stack ends room (rounds net noise stack n (round net noise stack p')) ti k s
      → Done net noise stack ends room (rounds net noise stack (suc n) p) ti k s
  unfolding rounds
  Done-round n p p' ti k s e (c, d, w, h) =
      (c, d, w, ap (λ x. rounds net noise stack n (round net noise stack x)) e ∙ h)

  proposal_bytes :
      (q : Str) → IsShort q → (bs : List ℕ) × Coded net (some (Message.propose q)) none bs
  proposal_bytes q short = encode net (some (Message.propose q)) none short tt

  module _ (old : Side net noise stack) (ti tr : InTalk net noise stack) (w : W)
      (ready : Ready' tr.channel ti.channel w) (q : Str) (short : IsShort q)
      (or : IsOpen tr.negotiate) (a : Negotiation) (m : Message)
      (says : message {R = Unit} (Message.propose q) ti.negotiate ≡ (ok (some m), a)) where
    abbrev answering : M → W → InTalk net noise stack
    answering c w' = record ti { channel = c; negotiate = a }

    -- The responder makes the proposal `q`, and the initiator answers `m`.
    proposes :
        (tc : M) × (w' : W) × (f : InFlight stack.sealed Ready'
          (proposal_bytes q short).0
          tc
          ti.channel
          w')
        × (replying net noise stack ends room old ti tr (some (Message.propose q)) w
            ≡ beside net noise stack
                (waiting (negotiating (record tr { channel = tc; external_addr = none })))
                (settle
                  (waiting (negotiating ti))
                  (initiator_reply net noise stack (some m) (answering f.there w') f.after)))
    proposes =
        let (bs, coded) = proposal_bytes q short in
        let (tc, w', spoke, f) =
          responder_waits net noise stack ends room (Message.propose q) bs coded old tr ti.channel w
            ready or.unfinished in
        (
          tc,
          w',
          f,
          ap (then_initiator net noise stack (waiting (negotiating ti))) spoke
              ∙ then_initiator_talks net noise stack ti old _ w'
              ∙ (rw
                  (initiator_talks_lem net noise stack ends (Message.propose q) bs coded ti tc w' f
                    a (some m) (same_reply (Message.propose q) ti.negotiate a (some m) says))
                  refl),
        )

    -- The initiator's answer is its last word.
    pub proposal_closes :
        (f n : ℕ) (s : Sides)
        → Closing m
        → a.finished ≡ true
        → to_responder f a tr.negotiate m ≡ some s
        → Done net noise stack ends room
            (rounds net noise stack
              (suc n)
              (replying net noise stack ends room old ti tr (some (Message.propose q)) w))
            ti
            tr.remote
            s
    unfolding to_responder
    proposal_closes zero n s c done e = cc
    proposal_closes (suc f) n s c done e =
        let (bs, coded) = closing_bytes net noise stack ends room m c in
        let (tc, w', fl, spoke) = proposes in
        let (d, w'', spoke', fl') =
          initiator_ends net noise stack ends room m bs coded (waiting (negotiating ti))
            (answering fl.there w') tc fl.after fl.turn done in
        let (b, says', over) = Closing-reply {R = Unit} m tr.negotiate c in
        let heard_last =
          responder_hears_last net noise stack ends room m bs coded
            (record tr { channel = tc; external_addr = none }) d w'' fl' b says' over
            (outcome d ti.remote ti.external_addr a.accepted) in
        Done-round n _ _ ti tr.remote s (spoke ∙ ap (beside net noise stack _) spoke') (
          Done-now net noise stack ends room n _ ti tr.remote s (a, b)
            (d, fl'.there, fl'.after, heard_last)
            (sym (ends_at_responder f m a tr.negotiate b says') ∙ e))

  -- The responder proposes `q`, the initiator `q'`, and the responder answers `m`.
  pub both_propose :
      (n : ℕ) (old : Side net noise stack) (ti tr : InTalk net noise stack) (w : W) (q q' : Str)
      (a b : Negotiation) (m : Message)
      → Ready' tr.channel ti.channel w
      → IsShort q
      → IsShort q'
      → IsOpen tr.negotiate
      → a.finished ≡ false
      → message {R = Unit} (Message.propose q) ti.negotiate ≡ (ok (some (Message.propose q')), a)
      → message {R = Unit} (Message.propose q') tr.negotiate ≡ (ok (some m), b)
      → (old' : Side net noise stack) × (c d : M) × (w' : W) × Ready' d c w'
        × (rounds net noise stack
              (suc n)
              (replying net noise stack ends room old ti tr (some (Message.propose q)) w)
            ≡ rounds net noise stack n (
                replying net noise stack ends room old'
                  (record ti { channel = c; negotiate = a })
                  (record tr { channel = d; negotiate = b })
                  (some m)
                  w'))
  unfolding rounds
  both_propose n old ti tr w q q' a b m ready short short' or unfinished says says' =
      let (bs, coded) = proposal_bytes q' short' in
      let (tc, w1, fl, spoke) = proposes old ti tr w ready q short or a (Message.propose q') says in
      let (d, w2, spoke', fl') =
        initiator_waits net noise stack ends room (Message.propose q') bs coded
          (waiting (negotiating ti)) (record ti { channel = fl.there; negotiate = a }) tc fl.after
          fl.turn unfinished in
      let left : InTalk net noise stack = record tr { channel = tc; external_addr = none } in
      (
        waiting (negotiating left),
        d,
        fl'.there,
        fl'.after,
        fl'.turn,
        ap (λ p. rounds net noise stack n (round net noise stack p))
              (spoke ∙ ap (beside net noise stack (waiting (negotiating left))) spoke')
            ∙ ap (rounds net noise stack n) (
                round_talks net noise stack left
                  (waiting (negotiating (record ti { channel = d; negotiate = a }))) old w2
                ∙ (rw
                    (responder_talks_lem net noise stack ends (Message.propose q') bs coded left d
                      w2 fl' b (some m)
                      (same_reply (Message.propose q') tr.negotiate b (some m) says'))
                    refl)),
      )
