-- ===== src/Handshake/Onward.antt =====
-- The replies behind the first loop, and the exchange to its end.
use efcp.Prelude.{ℕ, subst, zero, suc, ◌≤◌, ◌≡◌, ap, sym, ◌∙◌, none, some, arith}
use efcp.Outcome.{ok}
use efcp.Text.{Str}
use efcp.Addr.{IpText}
use efcp.Negotiation.{message}
use efcp.Negotiation.Message.{Message}
use efcp.Negotiation.Exchange.{Sides, to_initiator, to_responder}
use efcp.Secure.{Disco}
use efcp.Handshake.Noise.{Noise}
use efcp.Handshake.Transport.{Stack, IsStack}
use efcp.Handshake.Replies.{packet_len, IsOpen, IsShort, Replies, counter, close, propose-Replies}
use efcp.Handshake.Exchange.{Side, Pair, rounds}
use efcp.Handshake.Steps.{deliver-some}
use efcp.Handshake.Defs.{InTalk}
use efcp.Handshake.Talk.{Done, replying, reply_closes, onward_to_initiator, onward_to_responder}
use efcp.Handshake.Counter.{both_propose, proposal_closes}

module _ (net : IpText) {disco : Disco} (noise : Noise disco) {C L M W : Type 0}
    (stack : Stack disco.State C L M W) {limit : ℕ} {Apart : C → C → W → Type 0}
    {Ready : L → L → W → Type 0} {Ready' : M → M → W → Type 0}
    (ends : IsStack stack limit disco.Peers Apart Ready Ready') (room : packet_len ≤ limit) where
  Done-path :
      (p p' : Pair net noise stack) (ti : InTalk net noise stack) (k : noise.PublicKey) (s : Sides)
      → p ≡ p'
      → Done net noise stack ends room p' ti k s
      → Done net noise stack ends room p ti k s
  Done-path p p' ti k s e (c, d, w, h) = (c, d, w, e ∙ h)

  -- The responder makes the reply `m`, when the exchange behind a proposal is known.
  reply_lem :
      (f n : ℕ) (old : Side net noise stack) (ti tr : InTalk net noise stack) (w : W) (m : Message)
      (s : Sides)
      → Ready' tr.channel ti.channel w
      → ((q : Str)
          → IsOpen tr.negotiate
          → IsShort q
          → to_initiator f ti.negotiate tr.negotiate (Message.propose q) ≡ some s
          → Done net noise stack ends room
              (rounds net noise stack n
                (replying net noise stack ends room old ti tr (some (Message.propose q)) w))
              ti
              tr.remote
              s)
      → Replies m tr.negotiate
      → to_initiator f ti.negotiate tr.negotiate m ≡ some s
      → Done net noise stack ends room
          (rounds net noise stack n (replying net noise stack ends room old ti tr (some m) w))
          ti
          tr.remote
          s
  reply_lem f n old ti tr w m s ready behind (close last done) e =
      reply_closes net noise stack ends room old ti tr w ready f n m s last done e
  reply_lem f n old ti tr w m s ready behind (counter q eq short or) e =
      subst
        (λ x.
          Done net noise stack ends room
            (rounds net noise stack n (replying net noise stack ends room old ti tr (some x) w)) ti
            tr.remote s)
        (sym eq)
        (behind q or short (subst (λ x. to_initiator f ti.negotiate tr.negotiate x ≡ some s) eq e))

  -- The responder makes the proposal `q`; the initiator answers, and so on.
  after_counter :
      (f n : ℕ) (old : Side net noise stack) (ti tr : InTalk net noise stack) (w : W) (q : Str)
      (s : Sides)
      → f ≤ n
      → Ready' tr.channel ti.channel w
      → IsOpen ti.negotiate
      → IsOpen tr.negotiate
      → IsShort q
      → to_initiator f ti.negotiate tr.negotiate (Message.propose q) ≡ some s
      → Done net noise stack ends room
          (rounds net noise stack n
            (replying net noise stack ends room old ti tr (some (Message.propose q)) w))
          ti
          tr.remote
          s
  unfolding to_initiator to_responder
  after_counter zero n old ti tr w q s h ready oi or short e = cc
  after_counter (suc f) zero old ti tr w q s h ready oi or short e = elim h [ ]
  after_counter (suc zero) (suc n) old ti tr w q s h ready oi or short e =
      let (r, a, says) = deliver-some (message (Message.propose q) ti.negotiate) _ _ s e in
      let (m, is, rep) = propose-Replies q ti.negotiate a r oi says in
      let step : message {R = Unit} (Message.propose q) ti.negotiate ≡ (ok (some m), a) =
        says ∙ ap (λ o. (ok o, a)) is in
      let none_left : none ≡ some s =
        sym (onward_to_responder zero (Message.propose q) m ti.negotiate tr.negotiate a step) ∙ e in
      cc
  after_counter (suc (suc f)) (suc n) old ti tr w q s h ready oi or short e =
      let (r, a, says) = deliver-some (message (Message.propose q) ti.negotiate) _ _ s e in
      let (m, is, rep) = propose-Replies q ti.negotiate a r oi says in
      let step : message {R = Unit} (Message.propose q) ti.negotiate ≡ (ok (some m), a) =
        says ∙ ap (λ o. (ok o, a)) is in
      let e' : to_responder (suc f) a tr.negotiate m ≡ some s =
        sym (onward_to_responder (suc f) (Message.propose q) m ti.negotiate tr.negotiate a step)
        ∙ e in
      elim rep [
        | close c done ↦
            proposal_closes net noise stack ends room old ti tr w ready q short or a m step (suc f)
              n s c done e'
        | counter q' eq short' oi' ↦
            let e2 : to_responder (suc f) a tr.negotiate (Message.propose q') ≡ some s =
              subst (λ x. to_responder (suc f) a tr.negotiate x ≡ some s) eq e' in
            let (r2, b, says2) =
              deliver-some (message (Message.propose q') tr.negotiate) _ _ s e2 in
            let (m2, is2, rep2) = propose-Replies q' tr.negotiate b r2 or says2 in
            let step2 : message {R = Unit} (Message.propose q') tr.negotiate ≡ (ok (some m2), b) =
              says2 ∙ ap (λ o. (ok o, b)) is2 in
            let e3 : to_initiator f a b m2 ≡ some s =
              sym (onward_to_initiator f (Message.propose q') m2 a tr.negotiate b step2) ∙ e2 in
            let (old', c, d, w', ready', path) =
              both_propose net noise stack ends room n old ti tr w q q' a b m2 ready short short' or
                oi'.unfinished (step ∙ ap (λ x. (ok (some x), a)) eq) step2 in
            let ti' : InTalk net noise stack = record ti { channel = c; negotiate = a } in
            let tr' : InTalk net noise stack = record tr { channel = d; negotiate = b } in
            Done-path _ _ ti tr.remote s path (
              reply_lem f n old' ti' tr' w' m2 s ready'
                (λ q2 or2 short2 e4.
                  after_counter f n old' ti' tr' w' q2 s (omega arith) ready' oi' or2 short2 e4)
                rep2 e3)
      ]

  -- The responder makes the reply `m`, and the two talk on to the end of their exchange.
  pub after_reply :
      (f n : ℕ) (old : Side net noise stack) (ti tr : InTalk net noise stack) (w : W) (m : Message)
      (s : Sides)
      → f ≤ n
      → Ready' tr.channel ti.channel w
      → IsOpen ti.negotiate
      → Replies m tr.negotiate
      → to_initiator f ti.negotiate tr.negotiate m ≡ some s
      → Done net noise stack ends room
          (rounds net noise stack n (replying net noise stack ends room old ti tr (some m) w))
          ti
          tr.remote
          s
  after_reply f n old ti tr w m s h ready oi replies e =
      reply_lem f n old ti tr w m s ready
        (λ q or short e'. after_counter f n old ti tr w q s h ready oi or short e') replies e
