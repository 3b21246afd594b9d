-- ===== src/Handshake/Agreement.antt =====
-- The whole handshake of efcp/src/lib.rs, of a dialer and a listener over a reliable wire.
use efcp.Prelude.{
  ℕ, zero, suc, ◌+◌, ◌*◌, ◌≤◌, ◌<◌, ◌≡◌, refl, ap, sym, subst, ◌∙◌, true, List, [], ◌∷◌, Option,
  none, some, arith, length, All,
}
use efcp.Outcome.{ok, usize_mod}
use efcp.Text.{Str}
use efcp.Addr.{Addr, IpText}
use efcp.Negotiation.{Negotiation, initiate, message, propose}
use efcp.Negotiation
use efcp.Negotiation.Message.{Message}
use efcp.Negotiation.Exchange.{Sides, exchange, to_responder, to_initiator}
use efcp.Negotiation.Choice.{choice}
use efcp.Negotiation.Agreement.{Settled, exchange-Settles}
use efcp.HandshakePacket.RoundTrip.{IsShortAddr}
use efcp.Secure.{Disco}
use efcp.Handshake.Noise.{Noise}
use efcp.Handshake.Transport.{Stack, IsStack}
use efcp.Handshake.Replies.{
  packet_len, IsOpen, IsShort, Closing, fails, Replies, counter, close, propose-Replies,
  Closing-reply,
}
use efcp.Handshake.Exchange.{Pair, rounds, start}
use efcp.Handshake.Steps.{same_reply, deliver-some}
use efcp.Handshake.Talk.{
  Closing-IsText, onward_to_initiator, onward_to_responder, ends_at_initiator, ends_at_responder,
}
use efcp.Handshake.Outcomes.{Agree, both_finished, both_open, first_of, begun, initiate_new}

module _ (net : IpText) {disco : Disco} (noise : Noise disco) {C L M W : Type 0}
    (stack : Stack disco.State C L M W) {limit : ℕ} {Apart : C → C → W → Type 0}
    {Ready : L → L → W → Type 0} {Ready' : M → M → W → Type 0}
    (ends : IsStack stack limit disco.Peers Apart Ready Ready')
    (room : packet_len + noise.overhead ≤ limit) (i r : noise.Keypair) (addr : Addr)
    (short : IsShortAddr net (some addr)) where
  accepted_of :
      (p : Option Str) (s s' : Sides)
      → some s' ≡ some s
      → Settled p s
      → (s'.0.accepted ≡ p) × (s'.1.accepted ≡ p)
  accepted_of p s s' e settled =
      let same : s' ≡ s = cc in
      (
        ap (λ (z : Sides). z.0.accepted) same ∙ settled.initiator,
        ap (λ (z : Sides). z.1.accepted) same ∙ settled.responder,
      )

  module _ (f k : ℕ) (dialer listener : C) (p : Str) (ps qs : List Str) (w : W)
      (apart : Apart dialer listener w) (shorts : All IsShort (p ∷ ps)) (enough : f ≤ k) where
    abbrev a0 : Negotiation
    a0 = begun (p ∷ ps)

    abbrev run_of : Pair net noise stack
    run_of =
        rounds net noise stack (suc (suc k))
          (start net noise stack dialer listener i r (p ∷ ps) qs addr w)

    -- The listener's reply to the first message is its last word.
    closed_first :
        (m : Message) (l : Negotiation) (v : Option Str) (s : Sides)
        → Closing m
        → message {R = Unit} (Message.propose p) (Negotiation.new qs) ≡ (ok (some m), l)
        → l.finished ≡ true
        → to_initiator (suc (suc f)) a0 l m ≡ some s
        → Settled v s
        → Agree net noise stack i r addr v run_of
    closed_first m l v s c says done e settled =
        let (n, says', over) = Closing-reply {R = Unit} m a0 c in
        let (is, is') =
          accepted_of v s (n, l) (sym (ends_at_initiator (suc f) m a0 l n says') ∙ e) settled in
        both_finished net noise stack ends room i r addr short k dialer listener (p ∷ ps) qs w apart
          shorts.0 (some m) none n l l v (Closing-IsText net noise stack ends (omega arith) m c) tt
          (same_reply (Message.propose p) (Negotiation.new qs) l (some m) says)
          (same_reply m a0 n none says') (refl, refl) over done is is'

    -- The listener proposes `q`, and the dialer's reply is its last word.
    closed_second :
        (q : Str) (m : Message) (n l : Negotiation) (v : Option Str) (s : Sides)
        → IsShort q
        → Closing m
        → message {R = Unit} (Message.propose p) (Negotiation.new qs)
          ≡ (ok (some (Message.propose q)), l)
        → message {R = Unit} (Message.propose q) a0 ≡ (ok (some m), n)
        → n.finished ≡ true
        → to_responder (suc f) n l m ≡ some s
        → Settled v s
        → Agree net noise stack i r addr v run_of
    closed_second q m n l v s short_q c says says' done e settled =
        let (l', says'', over) = Closing-reply {R = Unit} m l c in
        let (is, is') =
          accepted_of v s (n, l') (sym (ends_at_responder f m n l l' says'') ∙ e) settled in
        both_finished net noise stack ends room i r addr short k dialer listener (p ∷ ps) qs w apart
          shorts.0 (some (Message.propose q)) (some m) n l l' v short_q
          (Closing-IsText net noise stack ends (omega arith) m c)
          (same_reply (Message.propose p) (Negotiation.new qs) l (some (Message.propose q)) says)
          (same_reply (Message.propose q) a0 n (some m) says') (same_reply m l l' none says'') done
          over is is'

    -- The dialer proposes `q'` in return.
    open_third :
        (q q' : Str) (n l : Negotiation) (v : Option Str) (s : Sides)
        → IsShort q
        → IsShort q'
        → message {R = Unit} (Message.propose p) (Negotiation.new qs)
          ≡ (ok (some (Message.propose q)), l)
        → message {R = Unit} (Message.propose q) a0 ≡ (ok (some (Message.propose q')), n)
        → IsOpen n
        → IsOpen l
        → to_responder (suc f) n l (Message.propose q') ≡ some s
        → Settled v s
        → Agree net noise stack i r addr v run_of
    unfolding to_responder
    open_third q q' n l v s short_q short_q' says says' still open_l e settled =
        let (o, l', says'') = deliver-some (message (Message.propose q') l) _ _ s e in
        let (m, is, rep) = propose-Replies q' l l' o open_l says'' in
        let step : message {R = Unit} (Message.propose q') l ≡ (ok (some m), l') =
          says'' ∙ ap (λ x. (ok x, l')) is in
        both_open net noise stack ends room i r addr short k dialer listener (p ∷ ps) qs w apart
          shorts.0 f (some (Message.propose q)) (some (Message.propose q')) m n l l' s v short_q
          short_q'
          (same_reply (Message.propose p) (Negotiation.new qs) l (some (Message.propose q)) says)
          (same_reply (Message.propose q) a0 n (some (Message.propose q')) says')
          (same_reply (Message.propose q') l l' (some m) step) enough still rep
          (sym (onward_to_initiator f (Message.propose q') m n l l' step) ∙ e) settled

    -- From the reply `m` of the listener to the first message on.
    from_first :
        (m : Message) (l : Negotiation) (v : Option Str) (s : Sides)
        → IsOpen a0
        → Replies m l
        → message {R = Unit} (Message.propose p) (Negotiation.new qs) ≡ (ok (some m), l)
        → to_initiator (suc (suc f)) a0 l m ≡ some s
        → Settled v s
        → Agree net noise stack i r addr v run_of
    unfolding to_initiator
    from_first m l v s still (close c done) says e settled =
        closed_first m l v s c says done e settled
    from_first m l v s still (counter q eq short_q open_l) says e settled =
        let e' : to_initiator (suc (suc f)) a0 l (Message.propose q) ≡ some s =
          subst (λ x. to_initiator (suc (suc f)) a0 l x ≡ some s) eq e in
        let says1 : message {R = Unit} (Message.propose p) (Negotiation.new qs)
            ≡ (ok (some (Message.propose q)), l) =
          says ∙ ap (λ x. (ok (some x), l)) eq in
        let (o, n, says') = deliver-some (message (Message.propose q) a0) _ _ s e' in
        let (m2, is, rep) = propose-Replies q a0 n o still says' in
        let step : message {R = Unit} (Message.propose q) a0 ≡ (ok (some m2), n) =
          says' ∙ ap (λ x. (ok x, n)) is in
        let e2 : to_responder (suc f) n l m2 ≡ some s =
          sym (onward_to_responder (suc f) (Message.propose q) m2 a0 l n step) ∙ e' in
        elim rep [
          | close c done ↦ closed_second q m2 n l v s short_q c says1 step done e2 settled
          | counter q' eq' short_q' open_n ↦
              open_third q q' n l v s short_q short_q' says1 (step ∙ ap (λ x. (ok (some x), n)) eq')
                open_n open_l (subst (λ x. to_responder (suc f) n l x ≡ some s) eq' e2) settled
        ]

  begins_at :
      (fuel : ℕ) (ps qs : List Str)
      → exchange fuel (Negotiation.new ps) (Negotiation.new qs)
        ≡ to_responder fuel (begun ps) (Negotiation.new qs) (first_of ps)
  unfolding exchange
  begins_at fuel ps qs = rw (initiate_new ps) refl

  IsOpen-new : (qs : List Str) → All IsShort qs → IsOpen (Negotiation.new qs)
  unfolding Negotiation.new
  IsOpen-new qs h = record { unfinished = refl; short = h }

  IsOpen-begun : (p : Str) (ps : List Str) → All IsShort (p ∷ ps) → IsOpen (begun (p ∷ ps))
  unfolding Negotiation.new
  IsOpen-begun p ps h = record { unfinished = refl; short = h }

  -- The exchange of the negotiations, as the two futures run it.
  runs_exchange :
      (f k : ℕ) (dialer listener : C) (ps qs : List Str) (w : W) (v : Option Str) (s : Sides)
      → Apart dialer listener w
      → All IsShort ps
      → All IsShort qs
      → f ≤ k
      → to_responder (suc (suc (suc f))) (begun ps) (Negotiation.new qs) (first_of ps) ≡ some s
      → Settled v s
      → Agree net noise stack i r addr v (
          rounds net noise stack
            (suc (suc k))
            (start net noise stack dialer listener i r ps qs addr w))
  unfolding to_responder
  runs_exchange f k dialer listener [] qs w v s apart short_p short_q h e settled =
      let (l, says, over) = Closing-reply {R = Unit} Message.fail (Negotiation.new qs) fails in
      let (is, is') =
        accepted_of v s (begun [], l)
          (sym (ends_at_responder (suc (suc f)) Message.fail (begun []) (Negotiation.new qs) l says)
            ∙ e)
          settled in
      both_finished net noise stack ends room i r addr short k dialer listener [] qs w apart tt none
        none (begun []) l l v tt tt (same_reply Message.fail (Negotiation.new qs) l none says)
        (refl, refl) (refl, refl) refl over is is'
  runs_exchange f k dialer listener (p ∷ ps) qs w v s apart short_p short_q h e settled =
      let (o, l, says) = deliver-some (message (Message.propose p) (Negotiation.new qs)) _ _ s e in
      let (m, is, rep) = propose-Replies p (Negotiation.new qs) l o (IsOpen-new qs short_q) says in
      let step : message {R = Unit} (Message.propose p) (Negotiation.new qs) ≡ (ok (some m), l) =
        says ∙ ap (λ x. (ok x, l)) is in
      from_first f k dialer listener p ps qs w apart short_p h m l v s (IsOpen-begun p ps short_p)
        rep step
        (sym (
            onward_to_initiator (suc (suc f)) (Message.propose p) m (begun (p ∷ ps))
              (Negotiation.new qs) l step)
          ∙ e)
        settled

  -- For a dialer with the protocols `ps` and a listener with `qs`, over a stack of channels that
  -- delivers packets in turn and whose limit leaves room for a packet of 513 bytes and the
  -- session's overhead, with an address of at most 255 bytes, protocols that are UTF-8 of at most
  -- 255 bytes, and fewer of them than a `usize` counts: after `2 * length qs + 5` rounds or more
  -- both futures have returned. If the lists have a choice, both return a channel with the chosen
  -- protocol and the public key of the other side, the dialer's with the address under which the
  -- listener saw it, and the listener's with none. If there is no choice, both return the error
  -- `Negotiation`.
  pub rounds-Agree :
      (n : ℕ) (dialer listener : C) (ps qs : List Str) (w : W)
      → Apart dialer listener w
      → All IsShort ps
      → All IsShort qs
      → length ps + 1 < usize_mod
      → length qs + 1 < usize_mod
      → 2 * length qs + 5 ≤ n
      → Agree net noise stack i r addr
          (choice ps qs)
          (rounds net noise stack n (start net noise stack dialer listener i r ps qs addr w))
  rounds-Agree zero dialer listener ps qs w apart short_p short_q room_p room_q h =
      absurd (omega arith)
  rounds-Agree (suc zero) dialer listener ps qs w apart short_p short_q room_p room_q h =
      absurd (omega arith)
  rounds-Agree (suc (suc k)) dialer listener ps qs w apart short_p short_q room_p room_q h =
      let fuel : ℕ = suc (suc (suc (2 * length qs))) in
      let (s, ran, settled) = exchange-Settles fuel ps qs room_p room_q (omega arith) in
      runs_exchange (2 * length qs) k dialer listener ps qs w (choice ps qs) s apart short_p short_q
        (omega arith) (sym (begins_at fuel ps qs) ∙ ran) settled
