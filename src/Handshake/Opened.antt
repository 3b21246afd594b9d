-- ===== src/Handshake/Opened.antt =====
-- The two rounds of the first loop, from the start of both futures.
use efcp.Prelude.{ℕ, suc, ◌+◌, ◌≤◌, ◌≡◌, refl, ap, ◌∙◌, Bool, true, false, List, Option, none, some}
use efcp.Outcome.{ok}
use efcp.Text.{Str}
use efcp.Addr.{Addr, IpText}
use efcp.Negotiation.{Negotiation, initiate, message, into_protocol}
use efcp.Negotiation
use efcp.Negotiation.Message.{Message}
use efcp.HandshakePacket.RoundTrip.{IsText, IsShortAddr}
use efcp.Secure.{Disco}
use efcp.Handshake.Noise.{Noise}
use efcp.Handshake.Transport.{Stack, IsStack}
use efcp.Handshake.Replies.{packet_len}
use efcp.Handshake.Exchange.{
  Side, settle, waiting, round, rounds, start, then_initiator, beside, then_initiator_hears,
  round_hears,
}
use efcp.Handshake.Steps.{talking}
use efcp.Handshake.Defs.{
  wait, Step, conclude, InShake, InTalk, shaking, initiator, responder, initiator_hears,
  responder_hears, responder_loop, wait_unless_finished,
}
use efcp.Handshake.Opening.{at, says_first, Answers-first, last_message, Answers}

module _ (net : IpText) {disco : Disco} (noise : Noise disco) {C L M W : Type 0}
    (stack : Stack disco.State C L M W) {limit : ℕ} {Apart : C → C → W → Type 0}
    {Ready : L → L → W → Type 0} {Ready' : M → M → W → Type 0}
    (ends : IsStack stack limit disco.Peers Apart Ready Ready')
    (room : packet_len + noise.overhead ≤ limit) (i r : noise.Keypair) where
  -- A test whether the negotiation is finished leaves the world alone.
  tested_at :
      (old : Side net noise stack) (t : InTalk net noise stack) (w : W) (b : Bool) (r : Option Str)
      → t.negotiate.finished ≡ b
      → t.negotiate.accepted ≡ r
      → (settle old (wait_unless_finished net noise stack t w)).1 ≡ w
  unfolding wait_unless_finished conclude into_protocol
  tested_at old t w true none e f = rw (e, f) refl
  tested_at old t w true (some p) e f = rw (e, f) refl
  tested_at old t w false r e f = rw e refl

  test_keeps :
      (old : Side net noise stack) (t : InTalk net noise stack) (w : W)
      → (settle old (wait_unless_finished net noise stack t w)).1 ≡ w
  test_keeps old t w = tested_at old t w t.negotiate.finished t.negotiate.accepted refl refl

  -- The two rounds, from what each call does.
  two_rounds :
      (i0 r0 r1 : InShake net noise stack) (t : InTalk net noise stack) (w1 w2 w3 : W)
      (x : Step net noise stack)
      → responder_hears net noise stack r0 w1 ≡ (ok (wait (shaking r1)), w2)
      → initiator_hears net noise stack i0 w2 ≡ wait_unless_finished net noise stack t w3
      → responder_hears net noise stack r1 w3 ≡ x w3
      → round net noise stack
          (round net noise stack (waiting (shaking i0), waiting (shaking r0), w1))
        ≡ then_initiator net noise stack
            (settle (waiting (shaking i0)) (wait_unless_finished net noise stack t w3)).0
            (settle (waiting (shaking r1)) (x w3))
  two_rounds i0 r0 r1 t w1 w2 w3 x e1 e2 e3 =
      let i1 : Side net noise stack =
        (settle (waiting (shaking i0)) (wait_unless_finished net noise stack t w3)).0 in
      let once : round net noise stack (waiting (shaking i0), waiting (shaking r0), w1)
          ≡ (i1, waiting (shaking r1), w3) =
        round_hears net noise stack r0 (waiting (shaking i0)) (waiting (shaking i0)) w1
        ∙ ap
            (λ z.
              then_initiator net noise stack (waiting (shaking i0))
                (settle (waiting (shaking r0)) z))
            e1
        ∙ then_initiator_hears net noise stack i0 (waiting (shaking i0)) (waiting (shaking r1)) w2
        ∙ ap (λ z. beside net noise stack (waiting (shaking r1)) (settle (waiting (shaking i0)) z))
            e2
        ∙ ap (λ z. (i1, waiting (shaking r1), z)) (test_keeps (waiting (shaking i0)) t w3) in
      ap (round net noise stack) once
      ∙ round_hears net noise stack r1 i1 i1 w3
      ∙ ap (λ z. then_initiator net noise stack i1 (settle (waiting (shaking r1)) z)) e3

  -- Both futures are started, and polled twice: the three messages have gone over, and the listener's
  -- reply to the third is next.
  pub opened :
      (k : ℕ) (dialer listener : C) (ps qs : List Str) (o : Addr) (w : W) (m : Message)
      (q q' q'' : Option Message) (n n' l l' : Negotiation)
      → Apart dialer listener w
      → initiate {R = disco.ReadError} (Negotiation.new ps) ≡ (ok m, n)
      → IsText (some m)
      → IsText q
      → IsText q'
      → IsShortAddr net (some o)
      → Answers disco.ReadError (some m) (Negotiation.new qs) q l
      → Answers disco.ReadError q n q' n'
      → Answers disco.ReadError q' l q'' l'
      → (old old' : Side net noise stack) × (c d : M) × (w' w'' : W) × Ready' d c w''
        × (rounds net noise stack
              (suc (suc k))
              (start net noise stack dialer listener i r ps qs o w)
            ≡ rounds net noise stack k (
                then_initiator net noise stack
                  (settle old (
                    wait_unless_finished net noise stack
                      (talking net noise stack c (noise.public r) n' (some o))
                      w')).0
                  (settle old' (
                    responder_loop net noise stack q''
                      (talking net noise stack d (noise.public i) l' none)
                      w''))))
  unfolding start initiator responder rounds
  opened k dialer listener ps qs o w m q q' q'' n n' l l' apart begins t t1 t2 short s s1 s2 =
      let (a, b, wrapped_a, wrapped_b, ready) = ends.wraps dialer listener w apart in
      let (a1, x1, w1, ran, sent) =
        says_first net noise stack ends room i r m n a b (noise.initiator i (noise.public r))
          (noise.responder r) w t ready (noise.joined_new i r) in
      let (b1, y1, w2, ran', sent') =
        Answers-first net noise stack ends room i r m q (Negotiation.new qs) l o a1 b x1
          (noise.responder r) w1 t1 short s sent in
      let (c, d, w3, w4, ready', ran2, ran3) =
        last_message net noise stack ends room i r q q' q'' n n' l l' o a1 b1 x1 y1 w2 t2 s1 s2
          sent' in
      let i0 : InShake net noise stack = at net noise stack ends room i r a1 x1 n none in
      let r0 : InShake net noise stack =
        at net noise stack ends room i r b (noise.responder r) (Negotiation.new qs) (some o) in
      let r1 : InShake net noise stack = at net noise stack ends room i r b1 y1 l none in
      (
        waiting (shaking i0),
        waiting (shaking r1),
        c,
        d,
        w3,
        w4,
        ready',
        ap (rounds net noise stack (suc (suc k))) (rw (wrapped_a, wrapped_b, begins, ran) refl)
            ∙ ap (rounds net noise stack k) (
                two_rounds i0 r0 r1 (talking net noise stack c (noise.public r) n' (some o)) w1 w2
                  w3
                  (λ _.
                    responder_loop net noise stack q''
                      (talking net noise stack d (noise.public i) l' none) w4)
                  ran' ran2 ran3),
      )
