-- ===== src/Handshake/Exchange.antt =====
-- A dialer and a listener at the two ends of one wire. Each is a future that is polled: it runs until it
-- waits for a packet, or returns. The listener is polled first, since the dialer has spoken.
use efcp.Prelude.{ℕ, zero, suc, ◌≡◌, refl, List}
use efcp.Outcome.{Outcome, ok, err, panic, pending}
use efcp.HandshakeError.{HandshakeError}
use efcp.Text.{Str}
use efcp.Addr.{Addr, IpText}
use efcp.Secure.{Disco}
use efcp.Handshake.Noise.{Noise}
use efcp.Handshake.Transport.{Stack}
use efcp.Handshake.Defs.{
  EfcpChannel, Task, Turn, wait, finish, initiator, responder, resume_initiator, resume_responder,
  InTalk, InShake, negotiating, shaking, initiator_talks, initiator_hears, responder_talks,
  responder_hears,
}

pub data Party (R S L K M : Type 0) : Type 0 where
  waiting : Task S L K M → Party R S L K M
  returned : Outcome (HandshakeError R) (EfcpChannel K M) → Party R S L K M

module _ {R S L K M W : Type 0} where
  -- What a poll leads to; a future that is still pending is `old`.
  abbrev pub settle :
      Party R S L K M → Outcome (HandshakeError R) (Turn S L K M) × W → Party R S L K M × W
  settle old (ok (wait task), w) = (waiting task, w)
  settle old (ok (finish channel), w) = (returned (ok channel), w)
  settle old (err e, w) = (returned (err e), w)
  settle old (panic, w) = (returned panic, w)
  settle old (pending, w) = (old, w)

module _ (net : IpText) {disco : Disco} (noise : Noise disco) {C L M W : Type 0}
    (stack : Stack disco.State C L M W) where
  abbrev pub Side : Type 0
  Side = Party disco.ReadError noise.Session L noise.PublicKey M

  abbrev pub Pair : Type 0
  Pair = Side × Side × W

  pub poll_initiator : Side → W → Side × W
  poll_initiator (waiting task) w = settle (waiting task) (resume_initiator net noise stack task w)
  poll_initiator (returned r) w = (returned r, w)

  pub poll_responder : Side → W → Side × W
  poll_responder (waiting task) w = settle (waiting task) (resume_responder net noise stack task w)
  poll_responder (returned r) w = (returned r, w)

  unfoldable pub then_initiator : Side → Side × W → Pair
  then_initiator i (r, w) = ((poll_initiator i w).0, r, (poll_initiator i w).1)

  unfoldable pub round : Pair → Pair
  unfolding poll_initiator poll_responder then_initiator
  round (i, r, w) = then_initiator i (poll_responder r w)

  unfoldable pub rounds : ℕ → Pair → Pair
  rounds zero s = s
  rounds (suc n) s = rounds n (round s)

  -- The listener is started before the dialer.
  abbrev pub opening : Side × W → Side × W → Pair
  opening (r, _) (i, w) = (i, r, w)

  unfoldable pub start :
      C → C → noise.Keypair → noise.Keypair → List Str → List Str → Addr → W → Pair
  start dialer listener i r ps qs addr w =
      opening (settle (returned pending) (responder net noise stack listener r qs addr w))
        (settle (returned pending) (initiator net noise stack dialer i ps (noise.public r) w))

  -- Two sides that have returned stay as they are.
  pub rounds-returned :
      (n : ℕ) (r s : Outcome (HandshakeError disco.ReadError) (EfcpChannel noise.PublicKey M))
      (w : W)
      → rounds n (returned r, returned s, w) ≡ (returned r, returned s, w)
  unfolding rounds round
  rounds-returned zero r s w = refl
  rounds-returned (suc n) r s w = rounds-returned n r s w

  -- A poll of the initiator, with what the responder has become beside it.
  abbrev pub beside : Side → Side × W → Pair
  beside r (i, w) = (i, r, w)

  module _ (t : InTalk net noise stack) (i r : Side) (w : W) where
    pub then_initiator_talks :
        then_initiator (waiting (negotiating t)) (r, w)
        ≡ beside r (settle (waiting (negotiating t)) (initiator_talks net noise stack t w))
    unfolding then_initiator poll_initiator resume_initiator
    then_initiator_talks = refl

    pub round_talks :
        round (i, waiting (negotiating t), w)
        ≡ then_initiator i (settle (waiting (negotiating t)) (responder_talks net noise stack t w))
    unfolding round poll_responder resume_responder
    round_talks = refl

  module _ (s : InShake net noise stack) (i r : Side) (w : W) where
    pub then_initiator_hears :
        then_initiator (waiting (shaking s)) (r, w)
        ≡ beside r (settle (waiting (shaking s)) (initiator_hears net noise stack s w))
    unfolding then_initiator poll_initiator resume_initiator
    then_initiator_hears = refl

    pub round_hears :
        round (i, waiting (shaking s), w)
        ≡ then_initiator i (settle (waiting (shaking s)) (responder_hears net noise stack s w))
    unfolding round poll_responder resume_responder
    round_hears = refl

  pub then_initiator_returned :
      (e : Outcome (HandshakeError disco.ReadError) (EfcpChannel noise.PublicKey M)) (r : Side × W)
      → then_initiator (returned e) r ≡ (returned e, r.0, r.1)
  unfolding then_initiator poll_initiator
  then_initiator_returned e r = refl
