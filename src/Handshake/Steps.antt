-- ===== src/Handshake/Steps.antt =====
-- One poll of a side behind the first loop: what it reads and says, and how it ends.
use efcp.Prelude.{ℕ, ◌≤◌, ◌≡◌, refl, true, false, List, Option, none, some, arith}
use efcp.Outcome.{Outcome, ok, err, panic, pending}
use efcp.HandshakeError.{HandshakeError, negotiation}
use efcp.Text.{Str}
use efcp.Addr.{Addr, IpText}
use efcp.Negotiation.{Negotiation, message, propose, into_protocol}
use efcp.Negotiation.Message.{Message}
use efcp.Negotiation.Exchange.{Sides, deliver}
use efcp.HandshakePacket.{new}
use efcp.Secure.{Disco}
use efcp.Handshake.Noise.{Noise}
use efcp.Handshake.Transport.{Stack, IsStack}
use efcp.Handshake.Replies.{Coded, packet_len}
use efcp.Handshake.Passing.{InFlight, write_talking_lem, read_talking_lem}
use efcp.Handshake.Exchange.{Side, settle, waiting, returned}
use efcp.Handshake.Defs.{
  EfcpChannel, InTalk, negotiating, wait, conclude, answer, wait_unless_finished, initiator_reply,
  initiator_talks, responder_loop, responder_talks,
}

-- The error type of `message` plays no part in a reply.
pub same_reply :
    {R S : Type 0} (m : Message) (n n' : Negotiation) (r : Option Message)
    → message {R = R} m n ≡ (ok r, n')
    → message {R = S} m n ≡ (ok r, n')
unfolding message propose
same_reply (Message.propose p) n n' r e = ground arith
same_reply Message.accept n n' r e = ground arith
same_reply Message.fail n n' r e = ground arith

-- A delivery after which the exchange goes on to `s`.
pub deliver-some :
    (d : Outcome (HandshakeError Unit) (Option Message) × Negotiation)
    (onward : Negotiation → Message → Option Sides) (stop : Negotiation → Option Sides) (s : Sides)
    → deliver d onward stop ≡ some s
    → (r : Option Message) × (n : Negotiation) × (d ≡ (ok r, n))
deliver-some (ok r, n) onward stop s e = (r, n, refl)
deliver-some (err x, n) onward stop s e = cc
deliver-some (panic, n) onward stop s e = cc
deliver-some (pending, n) onward stop s e = cc

pub answer-some :
    {R : Type 0} (m : Message) (o : Option Addr) (n n' : Negotiation) (r : Option Message)
    → message {R = R} m n ≡ (ok r, n')
    → answer {R = R} (new (some m) o) n ≡ ok (r, n')
unfolding answer new
answer-some m o n n' r e = rw e refl

-- What a side returns that has accepted `r`.
abbrev pub outcome :
    {R K M : Type 0}
    → M
    → K
    → Option Addr
    → Option Str
    → Outcome (HandshakeError R) (EfcpChannel K M)
outcome c k a none = err negotiation
outcome c k a (some p) = ok (record { channel = c; remote = k; protocol = p; external_addr = a })

module _ (net : IpText) {disco : Disco} (noise : Noise disco) {C L M W : Type 0}
    (stack : Stack disco.State C L M W) where
  -- Behind the first loop: the locals of a side.
  abbrev pub talking : M → noise.PublicKey → Negotiation → Option Addr → InTalk net noise stack
  talking c k n o = record { channel = c; remote = k; negotiate = n; external_addr = o }

  abbrev pub ended : InTalk net noise stack → Option Str → Side net noise stack
  ended t r = returned (outcome t.channel t.remote t.external_addr r)

  concluded :
      (old : Side net noise stack) (t : InTalk net noise stack) (r : Option Str) (w : W)
      → t.negotiate.finished ≡ true
      → t.negotiate.accepted ≡ r
      → settle old (conclude net noise stack t w) ≡ (ended t r, w)
  unfolding conclude into_protocol
  concluded old t none w done e = rw (done, e) refl
  concluded old t (some p) w done e = rw (done, e) refl

  pub conclude_lem :
      (old : Side net noise stack) (t : InTalk net noise stack) (w : W)
      → t.negotiate.finished ≡ true
      → settle old (conclude net noise stack t w) ≡ (ended t t.negotiate.accepted, w)
  conclude_lem old t w done = concluded old t t.negotiate.accepted w done refl

  tested :
      (old : Side net noise stack) (t : InTalk net noise stack) (r : Option Str) (w : W)
      → t.negotiate.finished ≡ true
      → t.negotiate.accepted ≡ r
      → settle old (wait_unless_finished net noise stack t w) ≡ (ended t r, w)
  unfolding wait_unless_finished conclude into_protocol
  tested old t none w done e = rw (done, e) refl
  tested old t (some p) w done e = rw (done, e) refl

  pub finished_lem :
      (old : Side net noise stack) (t : InTalk net noise stack) (w : W)
      → t.negotiate.finished ≡ true
      → settle old (wait_unless_finished net noise stack t w) ≡ (ended t t.negotiate.accepted, w)
  finished_lem old t w done = tested old t t.negotiate.accepted w done refl

  pub unfinished_lem :
      (t : InTalk net noise stack) (w : W)
      → t.negotiate.finished ≡ false
      → wait_unless_finished net noise stack t w ≡ (ok (wait (negotiating t)), w)
  unfolding wait_unless_finished
  unfinished_lem t w e = rw e refl

  module _ {limit : ℕ} {Apart : C → C → W → Type 0} {Ready : L → L → W → Type 0}
      {Ready' : M → M → W → Type 0}
      (ends : IsStack stack limit disco.Peers Apart Ready Ready') where
    -- Both sides read a message and answer it.
    module _ (m : Message) (bs : List ℕ) (coded : Coded net (some m) none bs)
        (t : InTalk net noise stack) (c : M) (w : W)
        (f : InFlight stack.sealed Ready' bs c t.channel w) (n : Negotiation) (r : Option Message)
        (says : message {R = disco.ReadError} m t.negotiate ≡ (ok r, n)) where
      abbrev pub heard : InTalk net noise stack
      heard = record t { channel = f.there; negotiate = n }

      pub initiator_talks_lem :
          initiator_talks net noise stack t w ≡ initiator_reply net noise stack r heard f.after
      unfolding initiator_talks
      initiator_talks_lem =
          rw
            (
              read_talking_lem net noise stack ends (some m) none bs coded t c w f,
              answer-some m none t.negotiate n r says,
            )
            refl

      pub responder_talks_lem :
          responder_talks net noise stack t w ≡ responder_loop net noise stack r heard f.after
      unfolding responder_talks
      responder_talks_lem =
          rw
            (
              read_talking_lem net noise stack ends (some m) none bs coded t c w f,
              answer-some m none t.negotiate n r says,
            )
            refl

    -- A side that says `m`: it waits on, or returns.
    module _ (room : packet_len ≤ limit) (m : Message) (bs : List ℕ)
        (coded : Coded net (some m) none bs) (old : Side net noise stack)
        (t : InTalk net noise stack) (c : M) (w : W) (ready : Ready' t.channel c w) where
      abbrev Speaks :
          Side net noise stack × W → (InTalk net noise stack → Side net noise stack) → Type 0
      Speaks s next =
          (t' : M) × (w' : W) × (s ≡ (next (record t { channel = t' }), w'))
          × InFlight stack.sealed Ready' bs t' c w'

      pub initiator_waits :
          t.negotiate.finished ≡ false
          → Speaks
              (settle old (initiator_reply net noise stack (some m) t w))
              (λ u. waiting (negotiating u))
      unfolding initiator_reply
      initiator_waits e =
          let (t', w', wrote, f) =
            write_talking_lem net noise stack ends (some m) none bs coded t c w room ready in
          (t', w', rw (wrote, unfinished_lem (record t { channel = t' }) w' e) refl, f)

      pub initiator_ends :
          t.negotiate.finished ≡ true
          → Speaks
              (settle old (initiator_reply net noise stack (some m) t w))
              (λ u. ended u t.negotiate.accepted)
      unfolding initiator_reply
      initiator_ends e =
          let (t', w', wrote, f) =
            write_talking_lem net noise stack ends (some m) none bs coded t c w room ready in
          (t', w', rw wrote (finished_lem old (record t { channel = t' }) w' e), f)

      -- The responder has given its peer's address away.
      abbrev pub given : InTalk net noise stack
      given = record t { external_addr = none }

      pub responder_waits :
          t.negotiate.finished ≡ false
          → Speaks
              (settle old (responder_loop net noise stack (some m) given w))
              (λ u. waiting (negotiating (record u { external_addr = none })))
      unfolding responder_loop
      responder_waits e =
          let (t', w', wrote, f) =
            write_talking_lem net noise stack ends (some m) none bs coded given c w room ready in
          (t', w', rw (wrote, unfinished_lem (record given { channel = t' }) w' e) refl, f)

      pub responder_ends :
          t.negotiate.finished ≡ true
          → Speaks
              (settle old (responder_loop net noise stack (some m) given w))
              (λ u. ended (record u { external_addr = none }) t.negotiate.accepted)
      unfolding responder_loop
      responder_ends e =
          let (t', w', wrote, f) =
            write_talking_lem net noise stack ends (some m) none bs coded given c w room ready in
          (t', w', rw wrote (finished_lem old (record given { channel = t' }) w' e), f)
