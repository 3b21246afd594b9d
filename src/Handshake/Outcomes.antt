-- ===== src/Handshake/Outcomes.antt =====
-- How the two futures of the handshake end, by the messages of the first loop.
use efcp.Prelude.{
  ℕ, suc, ◌+◌, ◌≤◌, ◌≡◌, refl, ap, ◌∙◌, true, List, [], ◌∷◌, Option, none, some, arith,
}
use efcp.Outcome.{ok}
use efcp.Text.{Str}
use efcp.Addr.{Addr, IpText}
use efcp.Negotiation.{Negotiation, initiate, message, propose}
use efcp.Negotiation
use efcp.Negotiation.Message.{Message}
use efcp.Negotiation.Exchange.{Sides, to_initiator}
use efcp.Negotiation.Agreement.{Settled}
use efcp.HandshakePacket.RoundTrip.{IsText, IsShortAddr}
use efcp.Secure.{Disco}
use efcp.Handshake.Noise.{Noise}
use efcp.Handshake.Transport.{Stack, IsStack}
use efcp.Handshake.Replies.{packet_len, IsOpen, Replies}
use efcp.Handshake.Exchange.{
  Pair, settle, returned, rounds, start, then_initiator, then_initiator_returned, rounds-returned,
}
use efcp.Handshake.Steps.{talking, outcome, conclude_lem, finished_lem, unfinished_lem}
use efcp.Handshake.Onward.{after_reply}
use efcp.Handshake.Opening.{Answers}
use efcp.Handshake.Opened.{opened}
use efcp.Handshake.Defs.{InTalk, wait_unless_finished, responder_loop}

-- The first message, and what it leaves.
abbrev pub first_of : List Str → Message
first_of [] = Message.fail
first_of (p ∷ ps) = Message.propose p

abbrev pub begun : List Str → Negotiation
begun [] = record (Negotiation.new []) { tried = 1; started = true; finished = true }
begun (p ∷ ps) = record (Negotiation.new (p ∷ ps)) { tried = 1; started = true; proposed = some p }

pub initiate_new :
    {R : Type 0} (ps : List Str)
    → initiate {R = R} (Negotiation.new ps) ≡ (ok (first_of ps), begun ps)
unfolding initiate Negotiation.new
initiate_new [] = refl
initiate_new (p ∷ ps) = refl

module _ (net : IpText) {disco : Disco} (noise : Noise disco) {C L M W : Type 0}
    (stack : Stack disco.State C L M W) (i r : noise.Keypair) (addr : Addr) where
  -- Both have returned, with the protocol `p` or with the error that there is none.
  abbrev pub Agree : Option Str → Pair net noise stack → Type 0
  Agree p s =
      (c d : M) × (w : W) × (s ≡ (
        returned (outcome c (noise.public r) (some addr) p),
        returned (outcome d (noise.public i) none p),
        w,
      ))

module _ (net : IpText) {disco : Disco} (noise : Noise disco) {C L M W : Type 0}
    (stack : Stack disco.State C L M W) {limit : ℕ} {Apart : C → C → W → Type 0}
    {Ready : L → L → W → Type 0} {Ready' : M → M → W → Type 0}
    (ends : IsStack stack limit disco.Peers Apart Ready Ready')
    (room : packet_len + noise.overhead ≤ limit) (i r : noise.Keypair) (addr : Addr)
    (short : IsShortAddr net (some addr)) where
  module _ (k : ℕ) (dialer listener : C) (ps qs : List Str) (w : W)
      (apart : Apart dialer listener w) (text : IsText (some (first_of ps))) where
    abbrev begin : Pair net noise stack
    begin = start net noise stack dialer listener i r ps qs addr w

    -- The dialer is finished behind the third message, and the listener has no reply to it.
    pub both_finished :
        (q q' : Option Message) (n l l' : Negotiation) (p : Option Str)
        → IsText q
        → IsText q'
        → Answers disco.ReadError (some (first_of ps)) (Negotiation.new qs) q l
        → Answers disco.ReadError q (begun ps) q' n
        → Answers disco.ReadError q' l none l'
        → n.finished ≡ true
        → l'.finished ≡ true
        → n.accepted ≡ p
        → l'.accepted ≡ p
        → Agree net noise stack i r addr p (rounds net noise stack (suc (suc k)) begin)
    unfolding responder_loop
    both_finished q q' n l l' p t t' s s' s'' done done' is is' =
        let (old, old', c, d, w1, w2, _, path) =
          opened net noise stack ends room i r k dialer listener ps qs addr w (first_of ps) q q'
            none (begun ps) n l l' apart (initiate_new ps) text t t' short s s' s'' in
        (
          c,
          d,
          w2,
          path
              ∙ ap (rounds net noise stack k) (
                  rw
                    (
                      finished_lem net noise stack old
                          (talking net noise stack c (noise.public r) n (some addr)) w1 done,
                      conclude_lem net noise stack old'
                          (talking net noise stack d (noise.public i) l' none) w2 done',
                      is,
                      is',
                    )
                    (then_initiator_returned net noise stack _ _))
              ∙ rounds-returned net noise stack k _ _ w2,
        )

    -- The dialer makes another proposal in the third message, and the listener replies `m`.
    pub both_open :
        (f : ℕ) (q q' : Option Message) (m : Message) (n l l' : Negotiation) (s : Sides)
        (p : Option Str)
        → IsText q
        → IsText q'
        → Answers disco.ReadError (some (first_of ps)) (Negotiation.new qs) q l
        → Answers disco.ReadError q (begun ps) q' n
        → Answers disco.ReadError q' l (some m) l'
        → f ≤ k
        → IsOpen n
        → Replies m l'
        → to_initiator f n l' m ≡ some s
        → Settled p s
        → Agree net noise stack i r addr p (rounds net noise stack (suc (suc k)) begin)
    unfolding wait_unless_finished
    both_open f q q' m n l l' s p t t' a a' a'' h still rep e settled =
        let (old, old', c, d, w1, w2, ready, path) =
          opened net noise stack ends room i r k dialer listener ps qs addr w (first_of ps) q q'
            (some m) (begun ps) n l l' apart (initiate_new ps) text t t' short a a' a'' in
        let ti : InTalk net noise stack =
          talking net noise stack c (noise.public r) n (some addr) in
        let tr : InTalk net noise stack = talking net noise stack d (noise.public i) l' none in
        let (c', d', w', ran) =
          after_reply net noise stack ends (omega arith) f k old' ti tr w2 m s h ready still rep
            e in
        (
          c',
          d',
          w',
          path
              ∙ ap (rounds net noise stack k) (
                  ap
                    (λ z.
                      then_initiator net noise stack (settle old z).0
                        (settle old' (responder_loop net noise stack (some m) tr w2)))
                    (unfinished_lem net noise stack ti w1 still.unfinished))
              ∙ ran
              ∙ (rw (settled.initiator, settled.responder) refl),
        )
