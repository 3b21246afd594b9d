-- ===== src/Handshake/Opening.antt =====
-- The three messages of the first loop, on both sides.
use efcp.Prelude.{ℕ, ◌+◌, ◌≤◌, ◌≡◌, refl, List, Option, none, some, arith}
use efcp.Outcome.{ok}
use efcp.Addr.{Addr, IpText}
use efcp.Negotiation.{Negotiation, message}
use efcp.Negotiation.Message.{Message}
use efcp.HandshakePacket.{new, take_external_addr}
use efcp.HandshakePacket.RoundTrip.{IsText, IsShortAddr}
use efcp.Secure.{Disco}
use efcp.Handshake.Noise.{Noise}
use efcp.Handshake.Transport.{Stack, IsStack}
use efcp.Handshake.Replies.{Coded, encode, packet_len}
use efcp.Handshake.Passing.{InFlight, write_shaking_lem, read_shaking_lem}
use efcp.Handshake.Steps.{talking}
use efcp.Handshake.Defs.{
  wait, InShake, answer, shaking, initiator_shakes, initiator_hears, initiator_seals,
  responder_hears, responder_shakes, responder_loop, wait_unless_finished, enter_transport,
}

-- What a side makes of a packet with or without a message.
abbrev pub Answers : Type 0 → Option Message → Negotiation → Option Message → Negotiation → Type 0
Answers R none n r n' = (r ≡ none) × (n' ≡ n)
Answers R (some m) n r n' = message {R = R} m n ≡ (ok r, n')

answer_lem :
    {R : Type 0} (m : Option Message) (o : Option Addr) (n n' : Negotiation) (r : Option Message)
    → Answers R m n r n'
    → answer {R = R} (new m o) n ≡ ok (r, n')
unfolding answer new
answer_lem none o n n' r (e, same) = rw (e, same) refl
answer_lem (some m) o n n' r e = rw e refl

-- `external_addr.take()` leaves the message.
answer_taken :
    {R : Type 0} (m : Option Message) (o : Option Addr) (n : Negotiation)
    → answer {R = R} (take_external_addr (new m o)).1 n ≡ answer {R = R} (new m o) n
unfolding answer take_external_addr new
answer_taken none o n = refl
answer_taken (some m) o n = refl

taken_addr : (m : Option Message) (o : Option Addr) → (take_external_addr (new m o)).0 ≡ o
unfolding take_external_addr new
taken_addr m o = refl

module _ (net : IpText) {disco : Disco} (noise : Noise disco) {C L M W : Type 0}
    (stack : Stack disco.State C L M W) {limit : ℕ} {Apart : C → C → W → Type 0}
    {Ready : L → L → W → Type 0} {Ready' : M → M → W → Type 0}
    (ends : IsStack stack limit disco.Peers Apart Ready Ready')
    (room : packet_len + noise.overhead ≤ limit) (i r : noise.Keypair) where
  -- The state of a side in the first loop.
  abbrev pub at : L → noise.Session → Negotiation → Option Addr → InShake net noise stack
  at c s n o = record { channel = c; session = s; negotiate = n; external_addr = o }

  -- The message `m` of the sender `s` is on its way to `t`, which will read it.
  pub record Sent (m : Option Message) (o : Option Addr)
      (Next : noise.Session → noise.Session → Type 0) (a b : L) (t : noise.Session) (w : W)
      (s' : noise.Session) : Type 0 where
    bytes : List ℕ
    coded : Coded net m o bytes
    text : List ℕ
    flight : InFlight stack.plain Ready text a b w
    t' : noise.Session
    opens : noise.read_message t text ≡ (ok bytes, t')
    pub next : Next s' t'

  -- The dialer says its first message.
  pub says_first :
      (m : Message) (n : Negotiation) (a b : L) (x y : noise.Session) (w : W)
      → IsText (some m)
      → Ready a b w
      → noise.Joined 0 i r x y
      → (a' : L) × (x' : noise.Session) × (w' : W) × (initiator_shakes net noise stack
            (some m)
            (at a x n none)
            w
          ≡ (ok (wait (shaking (at a' x' n none))), w'))
        × Sent (some m) none (λ s t. noise.Joined 1 i r s t) a' b y w' x'
  unfolding initiator_shakes
  says_first m n a b x y w text ready joined =
      let (bs, coded) = encode net (some m) none text tt in
      let (a', w', wrote, fl) =
        write_shaking_lem net noise stack ends (some m) none bs coded (at a x n none) b w room
          ready in
      let (y', opens, next) = noise.first i r x y bs joined in
      (
        a',
        (noise.write_message x bs).1,
        w',
        rw (wrote, (noise.unfinished 1 i r (noise.write_message x bs).1 y' next (omega arith)).0)
            refl,
        record {
          bytes = bs;
          coded = coded;
          text = (noise.write_message x bs).0;
          flight = fl;
          t' = y';
          opens = opens;
          next = next;
        },
      )

  -- The listener reads it and answers, with the address that it observed.
  pub Answers-first :
      (m : Message) (q : Option Message) (n n' : Negotiation) (o : Addr) (a b : L)
      (x y : noise.Session) (w : W)
      → IsText q
      → IsShortAddr net (some o)
      → Answers disco.ReadError (some m) n q n'
      → Sent (some m) none (λ s t. noise.Joined 1 i r s t) a b y w x
      → (b' : L) × (y' : noise.Session) × (w' : W) × (responder_hears net noise stack
            (at b y n (some o))
            w
          ≡ (ok (wait (shaking (at b' y' n' none))), w'))
        × Sent q (some o) (λ t s. noise.Joined 2 i r s t) b' a x w' y'
  unfolding responder_hears responder_shakes
  Answers-first m q n n' o a b x y w text short says sent =
      let (bs, coded) = encode net q (some o) text short in
      let fl = sent.flight in
      let s : InShake net noise stack = at fl.there sent.t' n' (some o) in
      let (b', w', wrote, fl') =
        write_shaking_lem net noise stack ends q (some o) bs coded s a fl.after room fl.turn in
      let (x', opens, next) = noise.second i r x sent.t' bs sent.next in
      (
        b',
        (noise.write_message sent.t' bs).1,
        w',
        rw
            (
              read_shaking_lem net noise stack ends (some m) none sent.bytes sent.coded
                  (at b y n (some o)) sent.text sent.t' a w fl sent.opens,
              answer_lem (some m) none n n' q says,
              responder_shakes,
              (noise.unfinished 1 i r x sent.t' sent.next (omega arith)).1,
              wrote,
            )
            refl,
        record {
          bytes = bs;
          coded = coded;
          text = (noise.write_message sent.t' bs).0;
          flight = fl';
          t' = x';
          opens = opens;
          next = next;
        },
      )

  -- The dialer reads the answer, says its last message, and both enter the encrypted channel; the
  -- listener reads that message when it is polled.
  pub last_message :
      (q q' q'' : Option Message) (n n' l l' : Negotiation) (o : Addr) (a b : L)
      (x y : noise.Session) (w : W)
      → IsText q'
      → Answers disco.ReadError q n q' n'
      → Answers disco.ReadError q' l q'' l'
      → Sent q (some o) (λ t s. noise.Joined 2 i r s t) b a x w y
      → (c d : M) × (w' w'' : W) × Ready' d c w''
        × (initiator_hears net noise stack (at a x n none) w
            ≡ wait_unless_finished net noise stack
                (talking net noise stack c (noise.public r) n' (some o))
                w')
        × (responder_hears net noise stack (at b y l none) w'
            ≡ responder_loop net noise stack q''
                (talking net noise stack d (noise.public i) l' none)
                w'')
  unfolding initiator_hears initiator_shakes initiator_seals responder_hears responder_shakes
      enter_transport
  last_message q q' q'' n n' l l' o a b x y w text says says' sent =
      let (bs, coded) = encode net q' none text tt in
      let fl = sent.flight in
      let (a', w', wrote, fl') =
        write_shaking_lem net noise stack ends q' none bs coded (at fl.there sent.t' n' (some o)) b
          fl.after room fl.turn in
      let x' = (noise.write_message sent.t' bs).1 in
      let (y', opens, joined) = noise.third i r sent.t' y bs sent.next in
      let (done_x, done_y) = noise.finished i r x' y' joined in
      let (key_x, key_y) = noise.remote_statics i r x' y' joined in
      let (peers, peers') = noise.transports i r x' y' joined in
      let (d, c, sealed_d, sealed_c, ready) =
        ends.seals fl'.there a' fl'.after (noise.into_stateless y') (noise.into_stateless x')
          fl'.turn peers' peers in
      (
        c,
        d,
        w',
        fl'.after,
        ready,
        rw
            (
              read_shaking_lem net noise stack ends q (some o) sent.bytes sent.coded (at a x n none)
                  sent.text sent.t' b w fl sent.opens,
              taken_addr q (some o),
              answer_taken q (some o) n,
              answer_lem q (some o) n n' q' says,
              initiator_shakes,
              wrote,
              done_x,
              initiator_seals,
              key_x,
              sealed_c,
            )
            refl,
        rw
            (
              read_shaking_lem net noise stack ends q' none bs coded (at b y l none)
                  (noise.write_message sent.t' bs).0 y' a' w' fl' opens,
              answer_lem q' none l l' q'' says',
              responder_shakes,
              done_y,
              enter_transport,
              key_y,
              sealed_d,
            )
            refl,
      )
