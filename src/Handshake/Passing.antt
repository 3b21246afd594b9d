-- ===== src/Handshake/Passing.antt =====
-- A packet of the handshake that one side writes, the other reads: in the first loop, and behind it.
use efcp.Prelude.{ℕ, ◌+◌, ◌≤◌, ◌≡◌, refl, List, Option, arith}
use efcp.Outcome.{ok}
use efcp.Addr.{Addr, IpText}
use efcp.Negotiation.Message.{Message}
use efcp.HandshakePacket.{new}
use efcp.Secure.{Disco}
use efcp.Handshake.Noise.{Noise}
use efcp.Handshake.Transport.{Stack, IsStack, Transport}
use efcp.Handshake.Replies.{Coded, packet_len}
use efcp.Handshake.Defs.{InShake, InTalk, write_shaking, read_shaking, write_talking, read_talking}

-- The bytes `bs` are on their way from the end `a` to the end `b`.
pub record InFlight {L W : Type 0} (t : Transport L W) (Ready : L → L → W → Type 0) (bs : List ℕ)
    (a b : L) (w : W) : Type 0 where
  pub there : L
  pub after : W
  pub arrives : t.recv (b, w) ≡ (ok bs, (there, after))
  pub turn : Ready there a after

module _ (net : IpText) {disco : Disco} (noise : Noise disco) {C L M W : Type 0}
    (stack : Stack disco.State C L M W) {limit : ℕ} {Apart : C → C → W → Type 0}
    {Ready : L → L → W → Type 0} {Ready' : M → M → W → Type 0}
    (ends : IsStack stack limit disco.Peers Apart Ready Ready') where
  module _ (m : Option Message) (o : Option Addr) (bs : List ℕ) (coded : Coded net m o bs) where
    pub write_talking_lem :
        (t : InTalk net noise stack) (c : M) (w : W)
        → packet_len ≤ limit
        → Ready' t.channel c w
        → (t' : M) × (w' : W) × (write_talking net noise stack m o t w
            ≡ (ok (record t { channel = t' }), w'))
          × InFlight stack.sealed Ready' bs t' c w'
    unfolding write_talking
    write_talking_lem t c w room ready =
        let (a, b, w', w'', sends, recvs, turn) =
          ends.sealed_delivers bs t.channel c w (omega (arith, coded.fits)) ready in
        (
          a,
          w',
          rw (coded.written, sends) refl,
          record { there = b; after = w''; arrives = recvs; turn = turn },
        )

    pub read_talking_lem :
        (t : InTalk net noise stack) (c : M) (w : W)
        (f : InFlight stack.sealed Ready' bs c t.channel w)
        → read_talking net noise stack t w ≡ (ok (new m o, record t { channel = f.there }), f.after)
    unfolding read_talking
    read_talking_lem t c w f = rw (f.arrives, coded.read) refl

    pub write_shaking_lem :
        (s : InShake net noise stack) (c : L) (w : W)
        → packet_len + noise.overhead ≤ limit
        → Ready s.channel c w
        → (s' : L) × (w' : W) × (write_shaking net noise stack m o s w
            ≡ (ok (record s { channel = s'; session = (noise.write_message s.session bs).1 }), w'))
          × InFlight stack.plain Ready (noise.write_message s.session bs).0 s' c w'
    unfolding write_shaking
    write_shaking_lem s c w room ready =
        let (a, b, w', w'', sends, recvs, turn) =
          ends.plain_delivers (noise.write_message s.session bs).0 s.channel c w
            (omega (arith, coded.fits, noise.length-write_message s.session bs)) ready in
        (
          a,
          w',
          rw (coded.written, sends) refl,
          record { there = b; after = w''; arrives = recvs; turn = turn },
        )

    pub read_shaking_lem :
        (s : InShake net noise stack) (ct : List ℕ) (session : noise.Session) (c : L) (w : W)
        (f : InFlight stack.plain Ready ct c s.channel w)
        → noise.read_message s.session ct ≡ (ok bs, session)
        → read_shaking net noise stack s w
          ≡ (ok (new m o, record s { channel = f.there; session = session }), f.after)
    unfolding read_shaking
    read_shaking_lem s ct session c w f opens = rw (f.arrives, opens, coded.read) refl
