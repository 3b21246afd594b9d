-- ===== src/Handshake/Transport.antt =====
-- The channels that the handshake of efcp/src/lib.rs works on, as it uses them, and what it relies on.
use efcp.Prelude.{ℕ, ◌≤◌, ◌≡◌, List, length}
use efcp.Outcome.{Outcome, ok, IoError}
use efcp.Outcome.Exec.{Exec}

-- A channel is a part of its own, `L`, and a world `W` that outlives it: a socket, or a wire.
pub record Transport (L W : Type 0) : Type 0 where
  -- `channel.send(bytes[..].into()).await`
  pub send : List ℕ → Exec (L × W) IoError (Unit {0})
  -- `channel.recv().await`, and the `payload()` of the packet.
  pub recv : Exec (L × W) IoError (List ℕ)

-- The channel below is a `C`; `L` is the type of the channel of the handshake, and `M` that of the
-- channel of the negotiation and of the connection.
pub record Stack (State C L M W : Type 0) : Type 0 where
  -- `dtcp.build_channel(channel)`
  pub wrap : C → Outcome IoError L
  pub plain : Transport L W
  -- `channel.unwrap()`, `DiscoChannel::new(channel, session)` and `dtcp.build_channel(channel)`.
  pub seal : L → State → Outcome IoError M
  pub sealed : Transport M W

-- `Ready a b w`: at the world `w` the end `a` may send next, and `b` waits. Then `b` receives what `a`
-- has sent, and it is the turn of `b`.
abbrev pub Delivers : {L W : Type 0} → ℕ → Transport L W → (L → L → W → Type 0) → Type 0
Delivers {L} {W} limit t Ready =
    (bs : List ℕ) (a b : L) (w : W)
    → length bs ≤ limit
    → Ready a b w
    → (a' b' : L) × (w' w'' : W) × (t.send bs (a, w) ≡ (ok tt, (a', w')))
      × (t.recv (b, w') ≡ (ok bs, (b', w'')))
      × Ready b' a' w''

-- Two ends of a stack: what the channels below it that may talk are, and the two channels above it.
pub record IsStack {State C L M W : Type 0} (stack : Stack State C L M W) (limit : ℕ)
    (Peers : State → State → Type 0) (Apart : C → C → W → Type 0) (Ready : L → L → W → Type 0)
    (Ready' : M → M → W → Type 0) : Type 0 where
  pub plain_delivers : Delivers limit stack.plain Ready
  pub sealed_delivers : Delivers limit stack.sealed Ready'
  pub wraps :
      (c d : C) (w : W)
      → Apart c d w
      → (a b : L) × (stack.wrap c ≡ ok a) × (stack.wrap d ≡ ok b) × Ready a b w
  pub seals :
      (a b : L) (w : W) (s t : State)
      → Ready a b w
      → Peers s t
      → Peers t s
      → (x y : M) × (stack.seal a s ≡ ok x) × (stack.seal b t ≡ ok y) × Ready' x y w
