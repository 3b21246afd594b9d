-- ===== src/Handshake/Noise.antt =====
-- `SessionBuilder::new("XK1sig")` of the crate disco and the session that it builds: a handshake of three
-- messages, each with a payload, after which each side knows the key of the other.
use efcp.Prelude.{ℕ, ◌+◌, ◌≤◌, ◌<◌, ◌≡◌, true, false, Bool, List, Option, some, length}
use efcp.Outcome.{Outcome, ok}
use efcp.Secure.{Disco}

-- What the first session writes, the second reads.
abbrev pub Passes :
    {S R : Type 0}
    → (S → List ℕ → List ℕ × S)
    → (S → List ℕ → Outcome R (List ℕ) × S)
    → (S → S → Type 0)
    → S
    → S
    → List ℕ
    → Type 0
Passes {S = S} write read Next a b xs =
    (b' : S) × (read b (write a xs).0 ≡ (ok xs, b')) × Next (write a xs).1 b'

pub record Noise (disco : Disco) : Type 1 where
  pub Keypair : Type 0
  pub PublicKey : Type 0
  pub Session : Type 0
  pub public : Keypair → PublicKey
  -- `.secret(identity)`, for the dialer with `.remote_public(..)`, and `.build_initiator()` or
  -- `.build_responder()`.
  pub initiator : Keypair → PublicKey → Session
  pub responder : Keypair → Session
  pub write_message : Session → List ℕ → List ℕ × Session
  pub read_message : Session → List ℕ → Outcome disco.ReadError (List ℕ) × Session
  pub is_handshake_finished : Session → Bool
  pub get_remote_static : Session → Option PublicKey
  pub into_stateless : Session → disco.State
  -- How much longer than its payload a message is.
  pub overhead : ℕ
  -- `Joined k i r a b`: the sessions `a` and `b` of the keys `i` and `r` have exchanged `k` messages.
  pub Joined : ℕ → Keypair → Keypair → Session → Session → Type 0
  pub length-write_message :
      (s : Session) (xs : List ℕ) → length (write_message s xs).0 ≤ length xs + overhead
  pub joined_new : (i r : Keypair) → Joined 0 i r (initiator i (public r)) (responder r)
  pub first :
      (i r : Keypair) (a b : Session) (xs : List ℕ)
      → Joined 0 i r a b
      → Passes write_message read_message (λ a' b'. Joined 1 i r a' b') a b xs
  pub second :
      (i r : Keypair) (a b : Session) (xs : List ℕ)
      → Joined 1 i r a b
      → Passes write_message read_message (λ b' a'. Joined 2 i r a' b') b a xs
  pub third :
      (i r : Keypair) (a b : Session) (xs : List ℕ)
      → Joined 2 i r a b
      → Passes write_message read_message (λ a' b'. Joined 3 i r a' b') a b xs
  pub unfinished :
      (k : ℕ) (i r : Keypair) (a b : Session)
      → Joined k i r a b
      → k < 3
      → (is_handshake_finished a ≡ false) × (is_handshake_finished b ≡ false)
  pub finished :
      (i r : Keypair) (a b : Session)
      → Joined 3 i r a b
      → (is_handshake_finished a ≡ true) × (is_handshake_finished b ≡ true)
  pub remote_statics :
      (i r : Keypair) (a b : Session)
      → Joined 3 i r a b
      → (get_remote_static a ≡ some (public r)) × (get_remote_static b ≡ some (public i))
  pub transports :
      (i r : Keypair) (a b : Session)
      → Joined 3 i r a b
      → disco.Peers (into_stateless a) (into_stateless b)
        × disco.Peers (into_stateless b) (into_stateless a)
