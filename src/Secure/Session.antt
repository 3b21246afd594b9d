-- ===== src/Secure/Session.antt =====
-- `StatelessTransportState` of the crate disco: it encrypts a buffer in place under a nonce and makes a
-- tag, and it decrypts a buffer that has the right tag.
use efcp.Prelude.{ℕ, ◌≡◌, List, length, String}
use efcp.Outcome.{Outcome, ok}

pub record Disco : Type 1 where
  pub State : Type 0
  pub ReadError : Type 0
  -- What `{:?}` prints.
  pub debug : ReadError → String
  pub tag_len : ℕ
  -- The encrypted buffer and the tag.
  pub write_message : State → ℕ → List ℕ → List ℕ × List ℕ
  pub read_message : State → ℕ → List ℕ → List ℕ → Outcome ReadError (List ℕ)
  -- Two ends of one session.
  pub Peers : State → State → Type 0
  pub length-write_message :
      (s : State) (n : ℕ) (xs : List ℕ) → length (write_message s n xs).0 ≡ length xs
  pub length-tag : (s : State) (n : ℕ) (xs : List ℕ) → length (write_message s n xs).1 ≡ tag_len
  pub read-write :
      (s t : State) (n : ℕ) (xs : List ℕ)
      → Peers s t
      → read_message t n (write_message s n xs).0 (write_message s n xs).1 ≡ ok xs
