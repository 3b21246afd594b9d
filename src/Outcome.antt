-- ===== src/Outcome.antt =====
-- How a call of the Rust code ends: it returns a value, it returns an error (`Result::Err`), it panics,
-- or, if it is a future, it is not ready (`Poll::Pending`) and its task waits. `Exec` adds the state that a `&mut self` method leaves behind, also beside an error.
-- Arithmetic follows the dev profile: an overflow of `+` panics, and `debug_assert!` is on.
pub mod Exec
pub mod Ensures
pub mod Leaves
use efcp.Prelude.{ℕ, ◌+◌, ◌^◌, Bool, true, false, Option, none, some, String, ltb, if◌then◌else◌}

-- `std::io::Error`: a kind with its message, or an error that the operating system reports.
pub data IoError : Type 0 where
  other : String → IoError
  would_block : IoError
  os : ℕ → IoError

pub data Outcome {ℓ} (E : Type 0) (A : Type ℓ) : Type ℓ where
  ok : A → Outcome E A
  err : E → Outcome E A
  panic : Outcome E A
  pending : Outcome E A

infixl 5 ◌>>=◌ ◌>>◌
abbrev pub ◌>>=◌ {ℓ κ} :
    {E : Type 0} {A : Type ℓ} {B : Type κ} → Outcome E A → (A → Outcome E B) → Outcome E B
ok a >>= f = f a
err e >>= f = err e
panic >>= f = panic
pending >>= f = pending

abbrev pub ◌>>◌ {ℓ κ} :
    {E : Type 0} {A : Type ℓ} {B : Type κ} → Outcome E A → Outcome E B → Outcome E B
m >> k = m >>= λ _. k

-- `if !b { return Err(e) }`
abbrev pub guard : {E : Type 0} → Bool → E → Outcome E (Unit {0})
guard true e = ok tt
guard false e = err e

-- `assert!(b)`, also the test that a slice index makes.
abbrev pub assert : {E : Type 0} → Bool → Outcome E (Unit {0})
assert true = ok tt
assert false = panic

-- `?` on an `Option` that was mapped to an error.
abbrev pub ok_or {ℓ} : {E : Type 0} {A : Type ℓ} → Option A → E → Outcome E A
ok_or none e = err e
ok_or (some a) e = ok a

-- `.unwrap()` on an `Option`.
abbrev pub unwrap {ℓ} : {E : Type 0} {A : Type ℓ} → Option A → Outcome E A
unwrap none = panic
unwrap (some a) = ok a

abbrev pub map_err {ℓ} : {E F : Type 0} {A : Type ℓ} → (E → F) → Outcome E A → Outcome F A
map_err f (ok a) = ok a
map_err f (err e) = err (f e)
map_err f panic = panic
map_err f pending = pending

abbrev pub usize_mod : ℕ
usize_mod = 2 ^ 64

-- `a + b` on integers below the given modulus: an overflow panics.
abbrev pub checked_add : {E : Type 0} → ℕ → ℕ → ℕ → Outcome E ℕ
checked_add modulus a b = if ltb (a + b) modulus then ok (a + b) else panic
