-- ===== src/Outcome/Exec.antt =====
-- Methods that mutate `self` and may fail: what was written before an error stays written.
use efcp.Prelude.{Option, none, some}
use efcp.Outcome.{Outcome, ok, err, panic, pending}

abbrev pub Exec {ℓ} : Type ℓ → Type 0 → Type ℓ → Type ℓ
Exec S E A = S → Outcome E A × S

module _ {ℓ} {S A : Type ℓ} {E : Type 0} where
  abbrev pub pure : A → Exec S E A
  pure a s = (ok a, s)

  abbrev pub fail : E → Exec S E A
  fail e s = (err e, s)

  -- What a loop on fuel found. `none` says that the fuel ended before the loop.
  abbrev pub ended : Option A → Exec S E A
  ended (some a) s = (ok a, s)
  ended none s = (panic, s)

  -- A call that does not touch the state.
  abbrev pub lift : Outcome E A → Exec S E A
  lift r s = (r, s)

module _ {ℓ} {S A B : Type ℓ} {E : Type 0} where
  abbrev pub continue : Outcome E A → (A → Exec S E B) → Exec S E B
  continue (ok a) f s = f a s
  continue (err e) f s = (err e, s)
  continue panic f s = (panic, s)
  continue pending f s = (pending, s)

  infixl 5 ◌>>=◌ ◌>>◌
  abbrev pub ◌>>=◌ : Exec S E A → (A → Exec S E B) → Exec S E B
  ◌>>=◌ m f s = continue (m s).0 f (m s).1

  abbrev pub ◌>>◌ : Exec S E A → Exec S E B → Exec S E B
  m >> k = m >>= λ _. k
