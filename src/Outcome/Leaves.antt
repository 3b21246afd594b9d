-- ===== src/Outcome/Leaves.antt =====
-- Partial correctness of a call with state: whatever it returns satisfies `Q`.
use efcp.Outcome.{Outcome, ok, err, panic, pending}
use efcp.Outcome.Exec.{Exec, continue, ◌>>=◌}

abbrev pub Leaves : {E A : Type 0} → (A → Type 0) → Outcome E A → Type 0
Leaves Q (ok a) = Q a
Leaves Q (err e) = Unit
Leaves Q panic = Unit
Leaves Q pending = Unit

-- The same at every state.
abbrev pub Always : {E A W : Type 0} → (A → Type 0) → Exec W E A → Type 0
Always {W = W} Q m = (w : W) → Leaves Q (m w).0

module _ {E A B W : Type 0} (P : A → Type 0) (Q : B → Type 0) where
  continue-Leaves :
      (r : Outcome E A) (f : A → Exec W E B) (w : W)
      → Leaves P r
      → ((a : A) (w' : W) → P a → Leaves Q (f a w').0)
      → Leaves Q (continue r f w).0
  continue-Leaves (ok a) f w h k = k a w h
  continue-Leaves (err e) f w h k = tt
  continue-Leaves panic f w h k = tt
  continue-Leaves pending f w h k = tt

  pub Always-bind :
      (m : Exec W E A) (f : A → Exec W E B)
      → Always P m
      → ((a : A) → P a → Always Q (f a))
      → Always Q (m >>= f)
  Always-bind m f h k w = continue-Leaves (m w).0 f (m w).1 (h w) (λ a w' p. k a p w')

-- What nothing is known of.
pub Leaves-any : {E A : Type 0} (r : Outcome E A) → Leaves (λ _. Unit {0}) r
Leaves-any (ok a) = tt
Leaves-any (err e) = tt
Leaves-any panic = tt
Leaves-any pending = tt

-- The same, with nothing to know of the first call.
pub Always-then :
    {E A B W : Type 0} (Q : B → Type 0) (m : Exec W E A) (f : A → Exec W E B)
    → ((a : A) → Always Q (f a))
    → Always Q (m >>= f)
Always-then {A} Q m f k =
    Always-bind (λ (a : A). Unit {0}) Q m f (λ w. Leaves-any (m w).0) (λ a _. k a)
