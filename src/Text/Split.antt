-- ===== src/Text/Split.antt =====
-- `str::split` at one byte.
use efcp.Prelude.{
  ℕ, ◌≡◌, ◌≢◌, refl, List, [], ◌∷◌, ◌++◌, arith, ◌==◌, if◌then◌else◌, All, Bool-cases, inl, inr,
}
use efcp.Text.Equality.{Str}

abbrev push_head : ℕ → List Str → List Str
push_head c [] = (c ∷ []) ∷ []
push_head c (p ∷ ps) = (c ∷ p) ∷ ps

unfoldable pub split : ℕ → Str → List Str
split sep [] = [] ∷ []
split sep (c ∷ s) = let rest = split sep s in if c == sep then [] ∷ rest else push_head c rest

-- The part in front of the first separator, and the parts behind it.
pub split-append :
    (sep : ℕ) (p s : Str) → All (λ c. c ≢ sep) p → split sep (p ++ sep ∷ s) ≡ p ∷ split sep s
unfolding split
split-append sep [] s h = ground arith
split-append sep (c ∷ p) s h = ground (arith, split-append sep p s h.1)

pub split-whole : (sep : ℕ) (p : Str) → All (λ c. c ≢ sep) p → split sep p ≡ p ∷ []
unfolding split
split-whole sep [] h = refl
split-whole sep (c ∷ p) h = ground (arith, split-whole sep p h.1)

-- There is always a part in front of the first separator, if only an empty one.
pub split-cons : (sep : ℕ) (s : Str) → (p : Str) × (ps : List Str) × (split sep s ≡ p ∷ ps)
unfolding split
split-cons sep [] = ([], [], refl)
split-cons sep (c ∷ s) = elim (Bool-cases (c == sep)) [
  | inl here ↦ ([], split sep s, rw here refl)
  | inr other ↦ let (p, ps, e) = split-cons sep s in (c ∷ p, ps, rw (other, e) refl)
]
