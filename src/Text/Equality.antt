-- ===== src/Text/Equality.antt =====
-- Comparison of texts and membership in a slice of texts.
use efcp.Prelude.{
  ℕ, ◌≡◌, refl, ap, Bool, true, false, ◌&&◌, ◌||◌, List, [], ◌∷◌, Option, none, some, arith, ◌==◌,
  if◌then◌else◌, Bool-cases, inl, inr,
}

-- The bytes of a text.
abbrev pub Str : Type 0
Str = List ℕ

unfoldable pub str_eq : Str → Str → Bool
str_eq [] [] = true
str_eq [] (b ∷ t) = false
str_eq (a ∷ s) [] = false
str_eq (a ∷ s) (b ∷ t) = a == b && str_eq s t

pub str_eq_refl : (s : Str) → str_eq s s ≡ true
unfolding str_eq
str_eq_refl [] = refl
str_eq_refl (a ∷ s) = ground (arith, str_eq_refl s)

pub str_eq→eq : (s t : Str) → str_eq s t ≡ true → s ≡ t
unfolding str_eq
str_eq→eq [] [] h = refl
str_eq→eq [] (b ∷ t) h = cc
str_eq→eq (a ∷ s) [] h = cc
str_eq→eq (a ∷ s) (b ∷ t) h = ground (arith, str_eq→eq s t)

-- `ps.contains(p)`
unfoldable pub contains : List Str → Str → Bool
contains [] p = false
contains (q ∷ ps) p = str_eq q p || contains ps p

-- `ps.into_iter().find(|q| *q == p).map(|q| *q)`
unfoldable pub find : List Str → Str → Option Str
find [] p = none
find (q ∷ ps) p = if str_eq q p then some q else find ps p

pub find-contains : (ps : List Str) (p : Str) → find ps p ≡ (if contains ps p then some p else none)
unfolding find contains
find-contains [] p = refl
find-contains (q ∷ ps) p = elim (Bool-cases (str_eq q p)) [
  | inl e ↦ rw e (ap some (str_eq→eq q p e))
  | inr e ↦ rw e (find-contains ps p)
]
