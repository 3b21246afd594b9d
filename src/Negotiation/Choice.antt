-- ===== src/Negotiation/Choice.antt =====
-- What two lists of protocols agree on, with no state and no messages: the sides propose in turn, the
-- initiator first, each down its own list, and the first proposal that the other side has is taken.
use efcp.Prelude.{
  ◌≡◌, refl, true, false, ◌⊎◌, List, [], ◌∷◌, Option, none, some, arith, if◌then◌else◌, All,
  Bool-cases, inl, inr,
}
use efcp.Text.{Str, contains, str_eq_refl, str_eq→eq}

unfoldable pub choose : List Str → List Str → List Str → List Str → Option Str
choose ps qs [] ys = none
choose ps qs (x ∷ xs) [] = if contains qs x then some x else none
choose ps qs (x ∷ xs) (y ∷ ys) =
    let rest = choose ps qs xs ys in
    if contains qs x then some x else if contains ps y then some y else rest

-- The protocol that an initiator with `ps` and a responder with `qs` agree on.
unfoldable pub choice : List Str → List Str → Option Str
unfolding choose
choice ps qs = choose ps qs ps qs

-- `choose`, case by case.
module _ (ps qs : List Str) (p : Str) where
  pub choose-taken : (xs ys : List Str) → contains qs p ≡ true → choose ps qs (p ∷ xs) ys ≡ some p
  unfolding choose
  choose-taken xs [] h = rw h
  choose-taken xs (y ∷ ys) h = rw h

  module _ (h : contains qs p ≡ false) where
    pub choose-out : (xs : List Str) → choose ps qs (p ∷ xs) [] ≡ none
    unfolding choose
    choose-out xs = rw h

    pub choose-countered :
        (xs ys : List Str) (y : Str)
        → contains ps y ≡ true
        → choose ps qs (p ∷ xs) (y ∷ ys) ≡ some y
    unfolding choose
    choose-countered xs ys y e = rw (h, e)

    pub choose-next :
        (xs ys : List Str) (y : Str)
        → contains ps y ≡ false
        → choose ps qs (p ∷ xs) (y ∷ ys) ≡ choose ps qs xs ys
    unfolding choose
    choose-next xs ys y e = rw (h, e)

pub choose-nil : (ps qs ys : List Str) → choose ps qs [] ys ≡ none
unfolding choose
choose-nil ps qs ys = refl

abbrev pub Subset : List Str → List Str → Type 0
Subset xs ps = All (λ x. contains ps x ≡ true) xs

contains-cons : (p q : Str) (ps : List Str) → contains ps p ≡ true → contains (q ∷ ps) p ≡ true
unfolding contains
contains-cons p q ps h = ground arith

Subset-cons : (q : Str) (xs ps : List Str) → Subset xs ps → Subset xs (q ∷ ps)
Subset-cons q [] ps h = tt
Subset-cons q (x ∷ xs) ps h = (contains-cons x q ps h.0, Subset-cons q xs ps h.1)

pub Subset-self : (ps : List Str) → Subset ps ps
unfolding contains
Subset-self [] = tt
Subset-self (p ∷ ps) = (ground (arith, str_eq_refl p), Subset-cons p ps ps (Subset-self ps))

choose-Common :
    (ps qs xs ys : List Str) (p : Str)
    → Subset xs ps
    → Subset ys qs
    → choose ps qs xs ys ≡ some p
    → (contains ps p ≡ true) × (contains qs p ≡ true)
unfolding choose
choose-Common ps qs [] ys p hx hy e = cc
choose-Common ps qs (x ∷ xs) [] p hx hy e = ground arith
choose-Common ps qs (x ∷ xs) (y ∷ ys) p hx hy e =
    ground (arith, choose-Common ps qs xs ys p hx.1 hy.1)

-- What nobody chose one of the sides does not have.
choose-none :
    (ps qs xs ys : List Str)
    → choose ps qs xs ys ≡ none
    → (p : Str) → contains xs p ≡ true
    → contains ys p ≡ true
    → (contains qs p ≡ false) ⊎ (contains ps p ≡ false)
unfolding choose contains
choose-none ps qs [] ys e p hx hy = cc
choose-none ps qs (x ∷ xs) [] e p hx hy = cc
choose-none ps qs (x ∷ xs) (y ∷ ys) e p hx hy =
    ground (arith, choose-none ps qs xs ys (ground arith) p, str_eq→eq x p, str_eq→eq y p)

pub choice-Common :
    (ps qs : List Str) (p : Str)
    → choice ps qs ≡ some p
    → (contains ps p ≡ true) × (contains qs p ≡ true)
unfolding choice
choice-Common ps qs p e = choose-Common ps qs ps qs p (Subset-self ps) (Subset-self qs) e

pub choice-none :
    (ps qs : List Str) (p : Str)
    → choice ps qs ≡ none
    → contains ps p ≡ true
    → contains qs p ≡ false
unfolding choice
choice-none ps qs p e hp = elim (Bool-cases (contains qs p)) [
  | inl hq ↦ ground (arith, choose-none ps qs ps qs e p hp hq)
  | inr hq ↦ hq
]
