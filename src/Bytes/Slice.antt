-- ===== src/Bytes/Slice.antt =====
-- `xs[i]`, `&xs[a..]`, `&xs[a..b]` and the stores through them. Out of range they panic.
use efcp.Prelude.{
  ℕ, ◌-◌, ◌≤◌, ◌≡◌, List, ◌++◌, leb, ltb, if◌then◌else◌, length, get_elem?, set, take, drop, le→leb,
}
use efcp.Outcome.{Outcome, ok, panic, unwrap}

-- `&xs[a..]` on a slice of any elements.
abbrev pub slice_from {ℓ} : {E : Type 0} {A : Type ℓ} → ℕ → List A → Outcome E (List A)
slice_from a xs = if leb a (length xs) then ok (drop a xs) else panic

module _ {E : Type 0} where
  abbrev pub index : List ℕ → ℕ → Outcome E ℕ
  index xs i = unwrap (get_elem? xs i)

  abbrev pub slice : ℕ → ℕ → List ℕ → Outcome E (List ℕ)
  slice a b xs = if leb b (length xs) then ok (take (b - a) (drop a xs)) else panic

  -- `xs[i] = v`
  abbrev pub store : List ℕ → ℕ → ℕ → Outcome E (List ℕ)
  store xs i v = if ltb i (length xs) then ok (set xs i v) else panic

  -- `xs[a..].copy_from_slice(ys)`, for `ys` of the right length.
  abbrev pub store_from : ℕ → List ℕ → List ℕ → Outcome E (List ℕ)
  store_from a ys xs = if leb a (length xs) then ok (take a xs ++ ys) else panic

  -- `xs[a..b].copy_from_slice(ys)`, for `ys` of length `b - a`.
  abbrev pub store_slice : ℕ → ℕ → List ℕ → List ℕ → Outcome E (List ℕ)
  store_slice a b ys xs = if leb b (length xs) then ok (take a xs ++ (ys ++ drop b xs)) else panic

  -- In range they return.
  pub slice_from_ok :
      (a : ℕ) (xs : List ℕ) → a ≤ length xs → slice_from {E = E} a xs ≡ ok (drop a xs)
  slice_from_ok a xs h = rw (le→leb a (length xs) h)

  pub slice_ok :
      (a b : ℕ) (xs : List ℕ) → b ≤ length xs → slice a b xs ≡ ok (take (b - a) (drop a xs))
  slice_ok a b xs h = rw (le→leb b (length xs) h)
