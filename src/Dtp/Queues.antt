-- ===== src/Dtp/Queues.antt =====
-- What the dtp socket takes from other crates: `slab::Slab`, storage under keys that it chooses, and
-- `crossbeam::queue::SegQueue`, a first-in-first-out queue.
use efcp.Prelude.{ℕ, ◌≡◌, ◌≢◌, List, [], ◌∷◌, ◌++◌, Option, none, some}

pub record SegQueue (A : Type 0) : Type 1 where
  pub Queue : Type 0
  pub new : Queue
  pub push : Queue → A → Queue
  pub pop : Queue → Option (A × Queue)
  pub to_list : Queue → List A
  pub to_list-new : to_list new ≡ []
  pub to_list-push : (q : Queue) (a : A) → to_list (push q a) ≡ to_list q ++ a ∷ []
  pub pop_empty : (q : Queue) → to_list q ≡ [] → pop q ≡ none
  pub pop_front :
      (q : Queue) (a : A) (rest : List A)
      → to_list q ≡ a ∷ rest
      → (r : Queue) × (pop q ≡ some (a, r)) × (to_list r ≡ rest)

-- `set` is a change through `get_mut`; `remove` of a key that is not there panics, which is `none`.
pub record Slab (A : Type 0) : Type 1 where
  pub Store : Type 0
  pub new : Store
  pub insert : Store → A → ℕ × Store
  pub get : Store → ℕ → Option A
  pub set : Store → ℕ → A → Store
  pub remove : Store → ℕ → Option Store
  pub get-new : (k : ℕ) → get new k ≡ none
  pub get-insert_free : (s : Store) (a : A) → get s (insert s a).0 ≡ none
  pub get-insert_self : (s : Store) (a : A) → get (insert s a).1 (insert s a).0 ≡ some a
  pub get-insert_ne :
      (s : Store) (a : A) (k : ℕ) → k ≢ (insert s a).0 → get (insert s a).1 k ≡ get s k
  pub get-set_self : (s : Store) (k : ℕ) (a c : A) → get s k ≡ some a → get (set s k c) k ≡ some c
  pub get-set_ne : (s : Store) (k j : ℕ) (c : A) → j ≢ k → get (set s k c) j ≡ get s j
  pub remove_some :
      (s : Store) (k : ℕ) (a : A)
      → get s k ≡ some a
      → (t : Store) × (remove s k ≡ some t)
        × (get t k ≡ none)
        × ((j : ℕ) → j ≢ k → get t j ≡ get s j)
