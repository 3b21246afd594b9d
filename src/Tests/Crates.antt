-- ===== src/Tests/Crates.antt =====
-- Small implementations of the queue and the slab that the dtp socket is built from: a list, and a
-- function with the next free key.
use efcp.Prelude.{
  ℕ, suc, ◌≡◌, ◌≢◌, refl, List, [], ◌∷◌, ◌++◌, Option, none, some, ltb, ◌==◌, if◌then◌else◌, arith,
}
use efcp.Dtp.Queues.{SegQueue, Slab}
use efcp.Dtp.Socket.{Crates}
use efcp.Tests.Instances.{buffers}

-- The next key, and what is stored.
abbrev pub Keyed : Type 0 → Type 0
Keyed A = ℕ × (ℕ → Option A)

module _ {A : Type 0} where
  abbrev pop_list : List A → Option (A × List A)
  pop_list [] = none
  pop_list (a ∷ rest) = some (a, rest)

  abbrev pub list_queue : SegQueue A
  list_queue = record {
    Queue = List A;
    new = [];
    push = λ q a. q ++ a ∷ [];
    pop = pop_list;
    to_list = λ q. q;
    to_list-new = refl;
    to_list-push = λ q a. refl;
    pop_empty = λ q e. rw e refl;
    pop_front = λ q a rest e. (rest, rw e refl, refl);
  }

  abbrev pub look : Keyed A → ℕ → Option A
  look s k = if ltb k s.0 then s.1 k else none

  abbrev pub place : ℕ → Option A → (ℕ → Option A) → ℕ → Option A
  place k o f j = if j == k then o else f j

  abbrev pub add : Keyed A → A → ℕ × Keyed A
  add s a = (s.0, (suc s.0, place s.0 (some a) s.1))

  abbrev pub drop_key : Keyed A → ℕ → Option A → Option (Keyed A)
  drop_key s k none = none
  drop_key s k (some a) = some (s.0, place k none s.1)

  pub look-add_ne : (s : Keyed A) (a : A) (k : ℕ) → k ≢ s.0 → look (add s a).1 k ≡ look s k
  look-add_ne s a k h = ground arith

  pub look-place_self :
      (s : Keyed A) (k : ℕ) (a c : A)
      → look s k ≡ some a
      → look (s.0, place k (some c) s.1) k ≡ some c
  look-place_self s k a c e = ground arith

  pub look-place_ne :
      (s : Keyed A) (k j : ℕ) (o : Option A) → j ≢ k → look (s.0, place k o s.1) j ≡ look s j
  look-place_ne s k j o h = ground arith

  pub look-place-none : (s : Keyed A) (k : ℕ) → look (s.0, place k none s.1) k ≡ none
  look-place-none s k = ground arith

  abbrev pub keyed_slab : Slab A
  keyed_slab = record {
    Store = Keyed A;
    new = (0, λ _. none);
    insert = add;
    get = look;
    set = λ s k c. (s.0, place k (some c) s.1);
    remove = λ s k. drop_key s k (look s k);
    get-new = λ k. ground arith;
    get-insert_free = λ s a. ground arith;
    get-insert_self = λ s a. ground arith;
    get-insert_ne = look-add_ne;
    get-set_self = look-place_self;
    get-set_ne = λ s k j c h. look-place_ne s k j (some c) h;
    remove_some = λ s k a e. (
      (s.0, place k none s.1),
      rw e refl,
      look-place-none s k,
      λ j h. look-place_ne s k j none h,
    );
  }

abbrev pub crates : Crates
crates = record { buf = buffers; packets = list_queue; slab = keyed_slab; accepts = list_queue }
