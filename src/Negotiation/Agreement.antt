-- ===== src/Negotiation/Agreement.antt =====
-- Two honest sides settle on the choice.
use efcp.Prelude.{
  ℕ, zero, suc, ◌+◌, ◌*◌, ◌≤◌, ◌<◌, ◌≡◌, refl, Bool, true, false, List, [], ◌∷◌, Option, none, some,
  arith, length, get_elem?, drop, Bool-cases, inl, inr,
}
use efcp.Outcome.{ok, usize_mod}
use efcp.Text.{Str, contains, find-contains}
use efcp.Negotiation.Message.{Message}
use efcp.Negotiation.Defs.{Negotiation, new, propose, initiate, message}
use efcp.Negotiation.Exchange.{Sides, to_responder, to_initiator, exchange}
use efcp.Negotiation.Choice.{
  choose, choice, choose-taken, choose-out, choose-countered, choose-next, choose-nil,
}

-- Both sides are finished and accepted the same.
pub record Settled (r : Option Str) (n : Sides) : Type 0 where
  pub initiator : n.0.accepted ≡ r
  pub responder : n.1.accepted ≡ r
  pub initiator_done : n.0.finished ≡ true
  pub responder_done : n.1.finished ≡ true

-- A side that has accepted nothing yet, with its next untried protocol at index `i`.
abbrev open_at : List Str → ℕ → Option Str → Bool → Negotiation
open_at ps i o s = record {
  protocols = ps;
  tried = i;
  started = s;
  proposed = o;
  accepted = none;
  finished = false;
}

abbrev HasRoom : List Str → Type 0
HasRoom ps = length ps + 1 < usize_mod

drop-head :
    (i : ℕ) (ps : List Str) {x : Str} {xs : List Str}
    → drop i ps ≡ x ∷ xs
    → (get_elem? ps i ≡ some x) × (drop (suc i) ps ≡ xs) × (suc i ≤ length ps)
drop-head zero [] h = cc
drop-head zero (p ∷ ps) h = ground arith
drop-head (suc i) [] h = cc
drop-head (suc i) (p ∷ ps) h = ground (arith, drop-head i ps h)

drop-end : (i : ℕ) (ps : List Str) → drop i ps ≡ [] → get_elem? ps i ≡ none
drop-end zero [] h = refl
drop-end zero (p ∷ ps) h = cc
drop-end (suc i) [] h = refl
drop-end (suc i) (p ∷ ps) h = drop-end i ps h

module _ (qs : List Str) (p : Str) (j : ℕ) (o : Option Str) (s : Bool) where
  message-taken :
      contains qs p ≡ true
      → message {R = Unit} (Message.propose p) (open_at qs j o s) ≡ (
        ok (some Message.accept),
        record (open_at qs j o true) { accepted = some p; finished = true },
      )
  unfolding message
  message-taken h = rw (find-contains qs p, h)

  module _ (h : contains qs p ≡ false) (room : j + 1 < usize_mod) where
    message-counter :
        (q : Str)
        → get_elem? qs j ≡ some q
        → message {R = Unit} (Message.propose p) (open_at qs j o s)
          ≡ (ok (some (Message.propose q)), open_at qs (suc j) (some q) true)
    unfolding message propose
    message-counter q e = ground (arith, find-contains qs p)

    message-gives_up :
        get_elem? qs j ≡ none
        → message {R = Unit} (Message.propose p) (open_at qs j o s)
          ≡ (ok (some Message.fail), record (open_at qs (suc j) o true) { finished = true })
    unfolding message propose
    message-gives_up e = ground (arith, find-contains qs p)

abbrev Settles : Option Str → Option Sides → Type 0
Settles r o = (n : Sides) × (o ≡ some n) × Settled r n

Settles-done :
    (r : Option Str) (a b : Negotiation)
    → a.accepted ≡ r
    → b.accepted ≡ r
    → a.finished ≡ true
    → b.finished ≡ true
    → Settles r (some (a, b))
Settles-done r a b ha hb da db = (
  (a, b),
  refl,
  record { initiator = ha; responder = hb; initiator_done = da; responder_done = db },
)

module _ (ps qs : List Str) (room_p : HasRoom ps) (room_q : HasRoom qs) where
  -- The initiator does not have the counter-proposal `y`: it proposes its next protocol, or gives up.
  next_round :
      (f i j : ℕ) (p y : Str) (xs ys : List Str)
      → drop i ps ≡ xs
      → i ≤ length ps
      → contains ps y ≡ false
      → ((x : Str) (rest : List Str)
          → drop i ps ≡ x ∷ rest
          → Settles (choose ps qs (x ∷ rest) ys) (
              to_responder
                (suc f)
                (open_at ps (suc i) (some x) true)
                (open_at qs j (some y) true)
                (Message.propose x)))
      → Settles (choose ps qs xs ys) (
          to_initiator
            (suc (suc f))
            (open_at ps i (some p) true)
            (open_at qs j (some y) true)
            (Message.propose y))
  unfolding to_responder
  next_round f i j p y [] ys hx hi e later =
      rw
        (
          message-gives_up ps y i (some p) true e (omega arith) (drop-end i ps hx),
          choose-nil ps qs ys,
        )
        (unfold message in Settles-done _ _ _ refl refl refl refl)
  next_round f i j p y (x ∷ xs) ys hx hi e later =
      rw (message-counter ps y i (some p) true e (omega arith) x (drop-head i ps hx).0)
        (later x xs hx)

  -- From a proposal of the initiator on.
  talk :
      (fuel i j : ℕ) (p : Str) (o : Option Str) (s : Bool) (xs ys : List Str)
      → drop i ps ≡ xs
      → drop j qs ≡ ys
      → i ≤ length ps
      → j ≤ length qs
      → 2 * length ys + 3 ≤ fuel
      → Settles
          (choose ps qs (p ∷ xs) ys)
          (to_responder fuel (open_at ps i (some p) true) (open_at qs j o s) (Message.propose p))
  unfolding to_responder
  talk zero i j p o s xs ys hx hy hi hj h = absurd (omega arith)
  talk (suc zero) i j p o s xs ys hx hy hi hj h = absurd (omega arith)
  talk (suc (suc zero)) i j p o s xs ys hx hy hi hj h = absurd (omega arith)
  talk (suc (suc (suc f))) i j p o s xs [] hx hy hi hj h = elim (Bool-cases (contains qs p)) [
    | inl e ↦
        rw (message-taken qs p j o s e, choose-taken ps qs p xs [] e)
          (unfold message in Settles-done _ _ _ refl refl refl refl)
    | inr e ↦
        rw (message-gives_up qs p j o s e (omega arith) (drop-end j qs hy), choose-out ps qs p e xs)
          (unfold message in Settles-done _ _ _ refl refl refl refl)
  ]
  talk (suc (suc (suc f))) i j p o s xs (y ∷ ys) hx hy hi hj h =
      let head = drop-head j qs hy in
      elim (Bool-cases (contains qs p)) [
        | inl e ↦
            rw (message-taken qs p j o s e, choose-taken ps qs p xs (y ∷ ys) e)
              (unfold message in Settles-done _ _ _ refl refl refl refl)
        | inr e ↦
            rw (message-counter qs p j o s e (omega arith) y head.0)
              (elim (Bool-cases (contains ps y)) [
                | inl e' ↦
                    rw
                      (message-taken ps y i (some p) true e', choose-countered ps qs p e xs ys y e')
                      (unfold message in Settles-done _ _ _ refl refl refl refl)
                | inr e' ↦ rw (choose-next ps qs p e xs ys y e') (
                    next_round f i (suc j) p y xs ys hx hi e' λ x rest hd.
                      let next = drop-head i ps hd in
                      talk (suc f) (suc i) (suc j) x (some y) true rest ys next.1 head.1 next.2
                        head.2 (omega arith))
              ])
      ]

-- `exchange` from two fresh sides, each with fewer protocols than a `usize` counts. With at least
-- `2 * length qs + 3` messages allowed, `qs` being the responder's protocols, the talk ends with
-- no error and no panic on either side; both sides are then finished, and both have accepted the
-- choice.
pub exchange-Settles :
    (fuel : ℕ) (ps qs : List Str)
    → length ps + 1 < usize_mod
    → length qs + 1 < usize_mod
    → 2 * length qs + 3 ≤ fuel
    → (n : Sides) × (exchange fuel (new ps) (new qs) ≡ some n) × Settled (choice ps qs) n
unfolding exchange to_responder new initiate choice message
exchange-Settles zero ps qs room_p room_q h = absurd (omega arith)
exchange-Settles (suc fuel) [] qs room_p room_q h =
    rw (choose-nil [] qs qs) (Settles-done none _ _ refl refl refl refl)
exchange-Settles (suc fuel) (p ∷ ps) qs room_p room_q h =
    talk (p ∷ ps) qs room_p room_q (suc fuel) 1 0 p none false ps qs refl refl (omega arith)
      (omega arith) h
