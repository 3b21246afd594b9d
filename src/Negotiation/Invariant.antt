-- ===== src/Negotiation/Invariant.antt =====
-- What no peer can make a negotiation do, whatever it sends: `message` against an arbitrary message.
use efcp.Prelude.{
  ℕ, zero, suc, ◌+◌, ◌<◌, ◌≡◌, ◌⊎◌, refl, true, List, [], ◌∷◌, Option, none, some, arith, get_elem?,
  Option-cases, inl, inr,
}
use efcp.Outcome.{ok, err, usize_mod}
use efcp.HandshakeError.{protocol_error}
use efcp.Text.{Str, contains, find, find-contains, str_eq_refl}
use efcp.Negotiation.Message.{Message}
use efcp.Negotiation.Defs.{Negotiation, propose, message, into_protocol}

abbrev IsOwn : List Str → Option Str → Type 0
IsOwn ps none = Unit
IsOwn ps (some p) = contains ps p ≡ true

-- What was proposed or accepted is one of this side's own protocols.
pub record IsValid (ps : List Str) (n : Negotiation) : Type 0 where
  pub own : n.protocols ≡ ps
  pub proposed_own : IsOwn ps n.proposed
  pub accepted_own : IsOwn ps n.accepted

get_elem?-IsOwn : (ps : List Str) (i : ℕ) → IsOwn ps (get_elem? ps i)
unfolding contains
get_elem?-IsOwn [] i = tt
get_elem?-IsOwn (p ∷ ps) zero = ground (arith, str_eq_refl p)
get_elem?-IsOwn (p ∷ ps) (suc i) = ground (arith, get_elem?-IsOwn ps i)

propose-IsValid :
    (ps : List Str) (n : Negotiation) → IsValid ps n → IsValid ps (propose {R = Unit} n).1
unfolding propose
propose-IsValid ps n v = ground (arith, get_elem?-IsOwn ps n.tried)

-- `message` keeps, on every message, that a proposed or accepted protocol is one of this side's own,
-- and leaves the list of protocols alone, also where it returns an error.
pub message-IsValid :
    (ps : List Str) (m : Message) (n : Negotiation)
    → IsValid ps n
    → IsValid ps (message {R = Unit} m n).1
unfolding message propose
message-IsValid ps (Message.propose p) n v =
    ground (arith, find-contains n.protocols p, get_elem?-IsOwn ps n.tried)
message-IsValid ps Message.accept n v = ground arith
message-IsValid ps Message.fail n v = ground arith

-- `self.accepted.is_some()`
abbrev pub IsSettled : Option Str → Type 0
IsSettled o = (p : Str) × (o ≡ some p)

first_proposal :
    (p : Str) (n : Negotiation)
    → n.accepted ≡ none
    → n.tried + 1 < usize_mod
    → (r : Option Message) × ((message {R = Unit} (Message.propose p) n).0 ≡ ok r)
unfolding message propose
first_proposal p n e h = elim (Option-cases (find n.protocols p)) [
  | inr (q, found) ↦ (some Message.accept, ground arith)
  | inl missing ↦ elim (Option-cases (get_elem? n.protocols n.tried)) [
    | inr (q, next) ↦ (some (Message.propose q), ground arith)
    | inl out ↦ (some Message.fail, ground arith)
  ]
]

-- While the count of proposals fits a `usize`, `message` decides by its argument and by whether a
-- protocol was accepted. A proposal after one was accepted is a protocol error, which changes
-- nothing but `started`. In every other case `message` returns without an error or a panic.
pub message_total :
    (m : Message) (n : Negotiation)
    → n.tried + 1 < usize_mod
    → (((p : Str) × (m ≡ Message.propose p) × IsSettled n.accepted)
        × (message {R = Unit} m n ≡ (err protocol_error, record n { started = true })))
      ⊎ ((¬ ((p : Str) × (m ≡ Message.propose p) × IsSettled n.accepted))
          × ((r : Option Message) × ((message {R = Unit} m n).0 ≡ ok r)))
unfolding message propose
message_total (Message.propose p) n h = elim (Option-cases n.accepted) [
  | inl e ↦ inr (λ (q, same, (a, settled)). absurd (cc), first_proposal p n e h)
  | inr (q, e) ↦ inl ((p, refl, (q, e)), rw e)
]
message_total Message.accept n h = inr (λ (q, same, settled). absurd (cc), (none, refl))
message_total Message.fail n h = inr (λ (q, same, settled). absurd (cc), (none, refl))

-- A side that has proposed and accepted nothing takes the proposal `p`, one of its protocols. If
-- it is then sent an `Accept` it forgets `p`: it ends finished and with no protocol.
pub stray_accept :
    (n : Negotiation) (p : Str)
    → n.accepted ≡ none
    → n.proposed ≡ none
    → contains n.protocols p ≡ true
    → let taken = (message {R = Unit} (Message.propose p) n).1 in
      let after = (message {R = Unit} Message.accept taken).1 in
      (into_protocol {R = Unit} taken ≡ ok (some p)) × (into_protocol {R = Unit} after ≡ ok none)
unfolding message into_protocol
stray_accept n p a b c = ground (arith, find-contains n.protocols p)
