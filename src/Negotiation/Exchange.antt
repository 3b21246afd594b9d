-- ===== src/Negotiation/Exchange.antt =====
-- Two negotiations that talk to one another: each reply of `message` is handed to the other side, as
-- the tests of efcp/src/negotiation.rs do by hand and the handshake loops of efcp/src/lib.rs do over a
-- channel. One unit of fuel is one message; `none` means that the fuel ran out or a side failed.
use efcp.Prelude.{ℕ, zero, suc, Option, none, some}
use efcp.Outcome.{Outcome, ok, err, panic, pending}
use efcp.HandshakeError.{HandshakeError}
use efcp.Negotiation.Message.{Message}
use efcp.Negotiation.Defs.{Negotiation, initiate, message}

abbrev pub Sides : Type 0
Sides = Negotiation × Negotiation

-- What one delivery leads to: the talk ends, or the reply goes the other way.
abbrev pub deliver :
    Outcome (HandshakeError Unit) (Option Message) × Negotiation
    → (Negotiation → Message → Option Sides)
    → (Negotiation → Option Sides)
    → Option Sides
deliver (ok (some m), n) onward stop = onward n m
deliver (ok none, n) onward stop = stop n
deliver (err e, n) onward stop = none
deliver (panic, n) onward stop = none
deliver (pending, n) onward stop = none

unfoldable mutual
  pub to_responder : ℕ → Negotiation → Negotiation → Message → Option Sides
  to_responder zero a b m = none
  to_responder (suc fuel) a b m =
      deliver (message m b) (λ b' r. to_initiator fuel a b' r) (λ b'. some (a, b'))

  pub to_initiator : ℕ → Negotiation → Negotiation → Message → Option Sides
  to_initiator zero a b m = none
  to_initiator (suc fuel) a b m =
      deliver (message m a) (λ a' r. to_responder fuel a' b r) (λ a'. some (a', b))

-- `initiate` at the first side, then message by message.
abbrev begin :
    Outcome (HandshakeError Unit) Message × Negotiation
    → (Negotiation → Message → Option Sides)
    → Option Sides
begin (ok m, n) onward = onward n m
begin (err e, n) onward = none
begin (panic, n) onward = none
begin (pending, n) onward = none

unfoldable pub exchange : ℕ → Negotiation → Negotiation → Option Sides
exchange fuel a b = begin (initiate a) (λ a' m. to_responder fuel a' b m)
