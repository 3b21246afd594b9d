-- ===== src/Negotiation/Defs.antt =====
-- The record `Negotiation` of efcp/src/negotiation.rs and its methods.
use efcp.Prelude.{
  ℕ, ◌+◌, Bool, true, false, List, Option, none, some, ltb, if◌then◌else◌, get_elem?,
}
use efcp.Outcome.{Outcome, ok, err, panic, pending, ◌>>◌, assert, usize_mod}
use efcp.Outcome.Exec.{Exec}
use efcp.Text.{Str, find}
use efcp.HandshakeError.{HandshakeError, protocol_error}
use efcp.Negotiation.Message.{Message}

pub record Negotiation : Type 0 where
  pub protocols : List Str
  pub tried : ℕ
  pub started : Bool
  pub proposed : Option Str
  pub accepted : Option Str
  pub finished : Bool

unfoldable pub new : List Str → Negotiation
new protocols = record {
  protocols = protocols;
  tried = 0;
  started = false;
  proposed = none;
  accepted = none;
  finished = false;
}

module _ {R : Type 0} where
  -- The `if let Some(protocol) = self.protocols.get(i)` of `propose`.
  proposal : Option Str → Exec Negotiation (HandshakeError R) Message
  proposal (some protocol) n =
      (ok (Message.propose protocol), record n { proposed = some protocol })
  proposal none n = (ok Message.fail, record n { finished = true })

  unfoldable pub propose : Exec Negotiation (HandshakeError R) Message
  unfolding proposal
  propose n =
      if ltb (n.tried + 1) usize_mod
      then proposal (get_elem? n.protocols n.tried) (record n { tried = n.tried + 1 })
      else (panic, n)

  unfoldable pub initiate : Exec Negotiation (HandshakeError R) Message
  unfolding propose
  initiate n = if n.started then (panic, n) else propose (record n { started = true })

  -- `Ok(Some(self.propose()))`
  reply :
      Outcome (HandshakeError R) Message × Negotiation
      → Outcome (HandshakeError R) (Option Message) × Negotiation
  reply (ok m, n) = (ok (some m), n)
  reply (err e, n) = (err e, n)
  reply (panic, n) = (panic, n)
  reply (pending, n) = (pending, n)

  -- The rest of the `Propose` arm, once `self.accepted` has been assigned.
  answer : Option Str → Exec Negotiation (HandshakeError R) (Option Message)
  unfolding propose reply
  answer (some protocol) n =
      (ok (some Message.accept), record n { accepted = some protocol; finished = true })
  answer none n = reply (propose (record n { accepted = none }))

  -- The `Propose` arm: a second proposal after one was accepted is an error.
  on_propose : Str → Option Str → Exec Negotiation (HandshakeError R) (Option Message)
  unfolding answer
  on_propose protocol (some _) n = (err protocol_error, n)
  on_propose protocol none n = answer (find n.protocols protocol) n

  unfoldable pub message : Message → Exec Negotiation (HandshakeError R) (Option Message)
  unfolding on_propose
  message (Message.propose protocol) n =
      on_propose protocol n.accepted (record n { started = true })
  message Message.accept n = (
    ok none,
    record n { started = true; accepted = n.proposed; proposed = none; finished = true },
  )
  message Message.fail n = (ok none, record n { started = true; finished = true })

  unfoldable pub into_protocol : Negotiation → Outcome (HandshakeError R) (Option Str)
  into_protocol n = assert n.finished >> ok n.accepted

unfoldable pub is_finished : Negotiation → Bool
is_finished n = n.finished
