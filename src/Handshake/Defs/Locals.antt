-- ===== src/Handshake/Defs/Locals.antt =====
-- What the futures of `initiator` and `responder` of efcp/src/lib.rs hold where they wait for a packet, and
-- the calls that they make on parts of it.
use efcp.Prelude.{Option, none, some}
use efcp.Outcome.{Outcome, ok, err, panic, pending}
use efcp.Outcome.Exec.{Exec}
use efcp.HandshakeError.{HandshakeError}
use efcp.Text.{Str}
use efcp.Addr.{Addr}
use efcp.Negotiation.{Negotiation, message}
use efcp.Negotiation.Message.{Message}
use efcp.HandshakePacket.{HandshakePacket, take_negotiate}

pub record EfcpChannel (K M : Type 0) : Type 0 where
  pub channel : M
  pub remote : K
  pub protocol : Str
  pub external_addr : Option Addr

-- The locals of the first loop, and those of the second.
pub record Shaking (S L : Type 0) : Type 0 where
  pub channel : L
  pub session : S
  pub negotiate : Negotiation
  pub external_addr : Option Addr

pub record Negotiating (K M : Type 0) : Type 0 where
  pub channel : M
  pub remote : K
  pub negotiate : Negotiation
  pub external_addr : Option Addr

pub data Task (S L K M : Type 0) : Type 0 where
  shaking : Shaking S L → Task S L K M
  negotiating : Negotiating K M → Task S L K M

pub data Turn (S L K M : Type 0) : Type 0 where
  wait : Task S L K M → Turn S L K M
  finish : EfcpChannel K M → Turn S L K M

-- A call on a part of the locals, its error converted by `?`.
abbrev pub run : {E F A S : Type 0} → (E → F) → Outcome E A × S → Outcome F (A × S)
run f (ok a, s) = ok (a, s)
run f (err e, s) = err (f e)
run f (panic, s) = panic
run f (pending, s) = pending

-- A call on a channel, which also changes the world, an error included.
abbrev pub on_channel :
    {E F A L W : Type 0} → (E → F) → Outcome E A × (L × W) → Outcome F (A × L) × W
on_channel f (ok a, (l, w)) = (ok (a, l), w)
on_channel f (err e, (l, w)) = (err (f e), w)
on_channel f (panic, (l, w)) = (panic, w)
on_channel f (pending, (l, w)) = (pending, w)

abbrev pub call : {E F A L W : Type 0} → (E → F) → Exec (L × W) E A → L → Exec W F (A × L)
call f m l w = on_channel f (m (l, w))

-- `msg.negotiate().as_ref().map(|msg| negotiate.message(msg)).unwrap_or(Ok(None))?`
unfoldable pub answer :
    {R : Type 0}
    → HandshakePacket
    → Negotiation
    → Outcome (HandshakeError R) (Option Message × Negotiation)
unfolding take_negotiate
answer msg n = elim (take_negotiate msg).0 [
  | none ↦ ok (none, n)
  | some m ↦ run (λ e. e) (message m n)
]
