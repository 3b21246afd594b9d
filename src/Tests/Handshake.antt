-- ===== src/Tests/Handshake.antt =====
-- Addresses, the negotiation and the handshake packet at concrete inputs.
use efcp.Prelude.{
  ℕ, ◌≡◌, refl, inl, ◌⊎◌, true, false, List, [], ◌∷◌, ◌++◌, Option, none, some, arith, replicate,
}
use efcp.Outcome.{ok, err}
use efcp.Outcome.Ensures.{Ensures}
use efcp.Text.{Str, contains, str_eq, decimal, is_utf8}
use efcp.Addr.{Addr, v4, v6, ip4, udp, from_str, to_string}
use efcp.Text.{split}
use efcp.Addr.RoundTrip.{from_str-to_string}
use efcp.Addr.Total.{Spells, from_str-Ensures}
use efcp.HandshakeError.{protocol_error}
use efcp.Negotiation.{Negotiation, new, message, into_protocol}
use efcp.Negotiation.Message.{Message}
use efcp.Negotiation.Exchange.{Sides, exchange}
use efcp.Negotiation.Choice.{choice}
use efcp.Negotiation.Agreement.{Settled, exchange-Settles}
use efcp.Negotiation.Invariant.{IsValid, message-IsValid, message_total, stray_accept, IsSettled}
use efcp.HandshakePacket.{HandshakePacket, from_bytes, to_bytes, invalid}
use efcp.HandshakePacket.RoundTrip.{IsPacket, IsText, from_bytes-to_bytes, to_bytes_too_long}
use efcp.HandshakePacket.Total.{Returns, from_bytes-Returns}
use efcp.Tests.Instances.{letters, digits}

abbrev tcp : Str
tcp = b't' ∷ b'c' ∷ b'p' ∷ []

abbrev ssh : Str
ssh = b's' ∷ b's' ∷ b'h' ∷ []

abbrev localhost : Addr
localhost = record { ip = v4 0x7f000001; port = 8000 }

abbrev wide : Addr
wide = record { ip = v6 1; port = 53 }

from_str-to_string_example : from_str letters (to_string letters wide) ≡ ok wide
from_str-to_string_example =
    from_str-to_string letters wide (record { ip_fits = omega arith; port_fits = omega arith })

-- `/ip4/../udp`, whose last part is missing.
abbrev cut_text : Str
cut_text = b'/' ∷ ip4 ++ b'/' ∷ b'a' ∷ b'/' ∷ udp

from_str-Ensures_example :
    Ensures
      (λ e. Unit {0})
      (λ a.
        (front : Str) × (parts : List Str) × (split b'/' cut_text ≡ front ∷ parts)
        × Spells letters parts a)
      (from_str letters cut_text)
from_str-Ensures_example = from_str-Ensures letters cut_text

exchange-Settles_example :
    (n : Sides) × (exchange 9 (new (tcp ∷ ssh ∷ [])) (new (ssh ∷ [])) ≡ some n)
    × Settled (choice (tcp ∷ ssh ∷ []) (ssh ∷ [])) n
exchange-Settles_example =
    exchange-Settles 9 (tcp ∷ ssh ∷ []) (ssh ∷ []) (omega arith) (omega arith) (omega arith)

-- A responder that has proposed its own `ssh`.
abbrev answering : Negotiation
answering = record {
  protocols = ssh ∷ [];
  tried = 1;
  started = true;
  proposed = some ssh;
  accepted = none;
  finished = false;
}

answering-IsValid : IsValid (ssh ∷ []) answering
unfolding contains str_eq
answering-IsValid = record { own = refl; proposed_own = refl; accepted_own = tt }

message-IsValid_example : IsValid (ssh ∷ []) (message {R = Unit} Message.accept answering).1
message-IsValid_example = message-IsValid (ssh ∷ []) Message.accept answering answering-IsValid

abbrev settled : Negotiation
settled = record answering { accepted = some ssh; finished = true }

message_total_example :
    (((p : Str) × (Message.propose tcp ≡ Message.propose p) × IsSettled settled.accepted)
      × (message {R = Unit} (Message.propose tcp) settled
          ≡ (err protocol_error, record settled { started = true })))
    ⊎ ((¬ ((p : Str) × (Message.propose tcp ≡ Message.propose p) × IsSettled settled.accepted))
        × ((r : Option Message) × ((message {R = Unit} (Message.propose tcp) settled).0 ≡ ok r)))
message_total_example = message_total (Message.propose tcp) settled (omega arith)

stray_accept_example :
    let taken = (message {R = Unit} (Message.propose ssh) (new (ssh ∷ []))).1 in
    let after = (message {R = Unit} Message.accept taken).1 in
    (into_protocol {R = Unit} taken ≡ ok (some ssh)) × (into_protocol {R = Unit} after ≡ ok none)
unfolding new contains str_eq
stray_accept_example = stray_accept (new (ssh ∷ [])) ssh refl refl refl

abbrev proposal : HandshakePacket
proposal = record { negotiate = some (Message.propose tcp); external_addr = some localhost }

proposal-IsPacket : IsPacket letters proposal
unfolding to_string letters digits decimal is_utf8
proposal-IsPacket = record {
  text = (refl, omega arith);
  addr = (record { ip_fits = omega arith; port_fits = omega arith }, omega arith);
}

from_bytes-to_bytes_example :
    (bs : List ℕ) × (to_bytes letters proposal ≡ ok bs)
    × ((tail : List ℕ) → from_bytes letters (bs ++ tail) ≡ ok proposal)
from_bytes-to_bytes_example = from_bytes-to_bytes letters proposal proposal-IsPacket

from_bytes-Returns_example : Returns (λ p. IsText p.negotiate) (from_bytes letters (1 ∷ 3 ∷ 7 ∷ []))
from_bytes-Returns_example =
    from_bytes-Returns letters (1 ∷ 3 ∷ 7 ∷ []) (omega arith, (omega arith, (omega arith, tt)))

-- A name of 256 letters.
abbrev long : Str
long = replicate 256 b'a'

to_bytes_too_long_example :
    to_bytes letters (record { negotiate = some (Message.propose long); external_addr = none })
    ≡ err invalid
to_bytes_too_long_example =
    to_bytes_too_long letters
      (record { negotiate = some (Message.propose long); external_addr = none }) long localhost
      (inl (refl, omega arith))
