-- ===== src/Tests/Hostile.antt =====
-- The two futures of the handshake against peers that do not keep to it, over a bare list of messages.
use efcp.Prelude.{ℕ, ◌≡◌, refl, true, List, [], ◌∷◌, ◌++◌, none, some}
use efcp.Outcome.{Outcome, ok, panic, pending, IoError}
use efcp.Outcome.Leaves.{Leaves}
use efcp.Text.{Str, contains, str_eq}
use efcp.Addr.{Addr, v4}
use efcp.Negotiation.{Negotiation, new}
use efcp.Negotiation.Invariant.{IsValid}
use efcp.HandshakePacket.{from_bytes, read_negotiate, read_addr}
use efcp.HandshakePacket
use efcp.Handshake.Transport.{Stack, Transport}
use efcp.Handshake.{
  InTalk, InShake, shaking, negotiating, initiator_talks, responder_talks, responder_hears,
  read_talking, read_shaking, enter_transport, resume_initiator, resume_responder,
}
use efcp.Handshake.Sound.{SafeTurn}
use efcp.Handshake.Safe.{
  IsKnown, Anything, resume_initiator-Safe, resume_responder-Safe, silent_peer_panics,
  silent_dialer_panics,
}
use efcp.Tests.Instances.{letters}
use efcp.Tests.Driver.{clear}

abbrev pop : List (List ℕ) → Outcome IoError (List ℕ) × (Unit {0} × List (List ℕ))
pop [] = (pending, (tt, []))
pop (bs ∷ rest) = (ok bs, (tt, rest))

abbrev messages : Transport (Unit {0}) (List (List ℕ))
messages = record { send = λ bs (u, w). (ok tt, (u, w ++ bs ∷ [])); recv = λ (u, w). pop w }

abbrev bare : Stack ℕ (Unit {0}) (Unit {0}) (Unit {0}) (List (List ℕ))
bare = record { wrap = λ u. ok u; plain = messages; seal = λ u s. ok u; sealed = messages }

abbrev ssh : Str
ssh = b's' ∷ b's' ∷ b'h' ∷ []

abbrev asked : Negotiation
asked = record (new (ssh ∷ [])) { tried = 1; started = true; proposed = some ssh }

asked-IsValid : IsValid (ssh ∷ []) asked
unfolding new contains str_eq
asked-IsValid = record { own = refl; proposed_own = refl; accepted_own = tt }

abbrev seen : Addr
seen = record { ip = v4 5; port = 8000 }

abbrev talk : InTalk letters clear bare
talk = record { channel = tt; remote = 3; negotiate = asked; external_addr = some seen }

-- The dialer is told `Accept` over the encrypted channel.
resume_initiator-Safe_example :
    Leaves
      (SafeTurn (ssh ∷ []) letters clear bare IsKnown)
      (resume_initiator letters clear bare (negotiating talk) ((2 ∷ []) ∷ [])).0
resume_initiator-Safe_example =
    resume_initiator-Safe letters clear bare (ssh ∷ []) (negotiating talk) ((2 ∷ []) ∷ [])
      (asked-IsValid, (seen, refl))

abbrev listening : InShake letters clear bare
listening = record {
  channel = tt;
  session = (2, 4, some 3);
  negotiate = asked;
  external_addr = none;
}

-- The listener is told `Accept` in the last message of the session.
resume_responder-Safe_example :
    Leaves
      (SafeTurn (ssh ∷ []) letters clear bare (Anything letters clear bare (ssh ∷ [])))
      (resume_responder letters clear bare (shaking listening) ((3 ∷ 2 ∷ []) ∷ [])).0
resume_responder-Safe_example =
    resume_responder-Safe letters clear bare (ssh ∷ []) (shaking listening) ((3 ∷ 2 ∷ []) ∷ [])
      asked-IsValid

silence :
    read_talking letters clear bare talk ((0 ∷ []) ∷ [])
    ≡ (ok (HandshakePacket.new none none, talk), [])
unfolding read_talking from_bytes HandshakePacket.new
silence = refl

silent_peer_panics_example :
    ((initiator_talks letters clear bare talk ((0 ∷ []) ∷ [])).0 ≡ panic)
    × ((responder_talks letters clear bare talk ((0 ∷ []) ∷ [])).0 ≡ panic)
unfolding new
silent_peer_panics_example =
    silent_peer_panics letters clear bare talk talk none ((0 ∷ []) ∷ []) [] silence refl

abbrev heard : InShake letters clear bare
heard = record listening { session = (3, 4, some 3) }

silent_message :
    read_shaking letters clear bare listening ((3 ∷ 0 ∷ []) ∷ [])
    ≡ (ok (HandshakePacket.new none none, heard), [])
unfolding read_shaking from_bytes HandshakePacket.new
silent_message = refl

entered :
    enter_transport letters clear bare heard [] ≡ (ok (record talk { external_addr = none }), [])
unfolding enter_transport
entered = refl

silent_dialer_panics_example :
    (responder_hears letters clear bare listening ((3 ∷ 0 ∷ []) ∷ [])).0 ≡ panic
unfolding new
silent_dialer_panics_example =
    silent_dialer_panics letters clear bare listening heard (record talk { external_addr = none })
      none ((3 ∷ 0 ∷ []) ∷ []) [] silent_message refl entered refl
