-- ===== src/Tests/Release.antt =====
-- A dialer whose first proposal does not fit a packet.
use efcp.Prelude.{ℕ, ◌≡◌, refl, [], ◌∷◌, replicate}
use efcp.Outcome.{ok}
use efcp.HandshakePacket.{to_bytes}
use efcp.HandshakePacket
use efcp.Negotiation.{initiate}
use efcp.Negotiation
use efcp.Text.{Str}
use efcp.Addr.{v4}
use efcp.Dtcp.Builder.{build_channel}
use efcp.Dtcp.Builder
use efcp.Dtp.Socket.{Channel, InnerDtpSocket, bind, outgoing, close, connection_id, discard, forget}
use efcp.Dtp.Handle
use efcp.Handshake.{initiator, initiator_shakes, write_shaking}
use efcp.Handshake.Layers.{efcp_stack, build}
use efcp.Handshake.Socket.{owning, on_dtp, dial}
use efcp.Handshake.Release.{dialer, handshake, begin, go_on, outgoing-handshake}
use efcp.Tests.Instances.{letters, big_endian}
use efcp.Tests.Crates.{crates}
use efcp.Tests.Driver.{clear}

abbrev home : InnerDtpSocket crates
home = bind crates (record { inbox = []; answers = []; outbox = []; ttl = 64; local = (v4 2, 54) })

abbrev key : Channel
key = record { peer_addr = record { ip = v4 1; port = 53 }; channel_id = 3 }

abbrev long : Str
long = replicate 256 b'a'

abbrev same_clock : ℕ → ℕ
same_clock n = n

outgoing-handshake_example :
    (outgoing crates key.peer_addr key.channel_id
      (handshake letters clear crates same_clock big_endian 5
        (long ∷ [])
        0
        (dialer 6)
        key
        []
        home).1).0
    ≡ ok key
unfolding handshake begin go_on dial on_dtp outgoing owning initiator initiator_shakes write_shaking
    to_bytes HandshakePacket.new efcp_stack build build_channel Builder.new initiate Negotiation.new
    Handle.drop close connection_id discard forget bind
outgoing-handshake_example =
    outgoing-handshake letters clear crates same_clock big_endian 5 (long ∷ []) 0 (dialer 6) key []
      home refl tt
