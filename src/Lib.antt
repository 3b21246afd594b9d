-- ===== src/Lib.antt =====
-- Verification of the EFCP-over-UDP workspace: addresses, packets, channels, and the protocols on them.
--
-- The program is a stack of channels. A `DtpSocket` (dtp/src/) sorts the datagrams of one UDP socket
-- into channels by peer address and channel byte. A `DtcpChannel` (dtcp/src/) wraps a channel: it puts
-- a type, a data run flag and a sequence number in front of each payload. The layers meet in the traits
-- of channel/src/lib.rs: `BasePacket` (a packet with room for the header of the layer above) and
-- `Channel`. On top, efcp/src/ shakes hands: both sides exchange `HandshakePacket`s that carry the
-- messages of a `Negotiation` over the application protocol and an external address, an `Addr` in its
-- text form (addr/src/lib.rs), and encrypt the packets from then on with a `DiscoChannel`.
--
-- Which file models what (paths from the repository's root):
--   Addr                 addr/src/lib.rs: `from_str`, `Display` as `to_string`, `ToAddr`
--   HandshakeError       efcp/src/error.rs
--   Negotiation          efcp/src/negotiation.rs, one function for each method, an arm of `message` each
--                        for `answer` and `on_propose`; two sides that talk are in Exchange
--   HandshakePacket      efcp/src/packet.rs: `from_bytes` reads the rest of the bytes in place of an index
--   Channel              channel/src/lib.rs: the traits as records, the macro `derive_packet!`, the plain
--                        buffer, `Loopback`; Header has what the packet layers share
--   Dtcp.Packet          dtcp/src/packet.rs
--   Dtcp.Timer, Builder, Channel   dtcp/src/lib.rs: `Timer`, `DtcpBuilder`, `DtcpChannel`; OverDtp has one over
--                        a dtp channel at both ends
--   Dtp.Packet           dtp/src/packet.rs
--   Dtp.Ecn, Dtp.Udp     dtp/src/platform/mod.rs and dtp/src/udp.rs over a kernel
--   Dtp.Socket           dtp/src/dtp.rs: `InnerDtpSocket`; Mux is the abstract state that it implements
--   Dtp.Handle           dtp/src/lib.rs: `DtpSocket`, `Incoming` and `DtpChannel` over the inner socket
--   Secure               efcp/src/secure.rs: `DiscoPacket` and `DiscoChannel`
--   Handshake            efcp/src/lib.rs: Defs has the futures `EfcpChannel::initiator` and `responder`, cut
--                        where they wait for a packet; Noise is the session that they shake hands with;
--                        Transport says what they ask of the channels below, Layers builds those of the
--                        program, Wire and Loop put them over the plain loopback; Exchange lets two futures
--                        take turns; Socket has `EfcpSocket`, `Dial` and `EfcpChannel`
--   TestChannel          test-channel/src/lib.rs: the lossy loopback, its builder and the pair of channels
--   Notes                notes/: Packet is packet.rs, Control is `Dtcp` of dtcp.rs with its three controls, Flow
--                        is `Dtp` of dtp.rs
-- Prelude, Outcome, Text and Bytes hold what the language and its standard library give: Boolean tests,
-- the ways in which a call ends (value, error, panic, pending), UTF-8, decimal numbers, slices.
--
-- How state is modelled. A method with `&mut self`, or on fields behind a mutex or an atomic, is a
-- function from the state to an outcome and the state left behind (Outcome.Exec), so that what was
-- written before an error stays written. A call runs by itself up to the point where it waits. A lower
-- channel is a record of two such functions. Integers are natural numbers with their wrap-around or
-- their overflow panic written out (the dev profile: an overflow panics, `debug_assert!` is on). The
-- clock is an argument. Maps and sets are functions.
--
-- Parameters, for code of other crates: the buffer of `bytes`, the integers of `byteorder`, the text
-- of IP addresses, `slab::Slab`, `crossbeam::queue::SegQueue`, and the session state and the
-- handshake of disco, each a record of operations with the laws that the program relies on, and `f64`
-- with its order. Tests has an implementation of each. The kernel's side of a UDP socket is a list of
-- what it will deliver and a list of its answers to sends. What a random source draws is an argument.
--
-- Fuel. The exchange of two negotiations takes a count of messages; 2 n + 3, with n the protocols of
-- the responder, is enough. Two futures of the handshake take 2 n + 5 turns at most. The loops of
-- `poll_incoming` and `poll_channel` take one unit a round, and return `none` where they would go on
-- behind the last one, which is none of the ways in which a call ends. They are started with one more
-- than the kernel has datagrams, since each round that goes on takes one off.
--
-- Not modelled: a handshake that resumes from a wait inside a send, where the model's run ends; the
-- system calls of dtp/src/platform/, which are the kernel's side; printing for debugging; and in
-- notes/, sketches that no build includes, the functions whose bodies are comments and
-- `Packet::into_payload`.
pub mod Prelude
pub mod Outcome
pub mod Text
pub mod HandshakeError
pub mod Negotiation
pub mod Addr
pub mod HandshakePacket
pub mod Handshake
pub mod Bytes
pub mod Channel
pub mod Dtcp
pub mod Dtp
pub mod Secure
pub mod TestChannel
pub mod Notes
pub mod Tests
