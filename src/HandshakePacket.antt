-- ===== src/HandshakePacket.antt =====
-- efcp/src/packet.rs: the packets of the handshake, their bytes and their parser. The proofs stand in
-- the modules below.
mod Defs
unfoldable pub use Defs.*
pub mod RoundTrip
pub mod Total
