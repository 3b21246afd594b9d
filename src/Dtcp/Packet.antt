-- ===== src/Dtcp/Packet.antt =====
-- dtcp/src/packet.rs: a type byte and a 16-bit sequence number in front of the payload.
mod Defs
unfoldable pub use Defs.*
pub mod Layer
pub mod Fields
