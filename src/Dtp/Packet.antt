-- ===== src/Dtp/Packet.antt =====
-- dtp/src/packet.rs: a channel byte in front of the payload, and the congestion mark beside the bytes.
mod Defs
unfoldable pub use Defs.*
pub mod Layer
