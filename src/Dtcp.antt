-- ===== src/Dtcp.antt =====
-- The crate dtcp: the packet format of dtcp/src/packet.rs, and the channel, its timers and its builder
-- of dtcp/src/lib.rs.
pub mod Packet
pub mod Timer
pub mod Channel
pub mod OverDtp
pub mod Builder
