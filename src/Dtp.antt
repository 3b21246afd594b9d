-- ===== src/Dtp.antt =====
-- The crate dtp: the packet of dtp/src/packet.rs, the UDP socket with congestion marks of dtp/src/udp.rs
-- and dtp/src/platform/, and the multiplexing socket of dtp/src/dtp.rs and dtp/src/lib.rs.
pub mod Packet
pub mod Ecn
pub mod Udp
pub mod Queues
pub mod Socket
pub mod Handle
