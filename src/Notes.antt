-- ===== src/Notes.antt =====
-- The sketches of notes/: the packet of delta-t, its flow control and its flow.
pub mod Packet
pub mod Control
pub mod Flow
pub mod Flags
pub mod Fields
pub mod Registering
pub mod Sending
pub mod Receiving
pub mod Runs
