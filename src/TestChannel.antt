-- ===== src/TestChannel.antt =====
-- test-channel/src/lib.rs: an unreliable channel for tests.
mod Defs
unfoldable pub use Defs.*
pub mod Runs
