-- ===== src/Dtcp/Channel.antt =====
-- `DtcpChannel` of dtcp/src/lib.rs: the state machine that numbers the packets and sets the data run
-- flag. The atomics and the mutexes are fields of the state; each call runs by itself up to the point
-- where it waits for the lower channel.
mod Defs
unfoldable pub use Defs.*
pub mod Send
pub mod Runs
pub mod Wire
