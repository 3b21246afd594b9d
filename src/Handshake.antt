-- ===== src/Handshake.antt =====
-- efcp/src/lib.rs: the handshake of a dialer and a listener, and the socket and the channel that it makes.
pub mod Noise
pub mod Transport
mod Defs
unfoldable pub use Defs.*
pub mod Exchange
pub mod Replies
pub mod Passing
pub mod Steps
pub mod Talk
pub mod Counter
pub mod Onward
pub mod Opening
pub mod Opened
pub mod Outcomes
pub mod Agreement
pub mod Sound
pub mod Sides
pub mod Safe
pub mod Layers
pub mod Stacking
pub mod Wire
pub mod Loop
pub mod Socket
pub mod Release
