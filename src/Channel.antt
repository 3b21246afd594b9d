-- ===== src/Channel.antt =====
-- channel/src/lib.rs: the traits that stack the layers on one another, and the loopback channel.
mod Traits
unfoldable pub use Traits.*
pub mod Header
pub mod Buffer
pub mod Loopback
pub mod Payload
