-- ===== src/Secure.antt =====
-- efcp/src/secure.rs: the encryption layer.
mod Session
mod Packet
mod Defs
pub use Session.*
unfoldable pub use Packet.*
unfoldable pub use Defs.*
pub mod Raw
pub mod Layer
pub mod Wire
