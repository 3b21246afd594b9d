-- ===== src/Dtp/Socket.antt =====
-- dtp/src/dtp.rs and dtp/src/lib.rs: the socket that sorts datagrams into channels.
pub mod Key
mod Datagram
mod Defs
pub use Key.{Channel}
unfoldable pub use Key.{chan_eq}
unfoldable pub use Datagram.*
unfoldable pub use Defs.*
pub mod Mux
pub mod Simulation
pub mod Keys
pub mod Steps
pub mod Refinement
pub mod Streams
pub mod Fuel
pub mod Promises
pub mod Closing
pub mod Lifecycle
pub mod Wire
