-- ===== src/Handshake/Defs.antt =====
-- `EfcpChannel::initiator` and `EfcpChannel::responder` of efcp/src/lib.rs. Each is cut where it waits for
-- a packet: a `Task` is what the future holds there, and a call runs from one wait to the next, or
-- to the end. An iteration of a loop that waits again is a return of the task.
mod Locals
mod Io
mod Initiator
mod Responder
mod Poll
unfoldable pub use Locals.*
unfoldable pub use Io.*
unfoldable pub use Initiator.*
unfoldable pub use Responder.*
unfoldable pub use Poll.*
