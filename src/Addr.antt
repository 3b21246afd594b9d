-- ===== src/Addr.antt =====
-- addr/src/lib.rs: socket addresses and their text form, `/ip4/<ip>/udp/<port>`.
pub mod Ip
mod Defs
pub use Ip.*
unfoldable pub use Defs.*
pub mod RoundTrip
pub mod Total
