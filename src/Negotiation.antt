-- ===== src/Negotiation.antt =====
-- efcp/src/negotiation.rs: the state of one side of the generic protocol negotiation, and its methods.
-- The proofs stand in the modules below.
pub mod Message
mod Defs
unfoldable pub use Defs.*
pub mod Invariant
pub mod Exchange
pub mod Choice
pub mod Agreement
