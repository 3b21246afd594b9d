-- ===== src/Tests.antt =====
-- Concrete instances of the parameters, and the theorems applied at concrete inputs.
pub mod Instances
pub mod Crates
mod Handshake
mod Layers
mod Sockets
mod Secure
mod Sketch
mod Lossy
mod Stack
mod Driver
mod Hostile
mod Release
