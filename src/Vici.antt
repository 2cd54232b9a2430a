-- ===== src/Vici.antt =====
-- The client of charon's vici socket (crates/vici).
pub mod Result
pub mod Message
pub mod Codec
pub mod Packet
pub mod Client
mod Tests
