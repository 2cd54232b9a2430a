-- ===== src/Ike.antt =====
-- The native IKEv2 client (crates/ikev2).
pub mod Result
pub mod Bytes
pub mod Proposal
pub mod Payload
pub mod Selector
pub mod Header
pub mod KeySchedule
pub mod Session
pub mod Packet
pub mod Reassembler
pub mod Replay
pub mod Cipher
pub mod Esp
pub mod Encrypted
pub mod Eap
pub mod Choice
