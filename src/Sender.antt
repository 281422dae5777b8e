-- ===== src/Sender.antt =====
-- src/sender.rs: the sending data plane.
pub mod Pdu
pub mod Queue
pub mod Control
pub mod Setup
pub mod Pacing
pub mod Peer
pub mod Prefetch
mod Tests
