-- ===== src/Crypto.antt =====
-- src/crypto.rs: the sealed payloads of the data plane, and the negotiation of the cipher.
pub mod Payload
pub mod Negotiate
pub mod Tests
