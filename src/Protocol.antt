-- ===== src/Protocol.antt =====
-- src/protocol.rs: the wire format and the number of blocks. A byte is a number below 256, and a
-- buffer is a list of bytes.
pub mod Bytes
pub mod Data
pub mod Feedback
pub mod Marks
pub mod Blocks
mod Tests
