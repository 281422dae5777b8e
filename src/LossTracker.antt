-- ===== src/LossTracker.antt =====
-- src/losstracker.rs: the bitmap of received blocks, and the loss scanner.
pub mod Bitmap
pub mod Heap
pub mod Scanner
mod Tests
