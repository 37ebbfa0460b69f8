-- ===== src/Matching.antt =====
-- crates/matching: the single-symbol order book.
pub mod Types
pub mod Queue
pub mod Level
pub mod Book
pub mod Resting
pub mod View
pub mod Consistency
pub mod Sweep
pub mod Ladder
pub mod Walk
pub mod Modify
