-- ===== src/Tests.antt =====
-- Runs of the model at concrete inputs, and the theorems at concrete inputs.
pub mod Fifo
pub mod Runs
pub mod Books
pub mod Changes
pub mod Accounts
pub mod Sessions
pub mod Counters
pub mod Bytes
pub mod Reports
pub mod Snapshots
pub mod Packed
pub mod Frames
pub mod Payloads
