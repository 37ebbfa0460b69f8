-- ===== src/Wire.antt =====
-- The messages of crates/wire.
pub mod Error
pub mod Framing
pub mod Bytes
pub mod Layout
pub mod Padding
pub mod Inbound
pub mod Outbound
