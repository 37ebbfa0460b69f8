-- ===== src/Collections.antt =====
-- The collections of Rust's standard library that the program uses, as far as it uses them.
pub mod BTreeMap
pub mod BTreeSet
pub mod HashMap
