-- ===== src/Core.antt =====
-- crates/mlake-core: the records, the log entries and the filters, with no I/O.
pub mod Tags
pub mod Memory
pub mod Predicate
pub mod Manifest
pub mod Names
pub mod Wal
