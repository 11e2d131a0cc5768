-- ===== src/Wal.antt =====
-- crates/mlake-wal: the write path, the tail scan and the namespace.
pub mod Tail
pub mod Namespace
pub mod Commit
pub mod Scan
pub mod Queue
