-- ===== src/Index.antt =====
-- crates/mlake-index: folding the log into segments.
pub mod Segments
pub mod Node
pub mod Fold
pub mod Compact
pub mod Reads
pub mod Gc
pub mod Summary
pub mod Table
pub mod Postings
pub mod Pk
pub mod Edges
pub mod Spill
