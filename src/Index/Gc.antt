-- ===== src/Index/Gc.antt =====
-- crates/mlake-index/src/gc.rs: the part of `gc_with_min_age` that reclaims the log. `aged` says of
-- which entries the age is past the floor. The part that reclaims segment files is in
-- Files.
pub mod Readers
pub mod Files
pub mod Named
pub mod Kept
use memlake.Prelude.{ℕ, Bool, not, ◌&&◌, ◌||◌, Option, none, some, List, ltb, retain}
use memlake.Prelude.Assoc.{Assoc}
use memlake.Core.Wal.{Op}
use memlake.Core.Manifest.{Manifest}
use memlake.Wal.Namespace.{Store}

abbrev pub keeps_entry : (ℕ → Bool) → ℕ → ℕ → Bool
keeps_entry aged wal_keep_above seq = ltb wal_keep_above seq || not (aged seq)

unfoldable pub keep_entries : (ℕ → Bool) → ℕ → Assoc (List Op) → Assoc (List Op)
keep_entries aged wal_keep_above wal = retain (λ e. keeps_entry aged wal_keep_above e.0) wal

-- With no manifest, nothing is reclaimed: reading it fails first.
unfoldable pub gc_wal : (ℕ → Bool) → Store → Store
unfolding keep_entries
gc_wal aged s = elim s.manifest [
  | none ↦ s
  | some m ↦ record s { wal = keep_entries aged m.prev_wal_index_cursor s.wal }
]
