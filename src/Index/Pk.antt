-- ===== src/Index/Pk.antt =====
-- crates/mlake-index/src/sstable.rs: `PkTable`, the table from a memory's id to its cluster. A value
-- is a cluster number of 4 bytes.
pub mod Lookup
use memlake.Prelude.{ℕ, Bool, Option, List, ltb, map}
use memlake.Prelude.Bytes.{Bytes}
use memlake.Prelude.Words.{le_bytes, of_le_bytes}
use memlake.Prelude.Results.{map_some}
use memlake.Prelude.Sort.{sort_by}
use memlake.Index.Table.{Record, SsTableIndex, slice, build_table, get, get_many}
use memlake.Index.Postings.{block_target_bytes}

abbrev pub id_before : ℕ × ℕ → ℕ × ℕ → Bool
id_before a b = ltb a.0 b.0

-- the records that the loop adds
unfoldable pub pk_records : List (ℕ × ℕ) → List Record
pk_records entries = map (λ e. (e.0, le_bytes 4 e.1)) (sort_by id_before entries)

-- `PkTable::build`
unfoldable pub build_pk : List (ℕ × ℕ) → Bytes × Bytes
build_pk entries = build_table block_target_bytes (pk_records entries)

-- `u32::from_le_bytes([v[0], v[1], v[2], v[3]])`
abbrev pub cluster_of : Bytes → ℕ
cluster_of v = of_le_bytes (slice 0 4 v)

-- `PkTable::lookup`
unfoldable pub lookup_cluster : SsTableIndex → Bytes → ℕ → Option ℕ
lookup_cluster index data_bytes id = map_some cluster_of (get index data_bytes id)

unfoldable pub lookup_batch : SsTableIndex → Bytes → List ℕ → List (ℕ × ℕ)
lookup_batch index data_bytes ids = map (λ e. (e.0, cluster_of e.1)) (get_many index data_bytes ids)
