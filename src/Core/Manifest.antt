-- ===== src/Core/Manifest.antt =====
-- crates/mlake-core/src/manifest.rs and tombstones.rs: the manifest, its segments and their delete
-- overlays. A segment has its items in the place of the paths of their files, and its overlay in the
-- place of the overlay's path; ids, hashes and indexed keys are left out.
use memlake.Prelude.{ℕ, ◌+◌, ◌-◌, Bool, List, [], ◌∷◌, is_empty, all}
use memlake.Core.Memory.{MemoryId, StoredMemory}
use memlake.Core.Predicate.{Predicate}

pub record SegmentTombstones : Type 0 where
  pub superseded : List MemoryId
  pub predicates : List (ℕ × Predicate)

pub record Segment : Type 0 where
  pub level : ℕ
  pub seq_lo : ℕ
  pub seq_hi : ℕ
  pub doc_count : ℕ
  pub items : List StoredMemory
  pub tombstones : SegmentTombstones

pub record Manifest : Type 0 where
  pub version : ℕ
  pub wal_index_cursor : ℕ
  pub wal_head : ℕ
  pub prev_wal_index_cursor : ℕ
  pub segments : List Segment
  pub prev_segments : List Segment

-- `Manifest::empty`
abbrev pub empty_manifest : Manifest
empty_manifest = record {
  version = 0;
  wal_index_cursor = 0;
  wal_head = 0;
  prev_wal_index_cursor = 0;
  segments = [];
  prev_segments = [];
}

unfoldable pub sum_doc_counts : List Segment → ℕ
sum_doc_counts [] = 0
sum_doc_counts (seg ∷ segs) = seg.doc_count + sum_doc_counts segs

unfoldable pub is_empty_manifest : Manifest → Bool
is_empty_manifest m = all (λ seg. is_empty seg.items) m.segments

-- `saturating_sub`
unfoldable pub index_lag : Manifest → ℕ
index_lag m = m.wal_head - m.wal_index_cursor
