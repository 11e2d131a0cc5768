-- ===== src/Index/Fold.antt =====
-- crates/mlake-index/src/indexer.rs: `index` (the full rebuild), `flush` (a new level-0 segment for
-- the tail) and `minor_compact` (the newest segments and the tail merged into one). Each takes the
-- manifest, the head of the log and the scan of the slice up to it, and gives the manifest that it
-- publishes. The build of a fact type's files is not modelled: a segment has the items themselves.
pub mod Patched
pub mod Maps
pub mod Rebuild
pub mod Flush
pub mod History
pub mod Resolve
pub mod Settled
pub mod Deletes
use memlake.Prelude.{
  ℕ, ◌+◌, Bool, true, false, not, ◌&&◌, ◌||◌, Option, none, some, List, [], ◌∷◌, ◌++◌, map, leb,
  ◌==◌, retain, contains, length, take, drop, min, if◌then◌else◌,
}
use memlake.Prelude.Assoc.{Assoc, lookup, insert, remove, retain_values}
use memlake.Core.Memory.{MemoryId, StoredMemory, SemanticEdge, sort_ids}
use memlake.Core.Manifest.{Manifest, Segment, SegmentTombstones}
use memlake.Core.Predicate.{Predicate}
use memlake.Wal.Tail.{TailScan, apply_pending, apply_patches, killed_by}
use memlake.Index.Segments.{contains_key, seg_predicates, kill_map, collect, live_items}
use memlake.Index.Node.{QueryNode, get_many, in_segments}

-- `into_values()`
abbrev pub values {ℓ} : {V : Type ℓ} → Assoc V → List V
values m = map (λ e. e.1) m

abbrev pub keys {ℓ} : {V : Type ℓ} → Assoc V → List MemoryId
keys m = map (λ e. e.0) m

unfoldable pub remove_ids {ℓ} : {V : Type ℓ} → List MemoryId → Assoc V → Assoc V
remove_ids [] m = m
remove_ids (id ∷ ids) m = remove_ids ids (remove id m)

-- `for (id, item) in upserts { by_id.insert(id, item) }`
unfoldable pub insert_all : Assoc StoredMemory → Assoc StoredMemory → Assoc StoredMemory
insert_all [] by_id = by_id
insert_all ((id, item) ∷ upserts) by_id = insert_all upserts (insert id item by_id)

-- `for item in by_id.values_mut()`
unfoldable pub patch_values : TailScan → Assoc StoredMemory → Assoc StoredMemory
unfolding apply_patches
patch_values scan by_id = map (λ e. (e.0, apply_patches scan e.1)) by_id

abbrev pub drop_killed : List (ℕ × Predicate) → Assoc StoredMemory → Assoc StoredMemory
drop_killed predicates by_id = retain_values (λ m. not (killed_by predicates m)) by_id

-- the live set that `index` builds
unfoldable pub index_items : List Segment → TailScan → Assoc StoredMemory
unfolding live_items remove_ids insert_all patch_values killed_by
index_items segs scan = patch_values scan (
    drop_killed scan.predicate_tombstones
      (insert_all scan.upserts (remove_ids scan.tombstones (live_items segs))))

-- `item.semantic_out.retain(|e| live.contains(&e.target))`
unfoldable pub prune_links : List MemoryId → StoredMemory → StoredMemory
prune_links live m = record m {
  semantic_out = retain (λ (e : SemanticEdge). contains live e.target) m.semantic_out;
}

abbrev pub empty_overlay : SegmentTombstones
empty_overlay = record { superseded = []; predicates = [] }

abbrev pub ids_of : List StoredMemory → List MemoryId
ids_of items = map (λ m. m.id) items

unfoldable pub index : Manifest → ℕ → TailScan → Manifest
unfolding index_items prune_links
index manifest head scan =
    let items = values (index_items manifest.segments scan) in
    record manifest {
      version = manifest.version + 1;
      wal_index_cursor = head;
      wal_head = head;
      prev_wal_index_cursor = manifest.wal_index_cursor;
      prev_segments = manifest.segments;
      segments =
          record {
            level = 0;
            seq_lo = 0;
            seq_hi = head;
            doc_count = length items;
            items = map (prune_links (ids_of items)) items;
            tombstones = empty_overlay;
          }
          ∷ [];
    }

-- the slice's own items, with the patches that wait for them
unfoldable pub patched_upserts : TailScan → Assoc StoredMemory → List StoredMemory
patched_upserts scan [] = []
patched_upserts scan ((id, item) ∷ rest) =
    apply_pending (lookup id scan.pending_patches) item ∷ patched_upserts scan rest

-- the ids that are only patched in the slice
unfoldable pub patch_only : TailScan → List MemoryId
patch_only scan = retain (λ id. not (contains (keys scan.upserts) id)) (keys scan.pending_patches)

unfoldable pub flush_items : TailScan → QueryNode → List StoredMemory
unfolding patched_upserts patch_only get_many apply_patches
flush_items scan node =
    patched_upserts scan scan.upserts ++ map (apply_patches scan) (get_many node (patch_only scan))

-- the ids of the new items that some segment has a copy of
unfoldable pub reupserts : List Segment → List MemoryId → List MemoryId
unfolding in_segments
reupserts segs ids = retain (λ id. in_segments segs id) ids

unfoldable pub flush_overlay : List Segment → TailScan → List StoredMemory → SegmentTombstones
unfolding reupserts sort_ids
flush_overlay segs scan items = record {
  superseded = sort_ids (scan.tombstones ++ reupserts segs (ids_of items));
  predicates = scan.predicate_tombstones;
}

unfoldable pub flush_segment : Manifest → ℕ → TailScan → QueryNode → Segment
unfolding flush_items flush_overlay
flush_segment manifest head scan node = record {
  level = 0;
  seq_lo = manifest.wal_index_cursor + 1;
  seq_hi = head;
  doc_count = length (flush_items scan node);
  items = flush_items scan node;
  tombstones = flush_overlay node.segments scan (flush_items scan node);
}

-- With nothing past the cursor, nothing is published.
unfoldable pub flush : Manifest → ℕ → TailScan → QueryNode → Manifest
unfolding flush_segment
flush manifest head scan node =
    if leb head manifest.wal_index_cursor then manifest else record manifest {
      version = manifest.version + 1;
      wal_index_cursor = head;
      wal_head = head;
      prev_wal_index_cursor = manifest.wal_index_cursor;
      prev_segments = [];
      segments = flush_segment manifest head scan node ∷ manifest.segments;
    }
