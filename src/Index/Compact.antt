-- ===== src/Index/Compact.antt =====
-- crates/mlake-index/src/indexer.rs: `minor_compact`, the newest segments and the tail merged into
-- one segment, and the rule that picks how many (`minor_run_len`), with the choice of `fold`.
pub mod Lost
pub mod Run
use memlake.Prelude.{
  ℕ, zero, suc, ◌+◌, Bool, true, false, not, ◌&&◌, ◌||◌, Option, none, some, List, [], ◌∷◌, ◌++◌,
  map, min, ltb, leb, ◌==◌, length, take, drop, retain, contains, is_empty, if◌then◌else◌,
}
use memlake.Prelude.Assoc.{Assoc, lookup, insert}
use memlake.Core.Memory.{MemoryId, StoredMemory, sort_ids}
use memlake.Core.Manifest.{Manifest, Segment}
use memlake.Core.Predicate.{Predicate}
use memlake.Wal.Tail.{TailScan, apply_pending, apply_patches}
use memlake.Index.Segments.{contains_key, seg_predicates, kill_map, collect, live_items}
use memlake.Index.Node.{QueryNode, get_many}
use memlake.Index.Fold.{values, keys, remove_ids, drop_killed, reupserts, ids_of, flush}

-- step (2), the loop over the tail's upserts
unfoldable pub insert_patched :
    TailScan → Assoc StoredMemory → Assoc StoredMemory → Assoc StoredMemory
insert_patched scan [] by_id = by_id
insert_patched scan ((id, item) ∷ upserts) by_id =
    insert_patched scan upserts
      (insert id (apply_pending (lookup id scan.pending_patches) item) by_id)

-- the merged segments and the tail, before the patches of ids that only a kept segment has
unfoldable pub compact_base : List Segment → TailScan → Assoc StoredMemory
unfolding insert_patched
compact_base merged scan =
    drop_killed scan.predicate_tombstones
      (insert_patched scan scan.upserts (remove_ids scan.tombstones (live_items merged)))

abbrev pub compact_touched : TailScan → List MemoryId
compact_touched scan = scan.tombstones ++ keys scan.upserts

unfoldable pub compact_patch_only : TailScan → Assoc StoredMemory → List MemoryId
compact_patch_only scan by_id =
    retain (λ id. not (contains (compact_touched scan) id) && not (contains_key id by_id))
      (keys scan.pending_patches)

-- `for mut item in node.get_many(&patch_only, true)`
unfoldable pub insert_got : TailScan → List StoredMemory → Assoc StoredMemory → Assoc StoredMemory
insert_got scan [] by_id = by_id
insert_got scan (item ∷ items) by_id =
    insert_got scan items (insert item.id (apply_patches scan item) by_id)

abbrev pub compact_got : List Segment → TailScan → QueryNode → List StoredMemory
compact_got merged scan node = get_many node (compact_patch_only scan (compact_base merged scan))

unfoldable pub compact_items : List Segment → TailScan → QueryNode → Assoc StoredMemory
unfolding compact_base compact_patch_only insert_got
compact_items merged scan node =
    insert_got scan (compact_got merged scan node) (compact_base merged scan)

unfoldable pub carried_superseded : List Segment → List MemoryId
carried_superseded [] = []
carried_superseded (seg ∷ segs) = seg.tombstones.superseded ++ carried_superseded segs

-- `merged_segs.iter().map(|s| s.seq_lo).min().unwrap_or(cursor + 1)`
unfoldable pub lowest_seq : ℕ → List Segment → ℕ
lowest_seq default [] = default
lowest_seq default (seg ∷ []) = seg.seq_lo
lowest_seq default (seg ∷ next ∷ segs) = min seg.seq_lo (lowest_seq default (next ∷ segs))

unfoldable pub compact_segment : Manifest → ℕ → TailScan → QueryNode → ℕ → Segment
unfolding compact_items carried_superseded lowest_seq
compact_segment manifest head scan node merge_len =
    let merged = take merge_len manifest.segments in
    let items = values (compact_items merged scan node) in
    let touched = compact_touched scan ++ ids_of (compact_got merged scan node) in
    record {
      level = 0;
      seq_lo = lowest_seq (manifest.wal_index_cursor + 1) merged;
      seq_hi = head;
      doc_count = length items;
      items = items;
      tombstones = record {
        superseded =
            sort_ids
              (carried_superseded merged ++ (scan.tombstones ++ reupserts node.segments touched));
        predicates = seg_predicates merged ++ scan.predicate_tombstones;
      };
    }

unfoldable pub minor_compact : Manifest → ℕ → TailScan → QueryNode → ℕ → Manifest
unfolding compact_segment
minor_compact manifest head scan node merge_len =
    if ltb merge_len 2 || ltb (length manifest.segments) merge_len
    then flush manifest head scan node
    else record manifest {
      version = manifest.version + 1;
      wal_index_cursor = head;
      wal_head = head;
      prev_wal_index_cursor = manifest.wal_index_cursor;
      prev_segments = manifest.segments;
      segments =
          compact_segment manifest head scan node merge_len ∷ drop merge_len manifest.segments;
    }

abbrev pub compact_fanout : ℕ
compact_fanout = 8

abbrev pub minor_compact_min_run : ℕ
minor_compact_min_run = 2

-- the loop of `minor_run_len`: the index, the sum of the newer counts and the best length so far
unfoldable pub run_from : ℕ → ℕ → Option ℕ → List ℕ → Option ℕ
run_from k cum best [] = best
run_from k cum best (dc ∷ counts) =
    run_from (suc k) (cum + dc) (if leb minor_compact_min_run k && leb cum dc then some k else best)
      counts

unfoldable pub minor_run_len : List ℕ → Option ℕ
unfolding run_from
minor_run_len doc_counts = run_from 0 0 none doc_counts

unfoldable pub minor_compact_prefix : List Segment → Option ℕ
unfolding minor_run_len
minor_compact_prefix segments = minor_run_len (map (λ s. s.doc_count) segments)

-- Which fold runs: `fold`, the in-memory and the streaming rebuild taken as one.
pub data FoldChoice : Type 0 where
  rebuild : FoldChoice
  minor : ℕ → FoldChoice
  flush_tail : FoldChoice

unfoldable pub choose_fold : List Segment → FoldChoice
unfolding minor_compact_prefix
choose_fold segments =
    if is_empty segments || leb compact_fanout (length segments)
    then rebuild
    else elim (minor_compact_prefix segments) [
      | some merge_len ↦ minor merge_len
      | none ↦ flush_tail
    ]
