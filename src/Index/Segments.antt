-- ===== src/Index/Segments.antt =====
-- Segments and what they hold live: the merge at the head of `index` and `minor_compact` in
-- crates/mlake-index/src/indexer.rs, and the overlay that `QueryNode` builds from the segments
-- (crates/mlake-index/src/query_node.rs). A segment stands with what its immutable files hold:
-- its items, in the order in which its fact types and clusters are read, and its delete overlay.
pub mod Live
pub mod Copies
use memlake.Prelude.{
  ℕ, Bool, true, false, not, ◌||◌, Option, none, some, List, [], ◌∷◌, ◌++◌, max, ltb, ◌==◌, retain,
  if◌then◌else◌,
}
use memlake.Prelude.Assoc.{Assoc, lookup, insert, retain_values}
use memlake.Core.Memory.{MemoryId, StoredMemory}
use memlake.Core.Manifest.{Segment, SegmentTombstones}
use memlake.Core.Predicate.{Predicate}
use memlake.Wal.Tail.{killed_by}

-- `let e = kill.entry(id).or_insert(0); *e = (*e).max(seg.seq_hi)`
abbrev pub raise_to : Option ℕ → ℕ → ℕ
raise_to none hi = max 0 hi
raise_to (some s) hi = max s hi

unfoldable pub kill_ids : ℕ → List MemoryId → Assoc ℕ → Assoc ℕ
kill_ids hi [] kill = kill
kill_ids hi (id ∷ ids) kill = kill_ids hi ids (insert id (raise_to (lookup id kill) hi) kill)

-- Which sequence kills the older copies of an id: `kill`, and `seg_superseded` of a query node.
unfoldable pub kill_from : List Segment → Assoc ℕ → Assoc ℕ
unfolding kill_ids
kill_from [] kill = kill
kill_from (seg ∷ segs) kill = kill_from segs (kill_ids seg.seq_hi seg.tombstones.superseded kill)

abbrev pub kill_map : List Segment → Assoc ℕ
kill_map segs = kill_from segs []

unfoldable pub seg_predicates : List Segment → List (ℕ × Predicate)
seg_predicates [] = []
seg_predicates (seg ∷ segs) = seg.tombstones.predicates ++ seg_predicates segs

-- `kill.get(&id).is_some_and(|&s| s > seg.seq_hi)`
unfoldable pub stale : Assoc ℕ → MemoryId → ℕ → Bool
stale kill id hi = elim (lookup id kill) [ none ↦ false | some s ↦ ltb hi s ]

abbrev pub contains_key {ℓ} : {V : Type ℓ} → MemoryId → Assoc V → Bool
contains_key id m = elim (lookup id m) [ none ↦ false | some v ↦ true ]

-- the loop over the items of one segment
unfoldable pub collect_items :
    Assoc ℕ → ℕ → List StoredMemory → Assoc StoredMemory → Assoc StoredMemory
collect_items kill hi [] by_id = by_id
collect_items kill hi (item ∷ items) by_id = collect_items kill hi items (
    if contains_key item.id by_id || stale kill item.id hi
    then by_id
    else insert item.id item by_id)

unfoldable pub collect : Assoc ℕ → List Segment → Assoc StoredMemory → Assoc StoredMemory
unfolding collect_items
collect kill [] by_id = by_id
collect kill (seg ∷ segs) by_id = collect kill segs (collect_items kill seg.seq_hi seg.items by_id)

-- The live set across segments, newest first, with their predicate deletes materialized.
unfoldable pub live_items : List Segment → Assoc StoredMemory
unfolding collect
live_items segs =
    retain_values (λ m. not (killed_by (seg_predicates segs) m)) (collect (kill_map segs) segs [])
