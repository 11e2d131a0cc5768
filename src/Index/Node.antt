-- ===== src/Index/Node.antt =====
-- crates/mlake-index/src/query_node.rs: the snapshot that a query node opens, and `get_many`.
pub mod Get
use memlake.Prelude.{
  ℕ, Bool, true, false, not, ◌||◌, Option, none, some, List, [], ◌∷◌, ◌++◌, map, ◌==◌, any, retain,
  contains, if◌then◌else◌,
}
use memlake.Prelude.Assoc.{Assoc, lookup, keep_if}
use memlake.Core.Memory.{MemoryId, StoredMemory, or_else, sort_ids}
use memlake.Core.Manifest.{Segment}
use memlake.Core.Predicate.{Predicate}
use memlake.Wal.Tail.{TailScan, killed_by}
use memlake.Index.Segments.{kill_map, seg_predicates, stale}

pub record QueryNode : Type 0 where
  pub segments : List Segment
  pub types : List ℕ
  pub tail_items : Assoc StoredMemory
  pub tombstones : List MemoryId
  pub seg_superseded : Assoc ℕ
  pub predicate_tombstones : List (ℕ × Predicate)

abbrev pub types_of : List StoredMemory → List ℕ
types_of items = map (λ m. m.memory_type) items

unfoldable pub segment_types : List Segment → List ℕ
segment_types [] = []
segment_types (seg ∷ segs) = types_of seg.items ++ segment_types segs

-- `open_with_reuse`, from the manifest's segments and the scan of the tail
unfoldable pub open_node : List Segment → TailScan → QueryNode
unfolding segment_types sort_ids seg_predicates
open_node segs scan = record {
  segments = segs;
  types = sort_ids (segment_types segs ++ map (λ e. e.1.memory_type) scan.upserts);
  tail_items = scan.upserts;
  tombstones = scan.tombstones;
  seg_superseded = kill_map segs;
  predicate_tombstones = scan.predicate_tombstones ++ seg_predicates segs;
}

unfoldable pub hidden : QueryNode → StoredMemory → Bool
unfolding killed_by
hidden node m = contains node.tombstones m.id || killed_by node.predicate_tombstones m

unfoldable pub superseded : QueryNode → MemoryId → ℕ → Bool
unfolding stale
superseded node id hi = contains node.tombstones id || stale node.seg_superseded id hi

-- The first copy of `id` in one fact type's part of a segment's items.
unfoldable pub find_item : MemoryId → ℕ → List StoredMemory → Option StoredMemory
find_item id ft [] = none
find_item id ft (m ∷ ms) =
    let rest = find_item id ft ms in
    if m.memory_type == ft then (if m.id == id then some m else rest) else rest

-- one fact type: its segments, newest first; what is found stays
unfoldable pub find_in_segments : QueryNode → MemoryId → ℕ → List Segment → Option StoredMemory
unfolding superseded find_item
find_in_segments node id ft [] = none
find_in_segments node id ft (seg ∷ segs) =
    or_else (if superseded node id seg.seq_hi then none else find_item id ft seg.items)
      (find_in_segments node id ft segs)

unfoldable pub find_in_types : QueryNode → MemoryId → List ℕ → Option StoredMemory
unfolding find_in_segments
find_in_types node id [] = none
find_in_types node id (ft ∷ fts) =
    or_else (find_in_segments node id ft node.segments) (find_in_types node id fts)

-- `get_many` at one of the ids that it is asked for
unfoldable pub get_one : QueryNode → MemoryId → Option StoredMemory
get_one node id =
    if contains node.tombstones id
    then none
    else keep_if (λ m. not (hidden node m))
        (or_else (lookup id node.tail_items) (find_in_types node id node.types))

unfoldable pub get_many : QueryNode → List MemoryId → List StoredMemory
unfolding get_one
get_many node [] = []
get_many node (id ∷ ids) = elim (get_one node id) [
  | none ↦ get_many node ids
  | some m ↦ m ∷ get_many node ids
]

-- `segment_ids` at one id: some segment's primary-key table has it
unfoldable pub in_segments : List Segment → MemoryId → Bool
in_segments segs id = any (λ seg. any (λ m. m.id == id) seg.items) segs
