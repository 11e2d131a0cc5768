-- ===== src/Index/Compact/Lost.antt =====
-- The items of a minor compaction at one id, and what becomes of a patch.
use memlake.Prelude.{
  ℕ, ◌≡◌, refl, sym, ap, ◌∙◌, true, false, not, ◌&&◌, none, some, List, [], ◌∷◌, arith, take,
  contains, if◌then◌else◌, inl, inr, Option-cases,
}
use memlake.Prelude.Results.{map_some}
use memlake.Prelude.Assoc.{Assoc, lookup, insert, keep_if, lookup-insert, lookup-retain_values}
use memlake.Core.Memory.{MemoryId, StoredMemory, or_else}
use memlake.Core.Manifest.{Manifest, Segment}
use memlake.Core.Wal.{Delta, WalEntry, apply_deltas}
use memlake.Wal.Tail.{TailScan, apply_pending, apply_patches, killed_by, fold_entries}
use memlake.Wal.Tail.Shape.{IsMap, fold_entries-IsShaped}
use memlake.Wal.Tail.Replay.{replay, no_wheres}
use memlake.Index.Segments.{contains_key, live_items}
use memlake.Index.Node.{QueryNode, open_node, get_one, get_many}
use memlake.Index.Fold.{keys, remove_ids}
use memlake.Index.Fold.Patched.{is_there, AnswersIds, contains-keys_iff, contains-retain}
use memlake.Index.Fold.Flush.{
  live_view, flush_answers, scan_view, scan-IsTidy, keep_all, scan_predicates-none, IsWellFormed,
}
use memlake.Index.Fold.Maps.{lookup-remove_ids}
use memlake.Index.Compact.{
  insert_patched, compact_base, compact_touched, compact_patch_only, insert_got, compact_items,
}

lookup-insert_patched :
    (scan : TailScan) (ups by_id : Assoc StoredMemory) (j : MemoryId)
    → IsMap ups
    → lookup j (insert_patched scan ups by_id)
      ≡ or_else
          (map_some (apply_pending (lookup j scan.pending_patches)) (lookup j ups))
          (lookup j by_id)
unfolding insert_patched lookup
lookup-insert_patched scan [] by_id j h = refl
lookup-insert_patched scan ((i, v) ∷ ups) by_id j h =
    let item = apply_pending (lookup i scan.pending_patches) v in
    ground (
      arith,
      h.0,
      lookup-insert_patched scan ups (insert i item by_id) j h.1,
      lookup-insert i j item by_id,
    )

lookup-compact_base :
    (merged : List Segment) (es : List WalEntry) (j : MemoryId)
    → no_wheres es ≡ true
    → lookup j (compact_base merged (fold_entries es))
      ≡ or_else
          (map_some
            (apply_pending (lookup j (fold_entries es).pending_patches))
            (lookup j (fold_entries es).upserts))
          (if contains (fold_entries es).tombstones j then none else live_view merged j)
unfolding compact_base
lookup-compact_base merged es j plain =
    let scan = fold_entries es in
    let rest = remove_ids scan.tombstones (live_items merged) in
    lookup-retain_values _ j (insert_patched scan scan.upserts rest)
    ∙ ap
        (λ ps.
          keep_if (λ m. not (killed_by ps m)) (lookup j (insert_patched scan scan.upserts rest)))
        (scan_predicates-none es plain)
    ∙ keep_all (lookup j (insert_patched scan scan.upserts rest))
    ∙ lookup-insert_patched scan scan.upserts rest j (fold_entries-IsShaped es).upserts_map
    ∙ ap (or_else _) (lookup-remove_ids scan.tombstones (live_items merged) j)

-- Items of other ids leave the map alone at `j`.
lookup-insert_got :
    (scan : TailScan) (node : QueryNode) (ids : List MemoryId) (by_id : Assoc StoredMemory)
    (j : MemoryId)
    → AnswersIds node
    → contains ids j ≡ false
    → lookup j (insert_got scan (get_many node ids) by_id) ≡ lookup j by_id
unfolding insert_got get_many
lookup-insert_got scan node [] by_id j a h = refl
lookup-insert_got scan node (i ∷ ids) by_id j a h = elim (Option-cases (get_one node i)) [
  | inl miss ↦ ground (arith, miss, lookup-insert_got scan node ids by_id j a)
  | inr (m, hit) ↦ ground (
    arith,
    hit,
    a i m hit,
    lookup-insert_got scan node ids (insert m.id (apply_patches scan m) by_id) j a,
    lookup-insert m.id j (apply_patches scan m) by_id,
  )
]

contains-compact_patch_only :
    (scan : TailScan) (by_id : Assoc StoredMemory) (j : MemoryId)
    → contains (compact_patch_only scan by_id) j ≡ (
        is_there (lookup j scan.pending_patches)
        && (not (contains (compact_touched scan) j) && not (contains_key j by_id)))
unfolding compact_patch_only
contains-compact_patch_only scan by_id j =
    contains-retain (λ id. not (contains (compact_touched scan) id) && not (contains_key id by_id))
      (keys scan.pending_patches) j
    ∙ ap (λ b. b && (not (contains (compact_touched scan) j) && not (contains_key j by_id)))
        (contains-keys_iff scan.pending_patches j)

module _ (m : Manifest) (es : List WalEntry) (merge_len : ℕ) (j : MemoryId) (wf : IsWellFormed m)
    (plain : no_wheres es ≡ true) where
  -- `node` stands for the snapshot that the compaction opens, at the same head.
  compact_skips :
      contains
          (compact_patch_only
            (fold_entries es)
            (compact_base (take merge_len m.segments) (fold_entries es)))
          j
        ≡ false
      → lookup j (
          compact_items
            (take merge_len m.segments)
            (fold_entries es)
            (open_node m.segments (fold_entries es)))
        ≡ lookup j (compact_base (take merge_len m.segments) (fold_entries es))
  unfolding compact_items
  compact_skips h =
      lookup-insert_got (fold_entries es) (open_node m.segments (fold_entries es)) _ _ j
        (flush_answers m.segments es j plain wf.none_left wf.sharp) h

  -- A minor compaction of a well-formed manifest with a slice without predicate deletes: at an id
  -- for which no patch of the slice waits, its items are the replay of the slice over what the
  -- merged segments hold live.
  pub compact_items-eq-replay :
      lookup j (fold_entries es).pending_patches ≡ none
      → lookup j (
          compact_items
            (take merge_len m.segments)
            (fold_entries es)
            (open_node m.segments (fold_entries es)))
        ≡ replay j (live_view (take merge_len m.segments) j) es
  compact_items-eq-replay calm =
      let scan = fold_entries es in
      let merged = take merge_len m.segments in
      compact_skips
        (contains-compact_patch_only scan (compact_base merged scan) j ∙ ground (arith, calm))
      ∙ lookup-compact_base merged es j plain
      ∙ ground (arith, calm, scan-IsTidy es j, scan_view es j (live_view merged j) plain)

  -- A minor compaction of a well-formed manifest with a slice without predicate deletes: at an id
  -- that the merged segments hold live, and that the slice patches but neither writes nor
  -- deletes, its items have the old memory, where the replay of the slice has the patched one.
  pub minor_compact_loses_patch :
      (old : StoredMemory) (deltas : List Delta)
      → live_view (take merge_len m.segments) j ≡ some old
      → lookup j (fold_entries es).upserts ≡ none
      → contains (fold_entries es).tombstones j ≡ false
      → lookup j (fold_entries es).pending_patches ≡ some deltas
      → (lookup j (
            compact_items
              (take merge_len m.segments)
              (fold_entries es)
              (open_node m.segments (fold_entries es)))
          ≡ some old)
        × (replay j (live_view (take merge_len m.segments) j) es ≡ some (apply_deltas old deltas))
  minor_compact_loses_patch old deltas live up dead pending =
      let scan = fold_entries es in
      let merged = take merge_len m.segments in
      let base : lookup j (compact_base merged scan) ≡ some old =
        lookup-compact_base merged es j plain ∙ ground (arith, live, up, dead) in
      (
        compact_skips
              (contains-compact_patch_only scan (compact_base merged scan) j ∙ ground (arith, base))
            ∙ base,
        sym (scan_view es j (live_view merged j) plain) ∙ ground (arith, live, up, dead, pending),
      )
