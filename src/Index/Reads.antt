-- ===== src/Index/Reads.antt =====
-- A point read of a query node against the sequential meaning of the log.
use memlake.Prelude.{
  ◌≡◌, sym, ap, ◌∙◌, true, false, none, some, List, arith, contains, if◌then◌else◌,
}
use memlake.Prelude.Assoc.{lookup}
use memlake.Core.Memory.{MemoryId, StoredMemory, or_else}
use memlake.Core.Manifest.{Manifest}
use memlake.Core.Wal.{Delta, WalEntry, apply_deltas}
use memlake.Wal.Tail.{fold_entries}
use memlake.Wal.Tail.Replay.{replay, no_wheres}
use memlake.Index.Node.{open_node, get_one}
use memlake.Index.Fold.Flush.{
  live_view, live_view-head, flush_get, scan_view, scan-IsTidy, IsWellFormed,
}

module _ (m : Manifest) (es : List WalEntry) (j : MemoryId) (wf : IsWellFormed m)
    (plain : no_wheres es ≡ true) where
  get_one-copies : get_one (open_node m.segments (fold_entries es)) j ≡ (
      if contains (fold_entries es).tombstones j
      then none
      else or_else (lookup j (fold_entries es).upserts) (live_view m.segments j))
  get_one-copies =
      flush_get m.segments es j plain wf.none_left wf.sharp
      ∙ ap
          (λ o.
            if contains (fold_entries es).tombstones j
            then none
            else or_else (lookup j (fold_entries es).upserts) o)
          (sym (live_view-head m.segments j wf.none_left))

  -- A node opens a well-formed manifest with a tail without predicate deletes. At an id for which
  -- no patch of the tail waits, a point read gives the replay of the tail over what the segments
  -- hold live.
  pub get_one-eq-replay :
      lookup j (fold_entries es).pending_patches ≡ none
      → get_one (open_node m.segments (fold_entries es)) j ≡ replay j (live_view m.segments j) es
  get_one-eq-replay calm =
      get_one-copies
      ∙ ground (arith, calm, scan-IsTidy es j, scan_view es j (live_view m.segments j) plain)

  -- A node opens a well-formed manifest with a tail without predicate deletes. At an id that the
  -- segments hold live, and that the tail patches but neither writes nor deletes, a point read
  -- gives the old memory, where the replay of the tail has the patched one.
  pub get_one_before_patch :
      (old : StoredMemory) (deltas : List Delta)
      → live_view m.segments j ≡ some old
      → lookup j (fold_entries es).upserts ≡ none
      → contains (fold_entries es).tombstones j ≡ false
      → lookup j (fold_entries es).pending_patches ≡ some deltas
      → (get_one (open_node m.segments (fold_entries es)) j ≡ some old)
        × (replay j (live_view m.segments j) es ≡ some (apply_deltas old deltas))
  get_one_before_patch old deltas live up dead pending = (
    get_one-copies ∙ ground (arith, live, up, dead),
    sym (scan_view es j (live_view m.segments j) plain) ∙ ground (arith, live, up, dead, pending),
  )
