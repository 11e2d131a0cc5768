-- ===== src/Index/Fold/Rebuild.antt =====
-- The full rebuild `index` against the sequential meaning of the log.
use mathlib.Core.List.{append-nil}
use memlake.Prelude.{
  ℕ, ◌≡◌, refl, ap, ◌∙◌, true, not, Option, none, List, [], ◌∷◌, map, arith, contains,
  if◌then◌else◌,
}
use memlake.Prelude.Results.{map_some}
use memlake.Prelude.Assoc.{Assoc, lookup, keep_if, lookup-retain_values}
use memlake.Core.Memory.{MemoryId, StoredMemory, or_else}
use memlake.Core.Manifest.{Manifest, Segment}
use memlake.Core.Wal.{WalEntry}
use memlake.Wal.Tail.{TailScan, apply_pending, apply_patches, killed_by, fold_entries}
use memlake.Wal.Tail.Shape.{IsMap, IsKeyed, fold_entries-IsShaped, id-lookup}
use memlake.Wal.Tail.Slot.{Slot, slot_of}
use memlake.Wal.Tail.Replay.{replay, slot_view, IsTidy, no_wheres}
use memlake.Index.Segments.{seg_predicates, live_items}
use memlake.Index.Segments.Live.{head?, copies_of, copies_above, live_copies, seg_level}
use memlake.Index.Fold.{
  values, ids_of, remove_ids, insert_all, drop_killed, index_items, prune_links, index,
}
use memlake.Index.Fold.Patched.{as_list, is_there}
use memlake.Index.Fold.Flush.{
  IsWellFormed, live_view, live_view-head, scan_view, scan-IsTidy, keep_all, scan_predicates-none,
  map_some-patches,
}
use memlake.Index.Fold.History.{length-as_list, head?-as_list}
use memlake.Index.Fold.Maps.{
  IsGood, lookup-remove_ids, lookup-insert_all, lookup-patch_values, remove_ids-IsGood,
  insert_all-IsGood, retain-IsGood, patch_values-IsGood, live_items-IsGood,
}

-- What the slice and the older copy of an id leave, before predicates and patches.
abbrev pub slice_copy : List Segment → TailScan → MemoryId → Option StoredMemory
slice_copy segs scan j =
    or_else (lookup j scan.upserts) (if contains scan.tombstones j then none else live_view segs j)

merged : List Segment → TailScan → Assoc StoredMemory
merged segs scan =
    drop_killed scan.predicate_tombstones
      (insert_all scan.upserts (remove_ids scan.tombstones (live_items segs)))

merged-IsGood :
    (segs : List Segment) (scan : TailScan) → IsKeyed scan.upserts → IsGood (merged segs scan)
unfolding merged
merged-IsGood segs scan k = retain-IsGood _ _ (
    insert_all-IsGood scan.upserts (remove_ids scan.tombstones (live_items segs)) k
      (remove_ids-IsGood scan.tombstones (live_items segs) (live_items-IsGood segs)))

lookup-merged :
    (segs : List Segment) (scan : TailScan) (j : MemoryId)
    → IsMap scan.upserts
    → lookup j (merged segs scan)
      ≡ keep_if (λ m. not (killed_by scan.predicate_tombstones m)) (slice_copy segs scan j)
unfolding merged
lookup-merged segs scan j h =
    lookup-retain_values _ j
      (insert_all scan.upserts (remove_ids scan.tombstones (live_items segs)))
    ∙ ap (keep_if _) (
        lookup-insert_all scan.upserts (remove_ids scan.tombstones (live_items segs)) j h
        ∙ ap (or_else (lookup j scan.upserts))
            (lookup-remove_ids scan.tombstones (live_items segs) j))

lookup-index_items_step :
    (segs : List Segment) (scan : TailScan) (j : MemoryId)
    → lookup j (index_items segs scan) ≡ map_some (apply_patches scan) (lookup j (merged segs scan))
unfolding index_items merged
lookup-index_items_step segs scan j = lookup-patch_values scan (merged segs scan) j

-- The live set of a rebuild at an id: the slice's copy or the older one, unless a predicate of the
-- slice kills it, with the patches that wait for it.
pub lookup-index_items :
    (segs : List Segment) (scan : TailScan) (j : MemoryId)
    → IsMap scan.upserts
    → IsKeyed scan.upserts
    → lookup j (index_items segs scan)
      ≡ map_some
          (apply_pending (lookup j scan.pending_patches))
          (keep_if (λ m. not (killed_by scan.predicate_tombstones m)) (slice_copy segs scan j))
lookup-index_items segs scan j h k =
    lookup-index_items_step segs scan j
    ∙ map_some-patches scan j (lookup j (merged segs scan))
        (λ m e. id-lookup j (merged segs scan) m (merged-IsGood segs scan k).1 e)
    ∙ ap (map_some (apply_pending (lookup j scan.pending_patches))) (lookup-merged segs scan j h)

pub index_items-IsGood :
    (segs : List Segment) (scan : TailScan) → IsKeyed scan.upserts → IsGood (index_items segs scan)
unfolding index_items merged
index_items-IsGood segs scan k =
    patch_values-IsGood scan (merged segs scan) (merged-IsGood segs scan k)

copies-values :
    (f : StoredMemory → StoredMemory) (m : Assoc StoredMemory) (j : MemoryId)
    → ((x : StoredMemory) → (f x).id ≡ x.id)
    → IsGood m
    → copies_of j (map f (values m)) ≡ as_list (map_some f (lookup j m))
unfolding lookup
copies-values f [] j same h = refl
copies-values f ((i, v) ∷ m) j same h =
    ground (arith, same v, h.0.0, h.1.0, copies-values f m j same (h.0.1, h.1.1))

id-prune_links : (live : List MemoryId) (m : StoredMemory) → (prune_links live m).id ≡ m.id
unfolding prune_links
id-prune_links live m = refl

-- The ids that are live after the rebuild.
abbrev pub rebuilt_ids : List Segment → List WalEntry → List MemoryId
rebuilt_ids segs es = ids_of (values (index_items segs (fold_entries es)))

live_copies-index :
    (m : Manifest) (head : ℕ) (es : List WalEntry) (j : MemoryId)
    → live_copies (index m head (fold_entries es)).segments j
      ≡ as_list (
          map_some
            (prune_links (rebuilt_ids m.segments es))
            (lookup j (index_items m.segments (fold_entries es))))
unfolding index copies_above seg_level
live_copies-index m head es j =
    let scan = fold_entries es in
    let live = prune_links (rebuilt_ids m.segments es) in
    let good = index_items-IsGood m.segments scan (fold_entries-IsShaped es).upserts_keyed in
    ground (
      arith,
      append-nil (copies_of j (map live (values (index_items m.segments scan)))),
      copies-values live (index_items m.segments scan) j
          (id-prune_links (rebuilt_ids m.segments es)) good,
    )

contains-values :
    (m : Assoc StoredMemory) (j : MemoryId)
    → IsKeyed m
    → contains (ids_of (values m)) j ≡ is_there (lookup j m)
unfolding lookup
contains-values [] j k = refl
contains-values ((i, v) ∷ m) j k = ground (arith, k.0, contains-values m j k.1)

pub contains-rebuilt_ids :
    (segs : List Segment) (es : List WalEntry) (j : MemoryId)
    → contains (rebuilt_ids segs es) j ≡ is_there (lookup j (index_items segs (fold_entries es)))
contains-rebuilt_ids segs es j =
    contains-values (index_items segs (fold_entries es)) j
      (index_items-IsGood segs (fold_entries es) (fold_entries-IsShaped es).upserts_keyed).1

slot_view-slice :
    (s : Slot) (base : Option StoredMemory)
    → IsTidy s
    → map_some (apply_pending s.pending) (or_else s.up (if s.dead then none else base))
      ≡ slot_view s base
slot_view-slice s base t = ground arith

-- Without predicate deletes the merged slice is the replay.
pub index_items-eq-replay :
    (segs : List Segment) (es : List WalEntry) (j : MemoryId)
    → no_wheres es ≡ true
    → lookup j (index_items segs (fold_entries es)) ≡ replay j (live_view segs j) es
index_items-eq-replay segs es j plain =
    let scan = fold_entries es in
    let shaped = fold_entries-IsShaped es in
    lookup-index_items segs scan j shaped.upserts_map shaped.upserts_keyed
    ∙ ap
        (λ ps.
          map_some (apply_pending (lookup j scan.pending_patches))
            (keep_if (λ m. not (killed_by ps m)) (slice_copy segs scan j)))
        (scan_predicates-none es plain)
    ∙ ap (map_some (apply_pending (lookup j scan.pending_patches)))
        (keep_all (slice_copy segs scan j))
    ∙ slot_view-slice (slot_of scan j) (live_view segs j) (scan-IsTidy es j)
    ∙ scan_view es j (live_view segs j) plain

seg_predicates-index :
    (m : Manifest) (head : ℕ) (es : List WalEntry)
    → seg_predicates (index m head (fold_entries es)).segments ≡ []
unfolding index seg_predicates
seg_predicates-index m head es = refl

-- The rebuilt segment holds, at every id, what the rebuild merged, its links pruned to live ids.
pub live_view-index :
    (m : Manifest) (head : ℕ) (es : List WalEntry) (j : MemoryId)
    → live_view (index m head (fold_entries es)).segments j
      ≡ map_some
          (prune_links (rebuilt_ids m.segments es))
          (lookup j (index_items m.segments (fold_entries es)))
live_view-index m head es j =
    live_view-head (index m head (fold_entries es)).segments j (seg_predicates-index m head es)
    ∙ ap head? (live_copies-index m head es j)
    ∙ head?-as_list _

-- A full rebuild gives a well-formed manifest, whatever the manifest before it was.
pub index-IsWellFormed :
    (m : Manifest) (head : ℕ) (es : List WalEntry) → IsWellFormed (index m head (fold_entries es))
index-IsWellFormed m head es = record {
  sharp = λ j. rw (live_copies-index m head es j) (length-as_list _);
  ends = unfold index in (omega arith, tt);
  none_left = seg_predicates-index m head es;
}

-- A full rebuild of a slice without predicate deletes: each id that the replay leaves is live, and
-- no other; each live id has the memory of the replay, with its semantic links to live ids.
pub index-eq-replay :
    (m : Manifest) (head : ℕ) (es : List WalEntry)
    → no_wheres es ≡ true
    → ((i : MemoryId)
        → contains (rebuilt_ids m.segments es) i ≡ is_there (replay i (live_view m.segments i) es))
      × ((j : MemoryId)
          → live_view (index m head (fold_entries es)).segments j
            ≡ map_some
                (prune_links (rebuilt_ids m.segments es))
                (replay j (live_view m.segments j) es))
index-eq-replay m head es plain = (
  λ i.
      contains-rebuilt_ids m.segments es i
      ∙ ap is_there (index_items-eq-replay m.segments es i plain),
  λ j.
      live_view-index m head es j
      ∙ ap (map_some (prune_links (rebuilt_ids m.segments es)))
          (index_items-eq-replay m.segments es j plain),
)
