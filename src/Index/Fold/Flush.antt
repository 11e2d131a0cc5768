-- ===== src/Index/Fold/Flush.antt =====
-- A flush against the sequential meaning of the log.
use mathlib.Core.Path.{ap₂}
use memlake.Prelude.{
  ℕ, ◌≤◌, ◌<◌, ◌≡◌, refl, sym, ap, ◌∙◌, Bool, true, false, not, ◌&&◌, ◌||◌, Option, none, some,
  List, [], ◌∷◌, ◌++◌, arith, ◌==◌, any, all, length, retain, is_empty, contains, contains-append,
  if◌then◌else◌, inl, inr,
}
use memlake.Prelude.Results.{map_some}
use memlake.Prelude.Assoc.{lookup, keep_if}
use memlake.Core.Memory.{MemoryId, StoredMemory, or_else}
use memlake.Core.Manifest.{Manifest, Segment}
use memlake.Core.Wal.{Op, WalEntry, upsert, tombstone, patch, tombstone_where, guard}
use memlake.Wal.Tail.{TailScan, apply_pending, apply_patches, killed_by, fold_entries}
use memlake.Wal.Tail.Shape.{fold_entries-IsShaped}
use memlake.Wal.Tail.Slot.{
  Slot, slot_of, empty_slot, slot-fold_entries, predicates_of, all_predicates,
  predicates-fold_entries,
}
use memlake.Wal.Tail.Replay.{
  replay, slot_view, IsTidy, no_where, no_wheres, view-slot_entries, slot_entries-IsTidy,
  empty_slot-IsTidy,
}
use memlake.Index.Segments.{seg_predicates, live_items}
use memlake.Index.Segments.Live.{
  head?, copies_of, copies_above, live_copies, seg_level, EndsBy, live_copies-cons,
  lookup-live_items-collect, fresh_copies-eq-live_copies,
}
use memlake.Index.Node.{open_node, get_one, in_segments}
use memlake.Index.Node.Get.{
  IsSharp, List-one, get_one-open, node_copy, id-get_one, contains-sort_ids,
}
use memlake.Index.Fold.{ids_of, reupserts, flush_items, flush_overlay, flush_segment, flush}
use memlake.Index.Fold.Patched.{as_list, is_there, AnswersIds, copies-flush_items, contains-retain}

pub contains-ids_of :
    (items : List StoredMemory) (j : MemoryId)
    → contains (ids_of items) j ≡ not (is_empty (copies_of j items))
contains-ids_of [] j = refl
contains-ids_of (x ∷ items) j = ground (arith, contains-ids_of items j)

any-copies :
    (items : List StoredMemory) (j : MemoryId)
    → any (λ m. m.id == j) items ≡ false
    → copies_of j items ≡ []
any-copies [] j h = refl
any-copies (x ∷ items) j h = ground (arith, any-copies items j)

in_segments-live :
    (k : ℕ) (segs : List Segment) (j : MemoryId)
    → in_segments segs j ≡ false
    → copies_above k j segs ≡ []
unfolding in_segments copies_above
in_segments-live k [] j h = refl
in_segments-live k (seg ∷ segs) j h =
    ground (arith, any-copies seg.items j, in_segments-live k segs j)

-- The overlay of a flush has what the slice deletes, and what it writes over an older copy.
contains-flush_overlay :
    (segs : List Segment) (scan : TailScan) (items : List StoredMemory) (j : MemoryId)
    → contains (flush_overlay segs scan items).superseded j
      ≡ (contains scan.tombstones j || (not (is_empty (copies_of j items)) && in_segments segs j))
unfolding flush_overlay reupserts
contains-flush_overlay segs scan items j =
    contains-sort_ids j _
    ∙ contains-append scan.tombstones (retain (λ id. in_segments segs id) (ids_of items)) j
    ∙ ap (λ b. contains scan.tombstones j || b)
        (contains-retain (λ id. in_segments segs id) (ids_of items) j
          ∙ ap (λ b. b && in_segments segs j) (contains-ids_of items j))

pub keep_all : (o : Option StoredMemory) → keep_if (λ m. not (killed_by [] m)) o ≡ o
unfolding killed_by
keep_all none = refl
keep_all (some m) = refl

-- What the segments hold live of an id.
abbrev pub live_view : List Segment → MemoryId → Option StoredMemory
live_view segs j = lookup j (live_items segs)

pub live_view-head :
    (segs : List Segment) (j : MemoryId)
    → seg_predicates segs ≡ []
    → live_view segs j ≡ head? (live_copies segs j)
live_view-head segs j none_left =
    lookup-live_items-collect segs j
    ∙ ap₂ (λ ps o. keep_if (λ m. not (killed_by ps m)) (head? o)) none_left
        (fresh_copies-eq-live_copies segs j)
    ∙ keep_all (head? (live_copies segs j))

map_pending_none : (o : Option StoredMemory) → map_some (apply_pending none) o ≡ o
map_pending_none none = refl
map_pending_none (some m) = refl

-- The slot of the slice at an id, read with the older copy, is the replay of the slice.
pub scan_view :
    (es : List WalEntry) (j : MemoryId) (base : Option StoredMemory)
    → no_wheres es ≡ true
    → slot_view (slot_of (fold_entries es) j) base ≡ replay j base es
scan_view es j base h =
    ap (λ s. slot_view s base) (slot-fold_entries es j)
    ∙ view-slot_entries j empty_slot base es empty_slot-IsTidy h
    ∙ ap (λ v. replay j v es) (map_pending_none base)

pub scan-IsTidy : (es : List WalEntry) (j : MemoryId) → IsTidy (slot_of (fold_entries es) j)
scan-IsTidy es j =
    rw (slot-fold_entries es j) (slot_entries-IsTidy j empty_slot es empty_slot-IsTidy)

-- The copies that a flush leaves live, from what the scan holds of the id (`up`, `dead`,
-- `pending`) and its older live copies.
abbrev own_copies : Slot → List StoredMemory → List StoredMemory
own_copies s old =
    as_list (map_some (apply_pending s.pending) s.up)
    ++ (if is_there s.pending && not (is_there s.up)
        then as_list (map_some (apply_pending s.pending) (if s.dead then none else head? old))
        else [])

flush_copies : Slot → List StoredMemory → Bool → List StoredMemory
flush_copies s old stored =
    own_copies s old
    ++ (if s.dead || (not (is_empty (own_copies s old)) && stored) then [] else old)

flush_copies-view :
    (s : Slot) (old : List StoredMemory) (stored : Bool)
    → IsTidy s
    → length old ≤ 1
    → (stored ≡ false → old ≡ [])
    → flush_copies s old stored ≡ as_list (slot_view s (head? old))
unfolding flush_copies
flush_copies-view s old true t one h = elim (List-one old one) [
  | inl e ↦ rw e (ground arith)
  | inr (m, e) ↦ rw e (ground arith)
]
flush_copies-view s old false t one h = rw (h refl) (ground arith)

predicates_of-none :
    (seq : ℕ) (ops : List Op) → all no_where ops ≡ true → predicates_of seq ops ≡ []
unfolding predicates_of
predicates_of-none seq [] h = refl
predicates_of-none seq (tombstone_where p ∷ ops) h = cc
predicates_of-none seq (upsert m ∷ ops) h = predicates_of-none seq ops h
predicates_of-none seq (tombstone i ∷ ops) h = predicates_of-none seq ops h
predicates_of-none seq (patch i ds ∷ ops) h = predicates_of-none seq ops h
predicates_of-none seq (guard n ∷ ops) h = predicates_of-none seq ops h

all_predicates-none : (es : List WalEntry) → no_wheres es ≡ true → all_predicates es ≡ []
unfolding all_predicates
all_predicates-none [] h = refl
all_predicates-none (e ∷ es) h =
    rw (predicates_of-none e.seq e.ops (ground arith)) (all_predicates-none es (ground arith))

pub scan_predicates-none :
    (es : List WalEntry) → no_wheres es ≡ true → (fold_entries es).predicate_tombstones ≡ []
scan_predicates-none es h = predicates-fold_entries es ∙ all_predicates-none es h

pub map_some-patches :
    (scan : TailScan) (j : MemoryId) (o : Option StoredMemory)
    → ((m : StoredMemory) → o ≡ some m → m.id ≡ j)
    → map_some (apply_patches scan) o ≡ map_some (apply_pending (lookup j scan.pending_patches)) o
unfolding apply_patches
map_some-patches scan j none h = refl
map_some-patches scan j (some m) h =
    ap (λ i. some (apply_pending (lookup i scan.pending_patches) m)) (h m refl)

module _ (segs : List Segment) (es : List WalEntry) (j : MemoryId) (plain : no_wheres es ≡ true)
    (none_left : seg_predicates segs ≡ []) (sharp : IsSharp segs) where
  pub flush_get : get_one (open_node segs (fold_entries es)) j ≡ (
      if contains (fold_entries es).tombstones j
      then none
      else or_else (lookup j (fold_entries es).upserts) (head? (live_copies segs j)))
  flush_get =
      let scan = fold_entries es in
      get_one-open segs scan j sharp (fold_entries-IsShaped es).upserts_keyed
      ∙ ap₂
          (λ ps qs.
            if contains scan.tombstones j
            then none
            else keep_if (λ m. not (killed_by (ps ++ qs) m)) (node_copy segs scan j))
          (scan_predicates-none es plain) none_left
      ∙ ap (λ o. if contains scan.tombstones j then none else o) (keep_all (node_copy segs scan j))

  pub flush_answers : AnswersIds (open_node segs (fold_entries es))
  flush_answers i m e =
      id-get_one segs (fold_entries es) i m sharp (fold_entries-IsShaped es).upserts_keyed e

  flush_own :
      copies_of j (flush_items (fold_entries es) (open_node segs (fold_entries es)))
      ≡ own_copies (slot_of (fold_entries es) j) (live_copies segs j)
  flush_own =
      let scan = fold_entries es in
      let node = open_node segs scan in
      let shaped = fold_entries-IsShaped es in
      copies-flush_items scan node j flush_answers shaped.upserts_map shaped.upserts_keyed
        shaped.pending_map
      ∙ ground
          (arith, map_some-patches scan j (get_one node j) (λ m e. flush_answers j m e), flush_get)

-- What holds of a manifest between folds, in a history with no predicate delete.
pub record IsWellFormed (m : Manifest) : Type 0 where
  pub sharp : IsSharp m.segments
  pub ends : EndsBy m.wal_index_cursor m.segments
  pub none_left : seg_predicates m.segments ≡ []

-- A flush of a slice, by a node that was opened at the same head.
abbrev pub flush_slice : Manifest → ℕ → List WalEntry → Manifest
flush_slice m head es = flush m head (fold_entries es) (open_node m.segments (fold_entries es))

abbrev pub new_segment : Manifest → ℕ → List WalEntry → Segment
new_segment m head es =
    flush_segment m head (fold_entries es) (open_node m.segments (fold_entries es))

pub segments-flush :
    (m : Manifest) (head : ℕ) (es : List WalEntry)
    → m.wal_index_cursor < head
    → (flush_slice m head es).segments ≡ new_segment m head es ∷ m.segments
unfolding flush
segments-flush m head es lt = ground arith

pub cursor-flush :
    (m : Manifest) (head : ℕ) (es : List WalEntry)
    → m.wal_index_cursor < head
    → (flush_slice m head es).wal_index_cursor ≡ head
unfolding flush
cursor-flush m head es lt = ground arith

module _ (m : Manifest) (head : ℕ) (es : List WalEntry) (wf : IsWellFormed m)
    (plain : no_wheres es ≡ true) (lt : m.wal_index_cursor < head) where
  live_copies-new :
      (j : MemoryId)
      → copies_of j (new_segment m head es).items
          ++ (if contains (new_segment m head es).tombstones.superseded j
              then []
              else live_copies m.segments j)
        ≡ flush_copies
            (slot_of (fold_entries es) j)
            (live_copies m.segments j)
            (in_segments m.segments j)
  unfolding flush_segment flush_copies open_node
  live_copies-new j =
      let segs = m.segments in
      let scan = fold_entries es in
      let node = open_node segs scan in
      let own = flush_own segs es j plain wf.none_left wf.sharp in
      ap₂ (λ c b. c ++ (if b then [] else live_copies segs j)) own
        (contains-flush_overlay segs scan (flush_items scan node) j
          ∙ ap (λ c. contains scan.tombstones j || (not (is_empty c) && in_segments segs j)) own)

  pub live_copies-flush :
      (j : MemoryId)
      → live_copies (flush_slice m head es).segments j
        ≡ as_list (replay j (live_view m.segments j) es)
  live_copies-flush j =
      let segs = m.segments in
      let scan = fold_entries es in
      let node = open_node segs scan in
      let s = slot_of scan j in
      let old = live_copies segs j in
      ap (λ ss. live_copies ss j) (segments-flush m head es lt)
      ∙ live_copies-cons (new_segment m head es) m.wal_index_cursor segs j wf.ends
          (unfold flush_segment in lt)
      ∙ live_copies-new j
      ∙ flush_copies-view s old (in_segments segs j) (scan-IsTidy es j) (wf.sharp j)
          (in_segments-live (seg_level segs j) segs j)
      ∙ ap (λ o. as_list (slot_view s o)) (sym (live_view-head segs j wf.none_left))
      ∙ ap as_list (scan_view es j (live_view segs j) plain)
