-- ===== src/Index/Fold/Resolve.antt =====
-- What a rebuild leaves of one id, in terms of the slot that its slice leaves there.
use memlake.Prelude.{
  ℕ, ◌≤◌, ◌≡◌, ◌⊎◌, refl, ap, ◌∙◌, Bool, true, false, not, ◌||◌, Option, none, some, List, [], ◌∷◌,
  ◌++◌, arith, ◌==◌, any-append, All, if◌then◌else◌,
}
use memlake.Prelude.Results.{map_some}
use memlake.Prelude.Assoc.{lookup, keep_if}
use memlake.Core.Memory.{MemoryId, Memory, StoredMemory, or_else}
use memlake.Core.Manifest.{Segment}
use memlake.Core.Predicate.{Predicate}
use memlake.Core.Wal.{Op, WalEntry, upsert, patch}
use memlake.Wal.Tail.{stored_at, kills, killed_by, apply_pending, fold_entries}
use memlake.Wal.Tail.Shape.{fold_entries-IsShaped}
use memlake.Wal.Tail.Slot.{
  Slot, slot_entries, empty_slot, slot-fold_entries, all_predicates, predicates-fold_entries,
}
use memlake.Wal.Tail.Replay.{}
use memlake.Index.Fold.{index_items}
use memlake.Index.Fold.Flush.{live_view}
use memlake.Index.Fold.Rebuild.{lookup-index_items}

-- What a slot, the predicates of the slice and the older copy say together.
abbrev pub resolve : Slot → List (ℕ × Predicate) → Option StoredMemory → Option StoredMemory
resolve s ps base =
    map_some (apply_pending s.pending)
      (keep_if (λ m. not (killed_by ps m)) (or_else s.up (if s.dead then none else base)))

pub index_items-resolve :
    (segs : List Segment) (es : List WalEntry) (j : MemoryId)
    → lookup j (index_items segs (fold_entries es))
      ≡ resolve (slot_entries j empty_slot es) (all_predicates es) (live_view segs j)
index_items-resolve segs es j =
    let shaped = fold_entries-IsShaped es in
    lookup-index_items segs (fold_entries es) j shaped.upserts_map shaped.upserts_keyed
    ∙ ap (λ s. resolve s (fold_entries es).predicate_tombstones (live_view segs j))
        (slot-fold_entries es j)
    ∙ ap (λ ps. resolve (slot_entries j empty_slot es) ps (live_view segs j))
        (predicates-fold_entries es)

-- An op that does not patch `j`, and one that does not write it.
abbrev pub no_patch_of : MemoryId → Op → Bool
no_patch_of j (patch id ds) = not (id == j)
no_patch_of j _ = true

abbrev pub no_upsert_of : MemoryId → Op → Bool
no_upsert_of j (upsert m) = not (m.id == j)
no_upsert_of j _ = true

-- What holds while a slice runs in which `j` is not patched, and is not written over an older copy.
pub record IsSettled (s : Slot) (ps : List (ℕ × Predicate)) (seq : ℕ) (base v : Option StoredMemory)
    : Type 0 where
  pub unpatched : s.pending ≡ none
  pub apart : (base ≡ none) ⊎ (s.up ≡ none)
  pub survives : (m : StoredMemory) → s.up ≡ some m → killed_by ps m ≡ false
  pub alive : (s.up ≡ none) ⊎ (s.dead ≡ false)
  pub earlier : All (λ sp. sp.0 ≤ seq) ps
  pub agrees : resolve s ps base ≡ v

pub killed_by-append :
    (ps qs : List (ℕ × Predicate)) (m : StoredMemory)
    → killed_by (ps ++ qs) m ≡ (killed_by ps m || killed_by qs m)
unfolding killed_by
killed_by-append ps qs m = any-append _ ps qs

pub killed_by-one :
    (seq : ℕ) (p : Predicate) (m : StoredMemory) → killed_by ((seq, p) ∷ []) m ≡ kills seq p m
unfolding killed_by
killed_by-one seq p m = ground arith

-- A write is spared by the predicates that are not later than it.
pub killed_by-stored_at :
    (ps : List (ℕ × Predicate)) (seq : ℕ) (m : Memory)
    → All (λ sp. sp.0 ≤ seq) ps
    → killed_by ps (stored_at seq m) ≡ false
unfolding killed_by kills stored_at
killed_by-stored_at [] seq m h = refl
killed_by-stored_at (sp ∷ ps) seq m h = ground (arith, killed_by-stored_at ps seq m h.1)
