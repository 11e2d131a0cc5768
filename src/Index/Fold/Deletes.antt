-- ===== src/Index/Fold/Deletes.antt =====
-- Predicate deletes in the slice of a rebuild.
use mathlib.Core.List.{append-nil, append_assoc}
use memlake.Prelude.{
  ℕ, ◌≤◌, ◌<◌, ◌≡◌, ◌⊎◌, refl, ◌∙◌, Bool, true, false, Option, none, some, List, [], ◌∷◌, ◌++◌,
  arith, all, inl, inr,
}
use memlake.Prelude.Assoc.{lookup}
use memlake.Core.Memory.{MemoryId, Memory, StoredMemory}
use memlake.Core.Manifest.{Segment}
use memlake.Core.Predicate.{Predicate, predicate_matches}
use memlake.Core.Wal.{WalEntry, upsert, tombstone_where}
use memlake.Wal.Tail.{stored_at, kills, killed_by, fold_entries}
use memlake.Wal.Tail.Slot.{
  Slot, slot_step, slot_ops, slot_entries, empty_slot, predicates_of, all_predicates,
}
use memlake.Wal.Tail.Replay.{replay_op, replay_ops, replay}
use memlake.Index.Fold.{index_items}
use memlake.Index.Fold.Flush.{live_view}
use memlake.Index.Fold.Resolve.{
  IsSettled, resolve, index_items-resolve, no_patch_of, no_upsert_of, killed_by-one,
}
use memlake.Index.Fold.Settled.{IsSettled-mono, IsSettled-ops}

-- The sequences of a slice ascend, from `n` on.
abbrev pub Ascends : ℕ → List WalEntry → Type 0
Ascends n [] = Unit
Ascends n (e ∷ es) = (n ≤ e.seq) × Ascends e.seq es

abbrev pub unpatched_in : MemoryId → List WalEntry → Bool
unpatched_in j es = all (λ e. all (no_patch_of j) e.ops) es

abbrev pub unwritten_in : MemoryId → List WalEntry → Bool
unwritten_in j es = all (λ e. all (no_upsert_of j) e.ops) es

settled_entries :
    (n : ℕ) (j : MemoryId) (s : Slot) (ps : List (ℕ × Predicate)) (base v : Option StoredMemory)
    (es : List WalEntry)
    → Ascends n es
    → (base ≡ none) ⊎ (unwritten_in j es ≡ true)
    → unpatched_in j es ≡ true
    → IsSettled s ps n base v
    → resolve (slot_entries j s es) (ps ++ all_predicates es) base ≡ replay j v es
unfolding slot_entries replay all_predicates
settled_entries n j s ps base v [] a b h t = rw (append-nil ps) t.agrees
settled_entries n j s ps base v (e ∷ es) a b h t =
    let now =
      IsSettled-ops e.seq j s ps base v e.ops (ground arith) (ground arith)
        (IsSettled-mono n e.seq s ps base v a.0 t) in
    rw (← append_assoc ps (predicates_of e.seq e.ops) (all_predicates es)) (
      settled_entries e.seq j (slot_ops e.seq j s e.ops) (ps ++ predicates_of e.seq e.ops) base
        (replay_ops e.seq j v e.ops) es a.1 (ground arith) (ground arith) now)

IsSettled-start : (base : Option StoredMemory) → IsSettled empty_slot [] 0 base base
unfolding killed_by
IsSettled-start none = record {
  unpatched = refl;
  apart = inl refl;
  survives = λ m e. refl;
  alive = inl refl;
  earlier = tt;
  agrees = refl;
}
IsSettled-start (some m) = record {
  unpatched = refl;
  apart = inr refl;
  survives = λ x e. refl;
  alive = inl refl;
  earlier = tt;
  agrees = refl;
}

-- A rebuild of a slice with predicate deletes, whose sequences never descend: at an id
-- that the slice does not patch, and that is not live before or that the slice does not write,
-- the live set of the rebuild has what the replay of the slice leaves.
pub index_items-eq-replay_deletes :
    (segs : List Segment) (es : List WalEntry) (j : MemoryId)
    → Ascends 0 es
    → (live_view segs j ≡ none) ⊎ (unwritten_in j es ≡ true)
    → unpatched_in j es ≡ true
    → lookup j (index_items segs (fold_entries es)) ≡ replay j (live_view segs j) es
index_items-eq-replay_deletes segs es j a b h =
    index_items-resolve segs es j
    ∙ settled_entries 0 j empty_slot [] (live_view segs j) (live_view segs j) es a b h
        (IsSettled-start (live_view segs j))

-- One entry writes a memory over a live older copy, and a later one deletes it by a predicate that
-- the older copy does not match.
abbrev pub rewrite_then_delete : ℕ → Memory → ℕ → Predicate → List WalEntry
rewrite_then_delete a item b p =
    record { seq = a; ops = upsert item ∷ [] }
    ∷ record { seq = b; ops = tombstone_where p ∷ [] }
    ∷ []

-- A memory has an older live copy; one entry writes it anew, and a later one deletes by a
-- predicate that the new copy matches and the older one does not. The live set of the rebuild has
-- the older copy, where the replay has nothing.
pub predicate_delete_revives :
    (segs : List Segment) (item : Memory) (old : StoredMemory) (a b : ℕ) (p : Predicate)
    → live_view segs item.id ≡ some old
    → a < b
    → predicate_matches p (stored_at a item) ≡ true
    → predicate_matches p old ≡ false
    → (lookup item.id (index_items segs (fold_entries (rewrite_then_delete a item b p))) ≡ some old)
      × (replay item.id (live_view segs item.id) (rewrite_then_delete a item b p) ≡ none)
unfolding slot_entries slot_ops slot_step all_predicates predicates_of replay replay_ops replay_op
predicate_delete_revives segs item old a b p live lt hit miss =
    let es = rewrite_then_delete a item b p in
    let at_a : (stored_at a item).write_seq ≡ a = unfold stored_at in refl in
    let killed : kills b p (stored_at a item) ≡ true = unfold kills in ground arith in
    let spared : killed_by ((b, p) ∷ []) old ≡ false =
      killed_by-one b p old ∙ (unfold kills in ground arith) in
    (index_items-resolve segs es item.id ∙ ground (arith, killed, spared), ground (arith, killed))
