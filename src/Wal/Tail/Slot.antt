-- ===== src/Wal/Tail/Slot.antt =====
-- What the fold of the tail does at one id, with the maps gone.
use mathlib.Core.List.{append-nil, append_assoc}
use memlake.Prelude.{
  ℕ, ◌≡◌, refl, sym, ap, ◌∙◌, Bool, true, false, not, Option, none, some, List, [], ◌∷◌, ◌++◌,
  arith, ◌==◌, inl, inr, Option-cases, contains, contains-append, contains-retain_ne, if◌then◌else◌,
}
use memlake.Prelude.Assoc.{lookup, keep_if, lookup-remove, lookup-insert, lookup-retain_values}
use memlake.Core.Memory.{MemoryId, StoredMemory}
use memlake.Core.Predicate.{Predicate}
use memlake.Core.Wal.{
  Delta, Op, upsert, tombstone, patch, tombstone_where, guard, WalEntry, apply_deltas,
}
use memlake.Wal.Tail.{
  TailScan, stored_at, kills, extend_pending, fold_op, fold_ops, fold_entry, fold_from,
  fold_entries,
}

-- What a scan holds of one id.
pub record Slot : Type 0 where
  pub up : Option StoredMemory
  pub dead : Bool
  pub pending : Option (List Delta)

abbrev pub slot_of : TailScan → MemoryId → Slot
slot_of scan id = record {
  up = lookup id scan.upserts;
  dead = contains scan.tombstones id;
  pending = lookup id scan.pending_patches;
}

abbrev pub patch_slot : Slot → List Delta → Slot
patch_slot s deltas = if s.dead then s else elim s.up [
  | some item ↦ record s { up = some (apply_deltas item deltas) }
  | none ↦ record s { pending = some (extend_pending s.pending deltas) }
]

-- One op, at the id `j`.
unfoldable pub slot_step : ℕ → MemoryId → Slot → Op → Slot
slot_step seq j s (upsert item) =
    if item.id == j
    then record { up = some (stored_at seq item); dead = false; pending = none }
    else s
slot_step seq j s (tombstone id) =
    if id == j then record { up = none; dead = true; pending = none } else s
slot_step seq j s (patch id deltas) = if id == j then patch_slot s deltas else s
slot_step seq j s (tombstone_where p) = record s { up = keep_if (λ m. not (kills seq p m)) s.up }
slot_step seq j s (guard n) = s

pub slot-fold_op :
    (seq : ℕ) (scan : TailScan) (op : Op) (j : MemoryId)
    → slot_of (fold_op seq scan op) j ≡ slot_step seq j (slot_of scan j) op
unfolding fold_op slot_step
slot-fold_op seq scan (upsert item) j = ground (
  arith,
  lookup-insert item.id j (stored_at seq item) scan.upserts,
  lookup-remove item.id j scan.pending_patches,
  contains-retain_ne item.id j scan.tombstones,
)
slot-fold_op seq scan (tombstone id) j = ground (
  arith,
  lookup-remove id j scan.upserts,
  lookup-remove id j scan.pending_patches,
  contains-append scan.tombstones (id ∷ []) j,
)
slot-fold_op seq scan (patch id deltas) j = elim (Option-cases (lookup id scan.upserts)) [
  | inl miss ↦
      let later = extend_pending (lookup id scan.pending_patches) deltas in
      ground (arith, lookup-insert id j later scan.pending_patches)
  | inr (item, hit) ↦ ground (arith, lookup-insert id j (apply_deltas item deltas) scan.upserts)
]
slot-fold_op seq scan (tombstone_where p) j =
    ground (arith, lookup-retain_values (λ m. not (kills seq p m)) j scan.upserts)
slot-fold_op seq scan (guard n) j = refl

-- A whole list of ops, and of entries.
unfoldable pub slot_ops : ℕ → MemoryId → Slot → List Op → Slot
slot_ops seq j s [] = s
slot_ops seq j s (op ∷ ops) = slot_ops seq j (slot_step seq j s op) ops

unfoldable pub slot_entries : MemoryId → Slot → List WalEntry → Slot
slot_entries j s [] = s
slot_entries j s (e ∷ es) = slot_entries j (slot_ops e.seq j s e.ops) es

slot-fold_ops :
    (seq : ℕ) (scan : TailScan) (ops : List Op) (j : MemoryId)
    → slot_of (fold_ops seq scan ops) j ≡ slot_ops seq j (slot_of scan j) ops
unfolding fold_ops slot_ops
slot-fold_ops seq scan [] j = refl
slot-fold_ops seq scan (op ∷ ops) j =
    slot-fold_ops seq (fold_op seq scan op) ops j
    ∙ ap (λ s. slot_ops seq j s ops) (slot-fold_op seq scan op j)

pub slot-fold_from :
    (scan : TailScan) (es : List WalEntry) (j : MemoryId)
    → slot_of (fold_from scan es) j ≡ slot_entries j (slot_of scan j) es
unfolding fold_from fold_entry slot_entries
slot-fold_from scan [] j = refl
slot-fold_from scan (e ∷ es) j =
    slot-fold_from (fold_entry scan e) es j
    ∙ ap (λ s. slot_entries j s es) (slot-fold_ops e.seq _ e.ops j)

abbrev pub empty_slot : Slot
empty_slot = record { up = none; dead = false; pending = none }

-- What the scan of a slice of the log holds of one id, its write, its delete and its patches, is
-- what the ops on that id and the predicate deletes make of an empty slot, entry by entry.
pub slot-fold_entries :
    (es : List WalEntry) (j : MemoryId) → slot_of (fold_entries es) j ≡ slot_entries j empty_slot es
unfolding fold_entries lookup
slot-fold_entries es j = slot-fold_from _ es j

-- The predicate deletes of a list of ops and of entries, in order.
unfoldable pub predicates_of : ℕ → List Op → List (ℕ × Predicate)
predicates_of seq [] = []
predicates_of seq (tombstone_where p ∷ ops) = (seq, p) ∷ predicates_of seq ops
predicates_of seq (op ∷ ops) = predicates_of seq ops

unfoldable pub all_predicates : List WalEntry → List (ℕ × Predicate)
all_predicates [] = []
all_predicates (e ∷ es) = predicates_of e.seq e.ops ++ all_predicates es

predicates-fold_op :
    (seq : ℕ) (scan : TailScan) (op : Op)
    → (fold_op seq scan op).predicate_tombstones
      ≡ scan.predicate_tombstones ++ predicates_of seq (op ∷ [])
unfolding fold_op predicates_of
predicates-fold_op seq scan (patch id deltas) = ground (arith, append-nil scan.predicate_tombstones)
predicates-fold_op seq scan (tombstone_where p) = refl
predicates-fold_op seq scan _ = sym (append-nil _)

pub predicates_of-cons :
    (seq : ℕ) (op : Op) (ops : List Op)
    → predicates_of seq (op ∷ []) ++ predicates_of seq ops ≡ predicates_of seq (op ∷ ops)
unfolding predicates_of
predicates_of-cons seq (tombstone_where p) ops = refl
predicates_of-cons seq _ ops = refl

predicates-fold_ops :
    (seq : ℕ) (scan : TailScan) (ops : List Op)
    → (fold_ops seq scan ops).predicate_tombstones
      ≡ scan.predicate_tombstones ++ predicates_of seq ops
unfolding fold_ops
predicates-fold_ops seq scan [] = unfold predicates_of in sym (append-nil _)
predicates-fold_ops seq scan (op ∷ ops) =
    predicates-fold_ops seq (fold_op seq scan op) ops
    ∙ ap (λ ps. ps ++ predicates_of seq ops) (predicates-fold_op seq scan op)
    ∙ append_assoc scan.predicate_tombstones (predicates_of seq (op ∷ [])) (predicates_of seq ops)
    ∙ ap (λ ps. scan.predicate_tombstones ++ ps) (predicates_of-cons seq op ops)

predicates-fold_from :
    (scan : TailScan) (es : List WalEntry)
    → (fold_from scan es).predicate_tombstones ≡ scan.predicate_tombstones ++ all_predicates es
unfolding fold_from all_predicates
predicates-fold_from scan [] = sym (append-nil _)
predicates-fold_from scan (e ∷ es) =
    predicates-fold_from (fold_entry scan e) es
    ∙ ap (λ ps. ps ++ all_predicates es) (unfold fold_entry in predicates-fold_ops e.seq _ e.ops)
    ∙ append_assoc scan.predicate_tombstones (predicates_of e.seq e.ops) (all_predicates es)

pub predicates-fold_entries :
    (es : List WalEntry) → (fold_entries es).predicate_tombstones ≡ all_predicates es
unfolding fold_entries
predicates-fold_entries es = predicates-fold_from _ es
