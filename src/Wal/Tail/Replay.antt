-- ===== src/Wal/Tail/Replay.antt =====
-- The sequential meaning of the log at one id: each op takes effect on the state before it.
use memlake.Prelude.{
  ℕ, ◌≡◌, refl, ap, ◌∙◌, ◌⊎◌, inl, Bool, true, false, not, Option, none, some, List, [], ◌∷◌, ◌++◌,
  arith, ◌==◌, all, if◌then◌else◌,
}
use memlake.Prelude.Results.{map_some}
use memlake.Prelude.Assoc.{keep_if}
use memlake.Core.Memory.{MemoryId, StoredMemory}
use memlake.Core.Wal.{
  Delta, Op, upsert, tombstone, patch, tombstone_where, guard, WalEntry, apply_delta, apply_deltas,
}
use memlake.Wal.Tail.{stored_at, kills, extend_pending, apply_pending}
use memlake.Wal.Tail.Slot.{Slot, slot_step, slot_ops, slot_entries, empty_slot}

unfoldable pub replay_op : ℕ → MemoryId → Option StoredMemory → Op → Option StoredMemory
replay_op seq j v (upsert item) = if item.id == j then some (stored_at seq item) else v
replay_op seq j v (tombstone id) = if id == j then none else v
replay_op seq j v (patch id deltas) = if id == j then map_some (λ m. apply_deltas m deltas) v else v
replay_op seq j v (tombstone_where p) = keep_if (λ m. not (kills seq p m)) v
replay_op seq j v (guard n) = v

unfoldable pub replay_ops : ℕ → MemoryId → Option StoredMemory → List Op → Option StoredMemory
replay_ops seq j v [] = v
replay_ops seq j v (op ∷ ops) = replay_ops seq j (replay_op seq j v op) ops

unfoldable pub replay : MemoryId → Option StoredMemory → List WalEntry → Option StoredMemory
unfolding replay_ops replay_op
replay j v [] = v
replay j v (e ∷ es) = replay j (replay_ops e.seq j v e.ops) es

-- What a scan and the indexed copy `base` of an id say together, when no predicate delete is in
-- the slice.
abbrev pub slot_view : Slot → Option StoredMemory → Option StoredMemory
slot_view s base = elim s.up [
  | some m ↦ some m
  | none ↦ if s.dead then none else map_some (apply_pending s.pending) base
]

-- Patches wait only for an id that the slice neither writes nor deletes.
pub record IsTidy (s : Slot) : Type 0 where
  pub waits : (s.pending ≡ none) ⊎ ((s.up ≡ none) × (s.dead ≡ false))
  pub one : (s.up ≡ none) ⊎ (s.dead ≡ false)

pub apply_deltas-append :
    (m : StoredMemory) (xs ys : List Delta)
    → apply_deltas m (xs ++ ys) ≡ apply_deltas (apply_deltas m xs) ys
unfolding apply_deltas
apply_deltas-append m [] ys = refl
apply_deltas-append m (x ∷ xs) ys = apply_deltas-append (apply_delta m x) xs ys

pub slot_step-IsTidy :
    (seq : ℕ) (j : MemoryId) (s : Slot) (op : Op) → IsTidy s → IsTidy (slot_step seq j s op)
unfolding slot_step
slot_step-IsTidy seq j s (upsert item) t = ground arith
slot_step-IsTidy seq j s _ t = ground arith

abbrev pub no_where : Op → Bool
no_where (tombstone_where p) = false
no_where _ = true

extend_pending_lem :
    (p : Option (List Delta)) (deltas : List Delta) (base : Option StoredMemory)
    → map_some (apply_pending (some (extend_pending p deltas))) base
      ≡ map_some (λ m. apply_deltas m deltas) (map_some (apply_pending p) base)
extend_pending_lem p deltas none = refl
extend_pending_lem none deltas (some m) = refl
extend_pending_lem (some earlier) deltas (some m) = ap some (apply_deltas-append m earlier deltas)

view-slot_step :
    (seq : ℕ) (j : MemoryId) (s : Slot) (base : Option StoredMemory) (op : Op)
    → IsTidy s
    → no_where op ≡ true
    → slot_view (slot_step seq j s op) base ≡ replay_op seq j (slot_view s base) op
unfolding slot_step replay_op
view-slot_step seq j s base (patch id deltas) t h =
    ground (arith, extend_pending_lem s.pending deltas base)
view-slot_step seq j s base (upsert item) t h = ground arith
view-slot_step seq j s base (tombstone id) t h = ground arith
view-slot_step seq j s base (tombstone_where p) t h = ground arith
view-slot_step seq j s base (guard n) t h = ground arith

slot_ops-IsTidy :
    (seq : ℕ) (j : MemoryId) (s : Slot) (ops : List Op) → IsTidy s → IsTidy (slot_ops seq j s ops)
unfolding slot_ops
slot_ops-IsTidy seq j s [] t = t
slot_ops-IsTidy seq j s (op ∷ ops) t =
    slot_ops-IsTidy seq j (slot_step seq j s op) ops (slot_step-IsTidy seq j s op t)

pub slot_entries-IsTidy :
    (j : MemoryId) (s : Slot) (es : List WalEntry) → IsTidy s → IsTidy (slot_entries j s es)
unfolding slot_entries
slot_entries-IsTidy j s [] t = t
slot_entries-IsTidy j s (e ∷ es) t =
    slot_entries-IsTidy j (slot_ops e.seq j s e.ops) es (slot_ops-IsTidy e.seq j s e.ops t)

view-slot_ops :
    (seq : ℕ) (j : MemoryId) (s : Slot) (base : Option StoredMemory) (ops : List Op)
    → IsTidy s
    → all no_where ops ≡ true
    → slot_view (slot_ops seq j s ops) base ≡ replay_ops seq j (slot_view s base) ops
unfolding slot_ops replay_ops
view-slot_ops seq j s base [] t h = refl
view-slot_ops seq j s base (op ∷ ops) t h =
    view-slot_ops seq j (slot_step seq j s op) base ops (slot_step-IsTidy seq j s op t)
      (ground arith)
    ∙ ap (λ v. replay_ops seq j v ops) (view-slot_step seq j s base op t (ground arith))

-- The slice holds no predicate delete.
abbrev pub no_wheres : List WalEntry → Bool
no_wheres es = all (λ e. all no_where e.ops) es

pub view-slot_entries :
    (j : MemoryId) (s : Slot) (base : Option StoredMemory) (es : List WalEntry)
    → IsTidy s
    → no_wheres es ≡ true
    → slot_view (slot_entries j s es) base ≡ replay j (slot_view s base) es
unfolding slot_entries replay
view-slot_entries j s base [] t h = refl
view-slot_entries j s base (e ∷ es) t h =
    view-slot_entries j (slot_ops e.seq j s e.ops) base es (slot_ops-IsTidy e.seq j s e.ops t)
      (ground arith)
    ∙ ap (λ v. replay j v es) (view-slot_ops e.seq j s base e.ops t (ground arith))

pub empty_slot-IsTidy : IsTidy empty_slot
empty_slot-IsTidy = record { waits = inl refl; one = inl refl }
