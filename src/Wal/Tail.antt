-- ===== src/Wal/Tail.antt =====
-- crates/mlake-wal/src/tail.rs: the un-indexed tail of the log, folded into current state.
pub mod Shape
pub mod Slot
pub mod Replay
use memlake.Prelude.{
  ℕ, suc, ◌+◌, Bool, true, false, not, ◌&&◌, ◌||◌, Option, none, some, List, [], ◌∷◌, ◌++◌, max,
  ltb, ◌==◌, any, retain, contains, is_empty, if◌then◌else◌,
}
use memlake.Prelude.Assoc.{Assoc, lookup, insert, remove, retain_values}
use memlake.Core.Memory.{MemoryId, Memory, StoredMemory, into_stored}
use memlake.Core.Predicate.{Predicate, predicate_matches}
use memlake.Core.Wal.{
  Delta, Op, upsert, tombstone, patch, tombstone_where, guard, WalEntry, apply_deltas,
}

pub record TailScan : Type 0 where
  pub upserts : Assoc StoredMemory
  pub tombstones : List MemoryId
  pub pending_patches : Assoc (List Delta)
  pub predicate_tombstones : List (ℕ × Predicate)
  pub through_seq : ℕ
  pub entries_scanned : ℕ

-- `TailScan::default()`
abbrev pub empty_scan : TailScan
empty_scan = record {
  upserts = [];
  tombstones = [];
  pending_patches = [];
  predicate_tombstones = [];
  through_seq = 0;
  entries_scanned = 0;
}

-- A predicate delete of sequence `seq` that a memory does not survive.
unfoldable pub kills : ℕ → Predicate → StoredMemory → Bool
kills seq p m = ltb m.write_seq seq && predicate_matches p m

-- `predicates.iter().any(|(seq, p)| m.write_seq < *seq && p.matches(m))`
unfoldable pub killed_by : List (ℕ × Predicate) → StoredMemory → Bool
unfolding kills
killed_by predicates m = any (λ sp. kills sp.0 sp.1 m) predicates

unfoldable pub is_tombstoned : TailScan → MemoryId → Bool
is_tombstoned scan id = contains scan.tombstones id

unfoldable pub is_hidden : TailScan → StoredMemory → Bool
unfolding killed_by
is_hidden scan item = contains scan.tombstones item.id || killed_by scan.predicate_tombstones item

abbrev pub apply_pending : Option (List Delta) → StoredMemory → StoredMemory
apply_pending none item = item
apply_pending (some deltas) item = apply_deltas item deltas

unfoldable pub apply_patches : TailScan → StoredMemory → StoredMemory
apply_patches scan item = apply_pending (lookup item.id scan.pending_patches) item

-- the stored form of an upsert in the entry of sequence `seq`
unfoldable pub stored_at : ℕ → Memory → StoredMemory
unfolding into_stored
stored_at seq item = record (into_stored item) { proof_count = item.proof_count; write_seq = seq }

-- `pending_patches.entry(id).or_default().extend(deltas)`
abbrev pub extend_pending : Option (List Delta) → List Delta → List Delta
extend_pending none deltas = deltas
extend_pending (some earlier) deltas = earlier ++ deltas

-- the body of the loop over an entry's ops
unfoldable pub fold_op : ℕ → TailScan → Op → TailScan
unfolding stored_at kills
fold_op seq scan (upsert item) = record scan {
  tombstones = retain (λ t. not (t == item.id)) scan.tombstones;
  pending_patches = remove item.id scan.pending_patches;
  upserts = insert item.id (stored_at seq item) scan.upserts;
}
fold_op seq scan (tombstone id) = record scan {
  upserts = remove id scan.upserts;
  pending_patches = remove id scan.pending_patches;
  tombstones = if contains scan.tombstones id then scan.tombstones else scan.tombstones ++ id ∷ [];
}
fold_op seq scan (patch id deltas) =
    if contains scan.tombstones id then scan else elim (lookup id scan.upserts) [
      | some item ↦ record scan { upserts = insert id (apply_deltas item deltas) scan.upserts }
      | none ↦ record scan {
        pending_patches =
            insert id (extend_pending (lookup id scan.pending_patches) deltas) scan.pending_patches;
      }
    ]
fold_op seq scan (tombstone_where predicate) = record scan {
  upserts = retain_values (λ m. not (kills seq predicate m)) scan.upserts;
  predicate_tombstones = scan.predicate_tombstones ++ (seq, predicate) ∷ [];
}
fold_op seq scan (guard expect_seq_lt) = scan

unfoldable pub fold_ops : ℕ → TailScan → List Op → TailScan
fold_ops seq scan [] = scan
fold_ops seq scan (op ∷ ops) = fold_ops seq (fold_op seq scan op) ops

unfoldable pub fold_entry : TailScan → WalEntry → TailScan
unfolding fold_ops
fold_entry scan entry =
    fold_ops entry.seq
      (record scan {
        through_seq = max scan.through_seq entry.seq;
        entries_scanned = scan.entries_scanned + 1;
      })
      entry.ops

unfoldable pub fold_from : TailScan → List WalEntry → TailScan
unfolding fold_entry
fold_from scan [] = scan
fold_from scan (entry ∷ entries) = fold_from (fold_entry scan entry) entries

unfoldable pub fold_entries : List WalEntry → TailScan
unfolding fold_from
fold_entries entries = fold_from empty_scan entries
