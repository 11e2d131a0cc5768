-- ===== src/Core/Wal.antt =====
-- crates/mlake-core/src/wal.rs: the log's entries and the deltas of a patch.
pub mod Counts
use memlake.Prelude.{ℕ, ◌-◌, ◌^◌, some, List, [], ◌∷◌, min, if◌then◌else◌}
use memlake.Prelude.Bytes.{Bytes, bytes_eq}
use memlake.Prelude.Int.{ℤ, pos, negsuc, ◌+ℤ◌}
use memlake.Core.Memory.{
  MemoryId, EntityId, Timestamps, StoredMemory, Memory, or_else, sort_ids, sort_metadata,
}
use memlake.Core.Predicate.{Predicate}

pub data Delta : Type 0 where
  proof_count : ℤ → Delta
  set_text : Bytes → Delta
  set_vector : List ℕ → Delta
  set_tags : List Bytes → Delta
  set_entity_ids : List EntityId → Delta
  set_timestamps : Timestamps → Delta
  merge_metadata : List (Bytes × Bytes) → Delta
  touch : ℤ → Delta
  merge_timestamps : Timestamps → Delta

pub data Op : Type 0 where
  upsert : Memory → Op
  tombstone : MemoryId → Op
  patch : MemoryId → List Delta → Op
  tombstone_where : Predicate → Op
  guard : ℕ → Op

pub record WalEntry : Type 0 where
  pub seq : ℕ
  pub ops : List Op

abbrev pub u32_max : ℕ
u32_max = 2 ^ 32 - 1

-- `clamp(0, u32::MAX as i64) as u32`
unfoldable pub clamp_u32 : ℤ → ℕ
clamp_u32 (pos n) = min n u32_max
clamp_u32 (negsuc n) = 0

-- the first pair with the key gets the new value, or the pair is pushed at the end
unfoldable pub set_pair : Bytes → Bytes → List (Bytes × Bytes) → List (Bytes × Bytes)
set_pair k v [] = (k, v) ∷ []
set_pair k v ((ek, ev) ∷ rest) =
    if bytes_eq ek k then (ek, v) ∷ rest else (ek, ev) ∷ set_pair k v rest

unfoldable pub merge_pairs : List (Bytes × Bytes) → List (Bytes × Bytes) → List (Bytes × Bytes)
unfolding set_pair
merge_pairs [] metadata = metadata
merge_pairs ((k, v) ∷ pairs) metadata = merge_pairs pairs (set_pair k v metadata)

unfoldable pub apply_delta : StoredMemory → Delta → StoredMemory
unfolding clamp_u32 ◌+ℤ◌ merge_pairs sort_ids sort_metadata
apply_delta item (proof_count n) = record item {
  proof_count = clamp_u32 (pos item.proof_count +ℤ n);
}
apply_delta item (set_text t) = record item { text = t }
apply_delta item (set_vector v) = record item { vector = v }
apply_delta item (set_tags t) = record item { tags = t }
apply_delta item (set_entity_ids e) = record item { entity_ids = sort_ids e }
apply_delta item (set_timestamps ts) = record item { timestamps = ts }
apply_delta item (touch at) = record item {
  timestamps = record (item.timestamps) { updated_at = some at };
}
apply_delta item (merge_timestamps ts) = record item {
  timestamps = record {
    event_date = or_else ts.event_date item.timestamps.event_date;
    occurred_start = or_else ts.occurred_start item.timestamps.occurred_start;
    occurred_end = or_else ts.occurred_end item.timestamps.occurred_end;
    mentioned_at = or_else ts.mentioned_at item.timestamps.mentioned_at;
    updated_at = or_else ts.updated_at item.timestamps.updated_at;
  };
}
apply_delta item (merge_metadata pairs) = record item {
  metadata = sort_metadata (merge_pairs pairs item.metadata);
}

unfoldable pub apply_deltas : StoredMemory → List Delta → StoredMemory
apply_deltas item [] = item
apply_deltas item (d ∷ ds) = apply_deltas (apply_delta item d) ds

-- the running sum of the proof-count deltas
unfoldable pub sum_proof_count : ℤ → List Delta → ℤ
unfolding ◌+ℤ◌
sum_proof_count acc [] = acc
sum_proof_count acc (proof_count n ∷ ds) = sum_proof_count (acc +ℤ n) ds
sum_proof_count acc (d ∷ ds) = sum_proof_count acc ds

unfoldable pub fold_proof_count : ℕ → List Delta → ℕ
unfolding sum_proof_count clamp_u32
fold_proof_count start ds = clamp_u32 (sum_proof_count (pos start) ds)
