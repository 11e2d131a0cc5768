-- ===== src/Core/Wal/Counts.antt =====
-- The proof count: one delta at a time, clamped at each step, against the sum clamped once.
use memlake.Prelude.{ℕ, ◌≤◌, ◌<◌, ◌≡◌, refl, sym, ap, ◌∙◌, List, [], ◌∷◌, arith}
use memlake.Prelude.Int.{ℤ, pos, negsuc, ◌+ℤ◌}
use memlake.Core.Memory.{StoredMemory}
use memlake.Core.Wal.{
  Delta, proof_count, set_text, set_vector, set_tags, set_entity_ids, set_timestamps,
  merge_metadata, touch, merge_timestamps, u32_max, clamp_u32, apply_delta, apply_deltas,
  sum_proof_count, fold_proof_count,
}

-- No partial sum leaves the range of the count.
abbrev pub StaysInRange : ℤ → List Delta → Type 0
StaysInRange acc [] = Unit
StaysInRange acc (proof_count n ∷ ds) =
    (pos (clamp_u32 (acc +ℤ n)) ≡ acc +ℤ n) × StaysInRange (acc +ℤ n) ds
StaysInRange acc (d ∷ ds) = StaysInRange acc ds

-- A delta of another kind leaves the count.
sum_of-apply_deltas :
    (ds : List Delta) (item : StoredMemory) (acc : ℤ)
    → pos item.proof_count ≡ acc
    → StaysInRange acc ds
    → pos (apply_deltas item ds).proof_count ≡ sum_proof_count acc ds
unfolding apply_deltas apply_delta sum_proof_count
sum_of-apply_deltas [] item acc e h = e
sum_of-apply_deltas (proof_count n ∷ ds) item acc e h =
    sum_of-apply_deltas ds (apply_delta item (proof_count n)) (acc +ℤ n)
      (ap (λ (z : ℤ). pos (clamp_u32 (z +ℤ n))) e ∙ h.0) h.1
sum_of-apply_deltas (set_text t ∷ ds) item acc e h = sum_of-apply_deltas ds _ acc e h
sum_of-apply_deltas (set_vector v ∷ ds) item acc e h = sum_of-apply_deltas ds _ acc e h
sum_of-apply_deltas (set_tags t ∷ ds) item acc e h = sum_of-apply_deltas ds _ acc e h
sum_of-apply_deltas (set_entity_ids i ∷ ds) item acc e h = sum_of-apply_deltas ds _ acc e h
sum_of-apply_deltas (set_timestamps t ∷ ds) item acc e h = sum_of-apply_deltas ds _ acc e h
sum_of-apply_deltas (merge_metadata p ∷ ds) item acc e h = sum_of-apply_deltas ds _ acc e h
sum_of-apply_deltas (touch t ∷ ds) item acc e h = sum_of-apply_deltas ds _ acc e h
sum_of-apply_deltas (merge_timestamps t ∷ ds) item acc e h = sum_of-apply_deltas ds _ acc e h

clamp_u32-le : (z : ℤ) → clamp_u32 z ≤ u32_max
unfolding clamp_u32
clamp_u32-le (pos n) = omega arith
clamp_u32-le (negsuc n) = omega arith

count-apply_delta-le :
    (item : StoredMemory) (d : Delta)
    → item.proof_count ≤ u32_max
    → (apply_delta item d).proof_count ≤ u32_max
unfolding apply_delta
count-apply_delta-le item (proof_count n) h = clamp_u32-le (pos item.proof_count +ℤ n)
count-apply_delta-le item (set_text t) h = h
count-apply_delta-le item (set_vector v) h = h
count-apply_delta-le item (set_tags t) h = h
count-apply_delta-le item (set_entity_ids i) h = h
count-apply_delta-le item (set_timestamps t) h = h
count-apply_delta-le item (merge_metadata p) h = h
count-apply_delta-le item (touch t) h = h
count-apply_delta-le item (merge_timestamps t) h = h

-- A count within the range of a u32 stays within it, whatever deltas are applied.
pub count-apply_deltas-le :
    (ds : List Delta) (item : StoredMemory)
    → item.proof_count ≤ u32_max
    → (apply_deltas item ds).proof_count ≤ u32_max
unfolding apply_deltas
count-apply_deltas-le [] item h = h
count-apply_deltas-le (d ∷ ds) item h =
    count-apply_deltas-le ds (apply_delta item d) (count-apply_delta-le item d h)

clamp_u32-pos : (n : ℕ) → n ≤ u32_max → clamp_u32 (pos n) ≡ n
unfolding clamp_u32
clamp_u32-pos n h = omega arith

-- From a count within the range of a u32: where no partial sum of the deltas leaves that range, the
-- deltas applied one at a time give the count that `fold_proof_count` gives from their sum.
pub count-eq-fold_proof_count :
    (item : StoredMemory) (ds : List Delta)
    → item.proof_count ≤ u32_max
    → StaysInRange (pos item.proof_count) ds
    → (apply_deltas item ds).proof_count ≡ fold_proof_count item.proof_count ds
unfolding fold_proof_count
count-eq-fold_proof_count item ds le h =
    sym (clamp_u32-pos _ (count-apply_deltas-le ds item le))
    ∙ ap clamp_u32 (sum_of-apply_deltas ds item (pos item.proof_count) refl h)

-- A decrement below zero and then an increment: one at a time, the count is the increment; the sum
-- clamped once is less.
pub count_loses_decrement :
    (item : StoredMemory) (a b : ℕ)
    → item.proof_count ≤ a
    → 0 < b
    → b ≤ u32_max
    → ((apply_deltas item (proof_count (negsuc a) ∷ proof_count (pos b) ∷ [])).proof_count ≡ b)
      × (fold_proof_count item.proof_count (proof_count (negsuc a) ∷ proof_count (pos b) ∷ []) < b)
unfolding apply_deltas apply_delta clamp_u32 ◌+ℤ◌ fold_proof_count sum_proof_count
count_loses_decrement item a b le some_b fits = (ground arith, ground arith)
