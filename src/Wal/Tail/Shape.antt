-- ===== src/Wal/Tail/Shape.antt =====
-- The maps of a tail scan are maps: no key twice, and an item stands under its own id.
use memlake.Prelude.{
  ℕ, ◌≡◌, refl, ◌∙◌, Bool, Option, none, some, List, [], ◌∷◌, arith, ◌==◌, All, contains, inl, inr,
  Bool-cases,
}
use memlake.Prelude.Assoc.{
  Assoc, lookup, insert, remove, retain_values, lookup-remove, lookup-retain_values,
}
use memlake.Core.Memory.{MemoryId, StoredMemory, Memory}
use memlake.Core.Wal.{
  Delta, Op, upsert, tombstone, patch, tombstone_where, guard, WalEntry, apply_delta, apply_deltas,
}
use memlake.Wal.Tail.{TailScan, stored_at, fold_op, fold_ops, fold_entry, fold_from, fold_entries}

-- No key twice.
abbrev pub IsMap {ℓ} : {V : Type ℓ} → Assoc V → Type ℓ
IsMap [] = Unit
IsMap ((k, v) ∷ m) = (lookup k m ≡ none) × IsMap m

-- Each item stands under its id.
abbrev pub IsKeyed : Assoc StoredMemory → Type 0
IsKeyed m = All (λ e. e.1.id ≡ e.0) m

module _ {ℓ} {V : Type ℓ} where
  pub remove-IsMap : (k : ℕ) (m : Assoc V) → IsMap m → IsMap (remove k m)
  unfolding remove
  remove-IsMap k [] h = h
  remove-IsMap k ((i, v) ∷ m) h = elim (Bool-cases (i == k)) [
    | inl e ↦ rw e (remove-IsMap k m h.1)
    | inr e ↦ rw e (ground (arith, lookup-remove k i m), remove-IsMap k m h.1)
  ]

  pub insert-IsMap : (k : ℕ) (v : V) (m : Assoc V) → IsMap m → IsMap (insert k v m)
  unfolding insert
  insert-IsMap k v m h = (ground (arith, lookup-remove k k m), remove-IsMap k m h)

  pub retain_values-IsMap : (p : V → Bool) (m : Assoc V) → IsMap m → IsMap (retain_values p m)
  unfolding retain_values
  retain_values-IsMap p [] h = h
  retain_values-IsMap p ((i, v) ∷ m) h = elim (Bool-cases (p v)) [
    | inl e ↦ rw e (ground (arith, lookup-retain_values p i m), retain_values-IsMap p m h.1)
    | inr e ↦ rw e (remove-IsMap i (retain_values p m) (retain_values-IsMap p m h.1))
  ]

pub remove-IsKeyed : (k : ℕ) (m : Assoc StoredMemory) → IsKeyed m → IsKeyed (remove k m)
unfolding remove
remove-IsKeyed k [] h = h
remove-IsKeyed k ((i, v) ∷ m) h = elim (Bool-cases (i == k)) [
  | inl e ↦ rw e (remove-IsKeyed k m h.1)
  | inr e ↦ rw e (h.0, remove-IsKeyed k m h.1)
]

pub insert-IsKeyed :
    (k : ℕ) (v : StoredMemory) (m : Assoc StoredMemory)
    → v.id ≡ k
    → IsKeyed m
    → IsKeyed (insert k v m)
unfolding insert
insert-IsKeyed k v m e h = (e, remove-IsKeyed k m h)

pub retain_values-IsKeyed :
    (p : StoredMemory → Bool) (m : Assoc StoredMemory) → IsKeyed m → IsKeyed (retain_values p m)
unfolding retain_values
retain_values-IsKeyed p [] h = h
retain_values-IsKeyed p ((i, v) ∷ m) h = elim (Bool-cases (p v)) [
  | inl e ↦ rw e (h.0, retain_values-IsKeyed p m h.1)
  | inr e ↦ rw e (remove-IsKeyed i (retain_values p m) (retain_values-IsKeyed p m h.1))
]

pub id-lookup :
    (j : ℕ) (m : Assoc StoredMemory) (v : StoredMemory) → IsKeyed m → lookup j m ≡ some v → v.id ≡ j
unfolding lookup
id-lookup j [] v h e = cc
id-lookup j ((i, w) ∷ m) v h e = ground (arith, id-lookup j m v h.1)

id-apply_delta : (m : StoredMemory) (d : Delta) → (apply_delta m d).id ≡ m.id
unfolding apply_delta
id-apply_delta m (Delta.touch at) = refl
id-apply_delta m _ = refl

-- A patch leaves the id and the write sequence alone.
pub id-apply_deltas : (m : StoredMemory) (ds : List Delta) → (apply_deltas m ds).id ≡ m.id
unfolding apply_deltas
id-apply_deltas m [] = refl
id-apply_deltas m (d ∷ ds) = id-apply_deltas (apply_delta m d) ds ∙ id-apply_delta m d

write_seq-apply_delta : (m : StoredMemory) (d : Delta) → (apply_delta m d).write_seq ≡ m.write_seq
unfolding apply_delta
write_seq-apply_delta m (Delta.touch at) = refl
write_seq-apply_delta m _ = refl

pub write_seq-apply_deltas :
    (m : StoredMemory) (ds : List Delta) → (apply_deltas m ds).write_seq ≡ m.write_seq
unfolding apply_deltas
write_seq-apply_deltas m [] = refl
write_seq-apply_deltas m (d ∷ ds) =
    write_seq-apply_deltas (apply_delta m d) ds ∙ write_seq-apply_delta m d

pub id-stored_at : (seq : ℕ) (m : Memory) → (stored_at seq m).id ≡ m.id
unfolding stored_at
id-stored_at seq m = refl

pub record IsShaped (scan : TailScan) : Type 0 where
  pub upserts_map : IsMap scan.upserts
  pub upserts_keyed : IsKeyed scan.upserts
  pub pending_map : IsMap scan.pending_patches

patch-IsShaped :
    (seq : ℕ) (scan : TailScan) (id : MemoryId) (ds : List Delta) (o : Option StoredMemory)
    → lookup id scan.upserts ≡ o
    → IsShaped scan
    → IsShaped (fold_op seq scan (patch id ds))
unfolding fold_op
patch-IsShaped seq scan id ds none e h = elim (Bool-cases (contains scan.tombstones id)) [
  | inl b ↦ rw b h
  | inr b ↦
      rw (b, e)
        (record {
          upserts_map = h.upserts_map;
          upserts_keyed = h.upserts_keyed;
          pending_map = insert-IsMap id _ scan.pending_patches h.pending_map;
        })
]
patch-IsShaped seq scan id ds (some m) e h = elim (Bool-cases (contains scan.tombstones id)) [
  | inl b ↦ rw b h
  | inr b ↦
      rw (b, e)
        (record {
          upserts_map = insert-IsMap id _ scan.upserts h.upserts_map;
          upserts_keyed =
              insert-IsKeyed id (apply_deltas m ds) scan.upserts
                (id-apply_deltas m ds ∙ id-lookup id scan.upserts m h.upserts_keyed e)
                h.upserts_keyed;
          pending_map = h.pending_map;
        })
]

fold_op-IsShaped :
    (seq : ℕ) (scan : TailScan) (op : Op) → IsShaped scan → IsShaped (fold_op seq scan op)
fold_op-IsShaped seq scan (upsert item) h =
    unfold fold_op in
    record {
      upserts_map = insert-IsMap item.id (stored_at seq item) scan.upserts h.upserts_map;
      upserts_keyed =
          insert-IsKeyed item.id (stored_at seq item) scan.upserts (id-stored_at seq item)
            h.upserts_keyed;
      pending_map = remove-IsMap item.id scan.pending_patches h.pending_map;
    }
fold_op-IsShaped seq scan (tombstone id) h =
    unfold fold_op in
    record {
      upserts_map = remove-IsMap id scan.upserts h.upserts_map;
      upserts_keyed = remove-IsKeyed id scan.upserts h.upserts_keyed;
      pending_map = remove-IsMap id scan.pending_patches h.pending_map;
    }
fold_op-IsShaped seq scan (patch id ds) h =
    patch-IsShaped seq scan id ds (lookup id scan.upserts) refl h
fold_op-IsShaped seq scan (tombstone_where p) h =
    unfold fold_op in
    record {
      upserts_map = retain_values-IsMap _ scan.upserts h.upserts_map;
      upserts_keyed = retain_values-IsKeyed _ scan.upserts h.upserts_keyed;
      pending_map = h.pending_map;
    }
fold_op-IsShaped seq scan (guard n) h = unfold fold_op in h

fold_ops-IsShaped :
    (seq : ℕ) (scan : TailScan) (ops : List Op) → IsShaped scan → IsShaped (fold_ops seq scan ops)
unfolding fold_ops
fold_ops-IsShaped seq scan [] h = h
fold_ops-IsShaped seq scan (op ∷ ops) h =
    fold_ops-IsShaped seq (fold_op seq scan op) ops (fold_op-IsShaped seq scan op h)

fold_from-IsShaped :
    (scan : TailScan) (es : List WalEntry) → IsShaped scan → IsShaped (fold_from scan es)
unfolding fold_from fold_entry
fold_from-IsShaped scan [] h = h
fold_from-IsShaped scan (e ∷ es) h = fold_from-IsShaped (fold_entry scan e) es (
    fold_ops-IsShaped e.seq _ e.ops (record {
      upserts_map = h.upserts_map;
      upserts_keyed = h.upserts_keyed;
      pending_map = h.pending_map;
    }))

pub fold_entries-IsShaped : (es : List WalEntry) → IsShaped (fold_entries es)
unfolding fold_entries
fold_entries-IsShaped es =
    fold_from-IsShaped _ es (record { upserts_map = tt; upserts_keyed = tt; pending_map = tt })
