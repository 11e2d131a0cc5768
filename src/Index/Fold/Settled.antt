-- ===== src/Index/Fold/Settled.antt =====
-- How far the slot of an id and the predicate deletes so far agree with the replay.
use mathlib.Core.List.{append-nil, append_assoc}
use memlake.Prelude.{
  ℕ, ◌≤◌, ◌≡◌, ◌⊎◌, refl, ap, ◌∙◌, true, false, not, Option, none, some, List, [], ◌∷◌, ◌++◌, arith,
  ◌==◌, all, All, All-append, inl, inr, Option-cases, Bool-cases,
}
use memlake.Prelude.Assoc.{keep_if}
use memlake.Core.Memory.{MemoryId, Memory, StoredMemory}
use memlake.Core.Predicate.{Predicate}
use memlake.Core.Wal.{Op, upsert, tombstone, patch, tombstone_where, guard}
use memlake.Wal.Tail.{stored_at, kills, killed_by}
use memlake.Wal.Tail.Slot.{Slot, slot_step, slot_ops, predicates_of, predicates_of-cons}
use memlake.Wal.Tail.Replay.{replay_op, replay_ops}
use memlake.Index.Fold.Resolve.{
  IsSettled, resolve, no_patch_of, no_upsert_of, killed_by-append, killed_by-one,
  killed_by-stored_at,
}

pub IsSettled-upsert :
    (seq : ℕ) (s : Slot) (ps : List (ℕ × Predicate)) (v : Option StoredMemory) (m : Memory)
    → All (λ sp. sp.0 ≤ seq) ps
    → IsSettled
        (record { up = some (stored_at seq m); dead = false; pending = none })
        ps
        seq
        none
        (some (stored_at seq m))
IsSettled-upsert seq s ps v m h =
    let spared = killed_by-stored_at ps seq m h in
    record {
      unpatched = refl;
      apart = inl refl;
      survives = λ x e. ground (arith, spared);
      alive = inr refl;
      earlier = h;
      agrees = rw spared;
    }

-- `v` without what a predicate kills.
abbrev pub spare : ℕ → Predicate → Option StoredMemory → Option StoredMemory
spare seq p v = keep_if (λ m. not (kills seq p m)) v

pub resolve-where :
    (seq : ℕ) (p : Predicate) (s : Slot) (ps : List (ℕ × Predicate)) (base : Option StoredMemory)
    → s.pending ≡ none
    → (base ≡ none) ⊎ (s.up ≡ none)
    → ((m : StoredMemory) → s.up ≡ some m → killed_by ps m ≡ false)
    → (s.up ≡ none) ⊎ (s.dead ≡ false)
    → resolve (record s { up = spare seq p s.up }) (ps ++ (seq, p) ∷ []) base
      ≡ spare seq p (resolve s ps base)
resolve-where seq p s ps none u a k l = elim (Option-cases s.up) [
  | inl e ↦ ground (arith, e, u)
  | inr (m, e) ↦
      ground (arith, e, u, k m e, killed_by-append ps ((seq, p) ∷ []) m, killed_by-one seq p m)
]
resolve-where seq p s ps (some b) u a k l =
    ground (arith, u, killed_by-append ps ((seq, p) ∷ []) b, killed_by-one seq p b)

pub IsSettled-where :
    (seq : ℕ) (p : Predicate) (s : Slot) (ps : List (ℕ × Predicate)) (base v : Option StoredMemory)
    → IsSettled s ps seq base v
    → IsSettled (record s { up = spare seq p s.up }) (ps ++ (seq, p) ∷ []) seq base (spare seq p v)
IsSettled-where seq p s ps base v t = record {
  unpatched = t.unpatched;
  apart = ground (arith, t.apart);
  survives = λ m e.
      ground (arith, t.survives m, killed_by-append ps ((seq, p) ∷ []) m, killed_by-one seq p m);
  alive = ground (arith, t.alive);
  earlier = All-append _ ps ((seq, p) ∷ []) t.earlier (omega arith);
  agrees =
      resolve-where seq p s ps base t.unpatched t.apart t.survives t.alive
      ∙ ap (spare seq p) t.agrees;
}

pub IsSettled-dead :
    (seq : ℕ) (ps : List (ℕ × Predicate)) (base : Option StoredMemory)
    → All (λ sp. sp.0 ≤ seq) ps
    → IsSettled (record { up = none; dead = true; pending = none }) ps seq base none
IsSettled-dead seq ps base h = record {
  unpatched = refl;
  apart = inr refl;
  survives = λ m e. cc;
  alive = inl refl;
  earlier = h;
  agrees = refl;
}

pub IsSettled-step :
    (seq : ℕ) (j : MemoryId) (s : Slot) (ps : List (ℕ × Predicate)) (base v : Option StoredMemory)
    (op : Op)
    → (base ≡ none) ⊎ (no_upsert_of j op ≡ true)
    → no_patch_of j op ≡ true
    → IsSettled s ps seq base v
    → IsSettled
        (slot_step seq j s op)
        (ps ++ predicates_of seq (op ∷ []))
        seq
        base
        (replay_op seq j v op)
unfolding slot_step predicates_of replay_op
IsSettled-step seq j s ps base v (upsert m) b h t = elim (Bool-cases (m.id == j)) [
  | inl e ↦
      let fresh : base ≡ none = ground arith in
      rw (e, append-nil ps, fresh) (IsSettled-upsert seq s ps v m t.earlier)
  | inr e ↦ rw (e, append-nil ps) t
]
IsSettled-step seq j s ps base v (tombstone id) b h t = elim (Bool-cases (id == j)) [
  | inl e ↦ rw (e, append-nil ps) (IsSettled-dead seq ps base t.earlier)
  | inr e ↦ rw (e, append-nil ps) t
]
IsSettled-step seq j s ps base v (patch id ds) b h t = elim (Bool-cases (id == j)) [
  | inl e ↦ absurd (ground arith)
  | inr e ↦ rw (e, append-nil ps) t
]
IsSettled-step seq j s ps base v (tombstone_where p) b h t = IsSettled-where seq p s ps base v t
IsSettled-step seq j s ps base v (guard n) b h t = rw (append-nil ps) t

pub earlier_mono :
    (a b : ℕ) (ps : List (ℕ × Predicate))
    → a ≤ b
    → All (λ sp. sp.0 ≤ a) ps
    → All (λ sp. sp.0 ≤ b) ps
earlier_mono a b [] le h = tt
earlier_mono a b (sp ∷ ps) le h = (omega arith, earlier_mono a b ps le h.1)

pub IsSettled-mono :
    (a b : ℕ) (s : Slot) (ps : List (ℕ × Predicate)) (base v : Option StoredMemory)
    → a ≤ b
    → IsSettled s ps a base v
    → IsSettled s ps b base v
IsSettled-mono a b s ps base v le t = record {
  unpatched = t.unpatched;
  apart = t.apart;
  survives = t.survives;
  alive = t.alive;
  earlier = earlier_mono a b ps le t.earlier;
  agrees = t.agrees;
}

-- The slice writes `j` only where no older copy is live.
abbrev pub WritesFresh : Option StoredMemory → MemoryId → List Op → Type 0
WritesFresh base j ops = (base ≡ none) ⊎ (all (no_upsert_of j) ops ≡ true)

pub IsSettled-ops :
    (seq : ℕ) (j : MemoryId) (s : Slot) (ps : List (ℕ × Predicate)) (base v : Option StoredMemory)
    (ops : List Op)
    → WritesFresh base j ops
    → all (no_patch_of j) ops ≡ true
    → IsSettled s ps seq base v
    → IsSettled
        (slot_ops seq j s ops)
        (ps ++ predicates_of seq ops)
        seq
        base
        (replay_ops seq j v ops)
unfolding slot_ops replay_ops
IsSettled-ops seq j s ps base v [] b h t = unfold predicates_of in rw (append-nil ps) t
IsSettled-ops seq j s ps base v (op ∷ ops) b h t =
    let now = IsSettled-step seq j s ps base v op (ground arith) (ground arith) t in
    let later =
      IsSettled-ops seq j (slot_step seq j s op) (ps ++ predicates_of seq (op ∷ [])) base
        (replay_op seq j v op) ops (ground arith) (ground arith) now in
    rw
      (
        ← predicates_of-cons seq op ops,
        ← append_assoc ps (predicates_of seq (op ∷ [])) (predicates_of seq ops),
      )
      later
