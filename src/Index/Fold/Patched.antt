-- ===== src/Index/Fold/Patched.antt =====
-- The items of a flush at one id: the slice's own, and those that it only patches.
use mathlib.Core.Path.{ap₂}
use memlake.Prelude.{
  ℕ, ◌≡◌, refl, ap, ◌∙◌, Bool, true, false, not, ◌&&◌, Option, none, some, List, [], ◌∷◌, ◌++◌, map,
  arith, ◌==◌, retain, contains, if◌then◌else◌, inl, inr, Option-cases, Bool-cases,
}
use memlake.Prelude.Results.{map_some}
use memlake.Prelude.Assoc.{Assoc, lookup}
use memlake.Core.Memory.{MemoryId, StoredMemory}
use memlake.Core.Wal.{Delta}
use memlake.Wal.Tail.{TailScan, apply_pending, apply_patches}
use memlake.Wal.Tail.Shape.{IsMap, IsKeyed, id-apply_deltas}
use memlake.Wal.Tail.Replay.{}
use memlake.Index.Segments.Live.{copies_of}
use memlake.Index.Node.{QueryNode, get_one, get_many}
use memlake.Index.Fold.{keys, patched_upserts, patch_only, flush_items}

-- A list of what is there.
abbrev pub as_list {ℓ} : {A : Type ℓ} → Option A → List A
as_list none = []
as_list (some a) = a ∷ []

pub copies_of-append :
    (j : MemoryId) (xs ys : List StoredMemory)
    → copies_of j (xs ++ ys) ≡ copies_of j xs ++ copies_of j ys
copies_of-append j [] ys = refl
copies_of-append j (x ∷ xs) ys = ground (arith, copies_of-append j xs ys)

id-apply_pending : (o : Option (List Delta)) (m : StoredMemory) → (apply_pending o m).id ≡ m.id
id-apply_pending none m = refl
id-apply_pending (some ds) m = id-apply_deltas m ds

copies-patched_upserts :
    (scan : TailScan) (m : Assoc StoredMemory) (j : MemoryId)
    → IsMap m
    → IsKeyed m
    → copies_of j (patched_upserts scan m)
      ≡ as_list (map_some (apply_pending (lookup j scan.pending_patches)) (lookup j m))
unfolding patched_upserts lookup
copies-patched_upserts scan [] j h k = refl
copies-patched_upserts scan ((id, item) ∷ m) j h k = ground (
  arith,
  h.0,
  k.0,
  id-apply_pending (lookup id scan.pending_patches) item,
  copies-patched_upserts scan m j h.1 k.1,
)

-- No id twice.
abbrev pub Distinct : List ℕ → Type 0
Distinct [] = Unit
Distinct (x ∷ xs) = (contains xs x ≡ false) × Distinct xs

contains-keys {ℓ} :
    {V : Type ℓ} (m : Assoc V) (j : ℕ) → lookup j m ≡ none → contains (keys m) j ≡ false
unfolding lookup
contains-keys [] j h = refl
contains-keys ((i, v) ∷ m) j h = ground (arith, contains-keys m j)

keys-Distinct {ℓ} : {V : Type ℓ} (m : Assoc V) → IsMap m → Distinct (keys m)
keys-Distinct [] h = tt
keys-Distinct ((i, v) ∷ m) h = (contains-keys m i h.0, keys-Distinct m h.1)

abbrev pub is_there {ℓ} : {A : Type ℓ} → Option A → Bool
is_there none = false
is_there (some a) = true

pub contains-keys_iff {ℓ} :
    {V : Type ℓ} (m : Assoc V) (j : ℕ) → contains (keys m) j ≡ is_there (lookup j m)
unfolding lookup
contains-keys_iff [] j = refl
contains-keys_iff ((i, v) ∷ m) j = ground (arith, contains-keys_iff m j)

pub contains-retain :
    (p : ℕ → Bool) (xs : List ℕ) (j : ℕ) → contains (retain p xs) j ≡ (contains xs j && p j)
contains-retain p [] j = refl
contains-retain p (x ∷ xs) j = elim (Bool-cases (x == j)) [
  | inl e ↦
      let same : p x ≡ p j = ap p (ground arith) in ground (arith, contains-retain p xs j, same)
  | inr e ↦ ground (arith, contains-retain p xs j)
]

retain-Distinct : (p : ℕ → Bool) (xs : List ℕ) → Distinct xs → Distinct (retain p xs)
retain-Distinct p [] h = tt
retain-Distinct p (x ∷ xs) h = elim (Bool-cases (p x)) [
  | inl e ↦ rw e (ground (arith, contains-retain p xs x, h.0), retain-Distinct p xs h.1)
  | inr e ↦ rw e (retain-Distinct p xs h.1)
]

patch_only-Distinct : (scan : TailScan) → IsMap scan.pending_patches → Distinct (patch_only scan)
unfolding patch_only
patch_only-Distinct scan h = retain-Distinct _ _ (keys-Distinct scan.pending_patches h)

-- An id is only patched when patches wait for it and the slice does not write it.
contains-patch_only :
    (scan : TailScan) (j : MemoryId)
    → contains (patch_only scan) j
      ≡ (is_there (lookup j scan.pending_patches) && not (is_there (lookup j scan.upserts)))
unfolding patch_only
contains-patch_only scan j = ground (
  arith,
  contains-retain (λ id. not (contains (keys scan.upserts) id)) (keys scan.pending_patches) j,
  contains-keys_iff scan.pending_patches j,
  contains-keys_iff scan.upserts j,
)

-- What a point read gives has the id that it was asked for.
abbrev pub AnswersIds : QueryNode → Type 0
AnswersIds node = (i : MemoryId) (m : StoredMemory) → get_one node i ≡ some m → m.id ≡ i

pub id-apply_patches : (scan : TailScan) (m : StoredMemory) → (apply_patches scan m).id ≡ m.id
unfolding apply_patches
id-apply_patches scan m = id-apply_pending (lookup m.id scan.pending_patches) m

copies-get_many :
    (scan : TailScan) (node : QueryNode) (ids : List MemoryId) (j : MemoryId)
    → AnswersIds node
    → Distinct ids
    → copies_of j (map (apply_patches scan) (get_many node ids))
      ≡ (if contains ids j then as_list (map_some (apply_patches scan) (get_one node j)) else [])
unfolding get_many
copies-get_many scan node [] j a d = refl
copies-get_many scan node (i ∷ ids) j a d = elim (Option-cases (get_one node i)) [
  | inl miss ↦ ground (arith, miss, d.0, copies-get_many scan node ids j a d.1)
  | inr (m, hit) ↦
      ground
        (arith, hit, d.0, a i m hit, id-apply_patches scan m, copies-get_many scan node ids j a d.1)
]

-- The copies of an id among a flush's items.
pub copies-flush_items :
    (scan : TailScan) (node : QueryNode) (j : MemoryId)
    → AnswersIds node
    → IsMap scan.upserts
    → IsKeyed scan.upserts
    → IsMap scan.pending_patches
    → copies_of j (flush_items scan node)
      ≡ as_list (map_some (apply_pending (lookup j scan.pending_patches)) (lookup j scan.upserts))
        ++ (if is_there (lookup j scan.pending_patches) && not (is_there (lookup j scan.upserts))
            then as_list (map_some (apply_patches scan) (get_one node j))
            else [])
unfolding flush_items
copies-flush_items scan node j a h k p =
    copies_of-append j (patched_upserts scan scan.upserts)
      (map (apply_patches scan) (get_many node (patch_only scan)))
    ∙ ap₂ (λ (xs ys : List StoredMemory). xs ++ ys) (copies-patched_upserts scan scan.upserts j h k)
        (copies-get_many scan node (patch_only scan) j a (patch_only-Distinct scan p)
          ∙ ap (λ b. if b then as_list (map_some (apply_patches scan) (get_one node j)) else [])
              (contains-patch_only scan j))
