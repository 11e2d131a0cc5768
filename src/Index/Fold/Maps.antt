-- ===== src/Index/Fold/Maps.antt =====
-- The maps that the rebuild `index` goes through, at one id, and that they stay maps.
use memlake.Prelude.{
  ℕ, ◌≡◌, refl, ap, ◌∙◌, Bool, ◌||◌, none, List, [], ◌∷◌, arith, contains, if◌then◌else◌, inl, inr,
  Bool-cases,
}
use memlake.Prelude.Results.{map_some}
use memlake.Prelude.Assoc.{
  Assoc, lookup, remove, retain_values, insert, lookup-insert, lookup-remove,
}
use memlake.Core.Memory.{MemoryId, StoredMemory, or_else}
use memlake.Core.Manifest.{Segment}
use memlake.Wal.Tail.{TailScan, apply_patches}
use memlake.Wal.Tail.Shape.{
  IsMap, IsKeyed, remove-IsMap, remove-IsKeyed, insert-IsMap, insert-IsKeyed, retain_values-IsMap,
  retain_values-IsKeyed,
}
use memlake.Wal.Tail.Replay.{}
use memlake.Index.Segments.{stale, contains_key, kill_map, collect_items, collect, live_items}
use memlake.Index.Segments.Live.{take_item}
use memlake.Index.Fold.{remove_ids, insert_all, patch_values}
use memlake.Index.Fold.Patched.{id-apply_patches}

pub lookup-remove_ids :
    (ids : List MemoryId) (m : Assoc StoredMemory) (j : MemoryId)
    → lookup j (remove_ids ids m) ≡ (if contains ids j then none else lookup j m)
unfolding remove_ids
lookup-remove_ids [] m j = refl
lookup-remove_ids (id ∷ ids) m j =
    ground (arith, lookup-remove_ids ids (remove id m) j, lookup-remove id j m)

pub lookup-insert_all :
    (ups m : Assoc StoredMemory) (j : MemoryId)
    → IsMap ups
    → lookup j (insert_all ups m) ≡ or_else (lookup j ups) (lookup j m)
unfolding insert_all lookup
lookup-insert_all [] m j h = refl
lookup-insert_all ((i, v) ∷ ups) m j h =
    ground (arith, h.0, lookup-insert_all ups (insert i v m) j h.1, lookup-insert i j v m)

pub lookup-patch_values :
    (scan : TailScan) (m : Assoc StoredMemory) (j : MemoryId)
    → lookup j (patch_values scan m) ≡ map_some (apply_patches scan) (lookup j m)
unfolding patch_values lookup
lookup-patch_values scan [] j = refl
lookup-patch_values scan ((i, v) ∷ m) j = ground (arith, lookup-patch_values scan m j)

-- The maps that the rebuild goes through are maps, keyed by the items' ids.
abbrev pub IsGood : Assoc StoredMemory → Type 0
IsGood m = IsMap m × IsKeyed m

pub remove_ids-IsGood :
    (ids : List MemoryId) (m : Assoc StoredMemory) → IsGood m → IsGood (remove_ids ids m)
unfolding remove_ids
remove_ids-IsGood [] m h = h
remove_ids-IsGood (i ∷ ids) m h =
    remove_ids-IsGood ids (remove i m) (remove-IsMap i m h.0, remove-IsKeyed i m h.1)

pub insert_all-IsGood :
    (ups m : Assoc StoredMemory) → IsKeyed ups → IsGood m → IsGood (insert_all ups m)
unfolding insert_all
insert_all-IsGood [] m k h = h
insert_all-IsGood ((i, v) ∷ ups) m k h =
    insert_all-IsGood ups (insert i v m) k.1 (insert-IsMap i v m h.0, insert-IsKeyed i v m k.0 h.1)

pub retain-IsGood :
    (p : StoredMemory → Bool) (m : Assoc StoredMemory) → IsGood m → IsGood (retain_values p m)
retain-IsGood p m h = (retain_values-IsMap p m h.0, retain_values-IsKeyed p m h.1)

pub patch_values-IsGood :
    (scan : TailScan) (m : Assoc StoredMemory) → IsGood m → IsGood (patch_values scan m)
unfolding patch_values
patch_values-IsGood scan [] h = h
patch_values-IsGood scan ((i, v) ∷ m) h =
    let rest = patch_values-IsGood scan m (h.0.1, h.1.1) in
    (
      (lookup-patch_values scan m i ∙ ap (map_some (apply_patches scan)) h.0.0, rest.0),
      (id-apply_patches scan v ∙ h.1.0, rest.1),
    )

take_item-IsGood :
    (kill : Assoc ℕ) (hi : ℕ) (item : StoredMemory) (m : Assoc StoredMemory)
    → IsGood m
    → IsGood (take_item kill hi item m)
take_item-IsGood kill hi item m h =
    elim (Bool-cases (contains_key item.id m || stale kill item.id hi)) [
      | inl skip ↦ rw skip h
      | inr take ↦ rw take (insert-IsMap item.id item m h.0, insert-IsKeyed item.id item m refl h.1)
    ]

collect_items-IsGood :
    (kill : Assoc ℕ) (hi : ℕ) (items : List StoredMemory) (m : Assoc StoredMemory)
    → IsGood m
    → IsGood (collect_items kill hi items m)
unfolding collect_items
collect_items-IsGood kill hi [] m h = h
collect_items-IsGood kill hi (x ∷ items) m h =
    collect_items-IsGood kill hi items (take_item kill hi x m) (take_item-IsGood kill hi x m h)

pub collect-IsGood :
    (kill : Assoc ℕ) (segs : List Segment) (m : Assoc StoredMemory)
    → IsGood m
    → IsGood (collect kill segs m)
unfolding collect
collect-IsGood kill [] m h = h
collect-IsGood kill (seg ∷ segs) m h =
    collect-IsGood kill segs (collect_items kill seg.seq_hi seg.items m)
      (collect_items-IsGood kill seg.seq_hi seg.items m h)

pub live_items-IsGood : (segs : List Segment) → IsGood (live_items segs)
unfolding live_items
live_items-IsGood segs =
    retain-IsGood _ (collect (kill_map segs) segs [])
      (collect-IsGood (kill_map segs) segs [] (tt, tt))
