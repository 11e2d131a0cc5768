-- ===== src/Index/Segments/Live.antt =====
-- The live set at one id: the first copy that no overlay has superseded.
use memlake.Prelude.{
  ℕ, ◌≡◌, refl, sym, ap, ◌∙◌, not, ◌||◌, Option, none, some, List, [], ◌∷◌, ◌++◌, arith, max, ltb,
  ◌==◌, retain, contains, All, ◌≤◌, ◌<◌, if◌then◌else◌,
}
use memlake.Prelude.Assoc.{
  Assoc, lookup, insert, keep_if, lookup-insert, lookup-retain_values, lookup-empty,
}
use memlake.Core.Memory.{MemoryId, StoredMemory, or_else}
use memlake.Core.Manifest.{Segment}
use memlake.Wal.Tail.{killed_by}
use memlake.Index.Segments.{
  raise_to, contains_key, kill_ids, kill_from, kill_map, seg_predicates, stale, collect_items,
  collect, live_items,
}

abbrev pub head? {ℓ} : {A : Type ℓ} → List A → Option A
head? [] = none
head? (x ∷ xs) = some x

-- The copies of an id in one segment's items, and those that are not stale in all segments.
abbrev pub copies_of : MemoryId → List StoredMemory → List StoredMemory
copies_of j items = retain (λ m. m.id == j) items

unfoldable pub fresh_copies : Assoc ℕ → MemoryId → List Segment → List StoredMemory
fresh_copies kill j [] = []
fresh_copies kill j (seg ∷ segs) =
    (if stale kill j seg.seq_hi then [] else copies_of j seg.items) ++ fresh_copies kill j segs

pub head?-append : (xs ys : List StoredMemory) → head? (xs ++ ys) ≡ or_else (head? xs) (head? ys)
head?-append [] ys = refl
head?-append (x ∷ xs) ys = refl

-- one round of the loop: the first copy is taken, unless it is stale
abbrev pub take_item : Assoc ℕ → ℕ → StoredMemory → Assoc StoredMemory → Assoc StoredMemory
take_item kill hi item by_id =
    if contains_key item.id by_id || stale kill item.id hi then by_id else insert item.id item by_id

lookup-take_item :
    (kill : Assoc ℕ) (hi : ℕ) (item : StoredMemory) (by_id : Assoc StoredMemory) (j : MemoryId)
    (rest : List StoredMemory)
    → or_else
        (lookup j (take_item kill hi item by_id))
        (head? (if stale kill j hi then [] else rest))
      ≡ or_else
          (lookup j by_id)
          (head? (if stale kill j hi then [] else if item.id == j then item ∷ rest else rest))
lookup-take_item kill hi item by_id j rest = ground (arith, lookup-insert item.id j item by_id)

or_else-none : (o : Option StoredMemory) → o ≡ or_else o none
or_else-none none = refl
or_else-none (some m) = refl

lookup-collect_items :
    (kill : Assoc ℕ) (hi : ℕ) (items : List StoredMemory) (by_id : Assoc StoredMemory)
    (j : MemoryId)
    → lookup j (collect_items kill hi items by_id)
      ≡ or_else (lookup j by_id) (head? (if stale kill j hi then [] else copies_of j items))
unfolding collect_items
lookup-collect_items kill hi [] by_id j = ground (arith, or_else-none (lookup j by_id))
lookup-collect_items kill hi (item ∷ items) by_id j =
    lookup-collect_items kill hi items (take_item kill hi item by_id) j
    ∙ lookup-take_item kill hi item by_id j (copies_of j items)

or_else_assoc : (a b c : Option StoredMemory) → or_else (or_else a b) c ≡ or_else a (or_else b c)
or_else_assoc none b c = refl
or_else_assoc (some m) b c = refl

lookup-collect :
    (kill : Assoc ℕ) (segs : List Segment) (by_id : Assoc StoredMemory) (j : MemoryId)
    → lookup j (collect kill segs by_id)
      ≡ or_else (lookup j by_id) (head? (fresh_copies kill j segs))
unfolding collect fresh_copies
lookup-collect kill [] by_id j = or_else-none (lookup j by_id)
lookup-collect kill (seg ∷ segs) by_id j =
    let own = if stale kill j seg.seq_hi then [] else copies_of j seg.items in
    let old = fresh_copies kill j segs in
    lookup-collect kill segs (collect_items kill seg.seq_hi seg.items by_id) j
    ∙ ap (λ o. or_else o (head? old)) (lookup-collect_items kill seg.seq_hi seg.items by_id j)
    ∙ or_else_assoc (lookup j by_id) (head? own) (head? old)
    ∙ ap (or_else (lookup j by_id)) (sym (head?-append own old))

pub lookup-live_items-collect :
    (segs : List Segment) (j : MemoryId)
    → lookup j (live_items segs)
      ≡ keep_if
          (λ m. not (killed_by (seg_predicates segs) m))
          (head? (fresh_copies (kill_map segs) j segs))
unfolding live_items lookup
lookup-live_items-collect segs j =
    lookup-retain_values _ j (collect (kill_map segs) segs [])
    ∙ ap (keep_if _) (lookup-collect (kill_map segs) segs [] j)

-- How the overlay of one more segment changes what is stale.
lookup-kill_ids :
    (hi : ℕ) (ids : List MemoryId) (kill : Assoc ℕ) (j : MemoryId)
    → lookup j (kill_ids hi ids kill)
      ≡ (if contains ids j then some (raise_to (lookup j kill) hi) else lookup j kill)
unfolding kill_ids
lookup-kill_ids hi [] kill j = refl
lookup-kill_ids hi (id ∷ ids) kill j = ground (
  arith,
  lookup-kill_ids hi ids (insert id (raise_to (lookup id kill) hi) kill) j,
  lookup-insert id j (raise_to (lookup id kill) hi) kill,
)

-- The sequence that kills the older copies of `j`, 0 where none does.
abbrev pub level : Option ℕ → ℕ
level none = 0
level (some s) = s

unfoldable pub seg_level : List Segment → MemoryId → ℕ
seg_level [] j = 0
seg_level (seg ∷ segs) j =
    max (if contains seg.tombstones.superseded j then seg.seq_hi else 0) (seg_level segs j)

level-kill_from :
    (segs : List Segment) (kill : Assoc ℕ) (j : MemoryId)
    → level (lookup j (kill_from segs kill)) ≡ max (level (lookup j kill)) (seg_level segs j)
unfolding kill_from seg_level
level-kill_from [] kill j = omega arith
level-kill_from (seg ∷ segs) kill j = ground (
  arith,
  level-kill_from segs (kill_ids seg.seq_hi seg.tombstones.superseded kill) j,
  lookup-kill_ids seg.seq_hi seg.tombstones.superseded kill j,
)

pub stale-kill_map :
    (segs : List Segment) (j : MemoryId) (hi : ℕ)
    → stale (kill_map segs) j hi ≡ ltb hi (seg_level segs j)
unfolding stale
stale-kill_map segs j hi = ground (arith, level-kill_from segs [] j, lookup-empty {V = ℕ} j)

-- The copies of `j` that a kill at sequence `k` leaves.
unfoldable pub copies_above : ℕ → MemoryId → List Segment → List StoredMemory
copies_above k j [] = []
copies_above k j (seg ∷ segs) =
    (if ltb seg.seq_hi k then [] else copies_of j seg.items) ++ copies_above k j segs

fresh_copies-level :
    (segs : List Segment) (j : MemoryId) (kill : Assoc ℕ) (k : ℕ)
    → ((hi : ℕ) → stale kill j hi ≡ ltb hi k)
    → fresh_copies kill j segs ≡ copies_above k j segs
unfolding fresh_copies copies_above
fresh_copies-level [] j kill k h = refl
fresh_copies-level (seg ∷ segs) j kill k h =
    ground (arith, h seg.seq_hi, fresh_copies-level segs j kill k h)

-- The live copies of an id: at most one in a well-formed list of segments.
abbrev pub live_copies : List Segment → MemoryId → List StoredMemory
live_copies segs j = copies_above (seg_level segs j) j segs

pub fresh_copies-eq-live_copies :
    (segs : List Segment) (j : MemoryId) → fresh_copies (kill_map segs) j segs ≡ live_copies segs j
fresh_copies-eq-live_copies segs j =
    fresh_copies-level segs j (kill_map segs) (seg_level segs j) (stale-kill_map segs j)

-- Every segment ends at or below sequence `k`.
abbrev pub EndsBy : ℕ → List Segment → Type 0
EndsBy k segs = All (λ seg. seg.seq_hi ≤ k) segs

seg_level-le : (k : ℕ) (segs : List Segment) (j : MemoryId) → EndsBy k segs → seg_level segs j ≤ k
unfolding seg_level
seg_level-le k [] j h = omega arith
seg_level-le k (seg ∷ segs) j h = ground (arith, seg_level-le k segs j h.1)

copies_above-killed :
    (k : ℕ) (hi : ℕ) (segs : List Segment) (j : MemoryId)
    → EndsBy k segs
    → k < hi
    → copies_above hi j segs ≡ []
unfolding copies_above
copies_above-killed k hi [] j h lt = refl
copies_above-killed k hi (seg ∷ segs) j h lt =
    ground (arith, copies_above-killed k hi segs j h.1 lt)

-- A newer segment in front: its own copies, then the older ones unless its overlay has the id.
pub live_copies-cons :
    (new : Segment) (k : ℕ) (segs : List Segment) (j : MemoryId)
    → EndsBy k segs
    → k < new.seq_hi
    → live_copies (new ∷ segs) j
      ≡ copies_of j new.items
        ++ (if contains new.tombstones.superseded j then [] else live_copies segs j)
unfolding copies_above seg_level
live_copies-cons new k segs j h lt =
    ground (arith, seg_level-le k segs j h, copies_above-killed k new.seq_hi segs j h lt)
