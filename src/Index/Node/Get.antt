-- ===== src/Index/Node/Get.antt =====
-- What `get_one` finds in the segments, when they hold at most one live copy of each id.
use mathlib.Core.Path.{ap₂}
use memlake.Prelude.{
  ℕ, ◌≤◌, ◌≡◌, ◌⊎◌, refl, sym, ap, ◌∙◌, Bool, true, false, not, ◌||◌, Option, none, some, List, [],
  ◌∷◌, ◌++◌, map, arith, ltb, ◌==◌, length, retain, contains, contains-append, if◌then◌else◌, inl,
  inr, Option-cases, Bool-cases,
}
use memlake.Prelude.Assoc.{lookup, keep_if}
use memlake.Prelude.Sort.{sort_by, any-sort_by, contains-dedup}
use memlake.Core.Memory.{MemoryId, StoredMemory, or_else, sort_ids}
use memlake.Core.Manifest.{Segment}
use memlake.Core.Predicate.{Predicate}
use memlake.Wal.Tail.{TailScan, killed_by}
use memlake.Wal.Tail.Shape.{IsKeyed, id-lookup}
use memlake.Index.Segments.{seg_predicates}
use memlake.Index.Segments.Live.{
  head?, head?-append, copies_of, live_copies, copies_above, seg_level, stale-kill_map,
}
use memlake.Index.Node.{
  QueryNode, types_of, segment_types, open_node, hidden, superseded, find_item, find_in_segments,
  find_in_types, get_one,
}

-- the part of one fact type
abbrev of_type : ℕ → List StoredMemory → List StoredMemory
of_type ft ms = retain (λ m. m.memory_type == ft) ms

of_type-append :
    (ft : ℕ) (xs ys : List StoredMemory) → of_type ft (xs ++ ys) ≡ of_type ft xs ++ of_type ft ys
of_type-append ft [] ys = refl
of_type-append ft (x ∷ xs) ys = ground (arith, of_type-append ft xs ys)

find_item-copies :
    (j ft : ℕ) (ms : List StoredMemory) → find_item j ft ms ≡ head? (of_type ft (copies_of j ms))
unfolding find_item
find_item-copies j ft [] = refl
find_item-copies j ft (m ∷ ms) = ground (arith, find_item-copies j ft ms)

find_in_segments-copies :
    (node : QueryNode) (j ft k : ℕ) (segs : List Segment)
    → ((hi : ℕ) → superseded node j hi ≡ ltb hi k)
    → find_in_segments node j ft segs ≡ head? (of_type ft (copies_above k j segs))
unfolding find_in_segments copies_above
find_in_segments-copies node j ft k [] h = refl
find_in_segments-copies node j ft k (seg ∷ segs) h =
    let own = if ltb seg.seq_hi k then [] else copies_of j seg.items in
    let old = copies_above k j segs in
    ground (
      arith,
      h seg.seq_hi,
      find_item-copies j ft seg.items,
      find_in_segments-copies node j ft k segs h,
      head?-append (of_type ft own) (of_type ft old),
      of_type-append ft own old,
    )

head?-of_type_one :
    (ft : ℕ) (m : StoredMemory)
    → head? (of_type ft (m ∷ [])) ≡ (if m.memory_type == ft then some m else none)
head?-of_type_one ft m = ground arith

module _ (node : QueryNode) (j k : ℕ) (h : (hi : ℕ) → superseded node j hi ≡ ltb hi k) where
  find_in_types-none :
      (fts : List ℕ) → copies_above k j node.segments ≡ [] → find_in_types node j fts ≡ none
  unfolding find_in_types
  find_in_types-none [] e = refl
  find_in_types-none (ft ∷ fts) e =
      rw (find_in_segments-copies node j ft k node.segments h, e) (find_in_types-none fts e)

  find_in_types_one :
      (fts : List ℕ) (m : StoredMemory)
      → copies_above k j node.segments ≡ m ∷ []
      → contains fts m.memory_type ≡ true
      → find_in_types node j fts ≡ some m
  unfolding find_in_types
  find_in_types_one [] m e c = cc
  find_in_types_one (ft ∷ fts) m e c =
      rw (find_in_segments-copies node j ft k node.segments h, e)
        (ground (arith, head?-of_type_one ft m, find_in_types_one fts m e))

types-head :
    (j : ℕ) (ms : List StoredMemory) (m : StoredMemory)
    → head? (copies_of j ms) ≡ some m
    → contains (types_of ms) m.memory_type ≡ true
types-head j [] m e = cc
types-head j (x ∷ ms) m e = ground (arith, types-head j ms m)

segment_types-head :
    (k j : ℕ) (segs : List Segment) (m : StoredMemory)
    → head? (copies_above k j segs) ≡ some m
    → contains (segment_types segs) m.memory_type ≡ true
unfolding copies_above segment_types
segment_types-head k j [] m e = cc
segment_types-head k j (seg ∷ segs) m e =
    let own = if ltb seg.seq_hi k then [] else copies_of j seg.items in
    ground (
      arith,
      head?-append own (copies_above k j segs),
      contains-append (types_of seg.items) (segment_types segs) m.memory_type,
      types-head j seg.items m,
      segment_types-head k j segs m,
    )

-- At most one live copy of an id, across all segments.
abbrev pub IsSharp : List Segment → Type 0
IsSharp segs = (j : MemoryId) → length (live_copies segs j) ≤ 1

pub List-one {ℓ} :
    {A : Type ℓ} (xs : List A) → length xs ≤ 1 → (xs ≡ []) ⊎ ((x : A) × (xs ≡ x ∷ []))
List-one [] h = inl refl
List-one (x ∷ []) h = inr (x, refl)
List-one (x ∷ y ∷ xs) h = absurd (omega arith)

superseded-open :
    (segs : List Segment) (scan : TailScan) (j hi : ℕ)
    → contains scan.tombstones j ≡ false
    → superseded (open_node segs scan) j hi ≡ ltb hi (seg_level segs j)
unfolding superseded open_node
superseded-open segs scan j hi alive = rw alive (stale-kill_map segs j hi)

pub contains-sort_ids : (a : ℕ) (xs : List ℕ) → contains (sort_ids xs) a ≡ contains xs a
unfolding sort_ids
contains-sort_ids a xs = contains-dedup a (sort_by ltb xs) ∙ any-sort_by ltb (λ x. x == a) xs

types-open :
    (segs : List Segment) (scan : TailScan) (a : ℕ)
    → contains (segment_types segs) a ≡ true
    → contains (open_node segs scan).types a ≡ true
unfolding open_node
types-open segs scan a h =
    let tail = map (λ (e : ℕ × StoredMemory). e.1.memory_type) scan.upserts in
    contains-sort_ids a (segment_types segs ++ tail)
    ∙ contains-append (segment_types segs) tail a
    ∙ ap (λ b. b || contains tail a) h

-- The search by fact type finds the one live copy.
pub find_in_types-open :
    (segs : List Segment) (scan : TailScan) (j : MemoryId)
    → IsSharp segs
    → contains scan.tombstones j ≡ false
    → find_in_types (open_node segs scan) j (open_node segs scan).types ≡ head? (live_copies segs j)
find_in_types-open segs scan j sharp alive =
    let node = open_node segs scan in
    let h : (hi : ℕ) → superseded node j hi ≡ ltb hi (seg_level segs j) =
      λ hi. superseded-open segs scan j hi alive in
    elim (List-one (live_copies segs j) (sharp j)) [
      | inl e ↦
          rw e (find_in_types-none node j (seg_level segs j) h node.types (unfold open_node in e))
      | inr (m, e) ↦ rw e (
          find_in_types_one node j (seg_level segs j) h node.types m (unfold open_node in e) (
            types-open segs scan m.memory_type
              (segment_types-head (seg_level segs j) j segs m (ap head? e))))
    ]

pub id-head :
    (k j : ℕ) (segs : List Segment) (m : StoredMemory)
    → head? (copies_above k j segs) ≡ some m
    → m.id ≡ j
unfolding copies_above
id-head k j [] m e = cc
id-head k j (seg ∷ segs) m e =
    let own = if ltb seg.seq_hi k then [] else copies_of j seg.items in
    ground
      (arith, head?-append own (copies_above k j segs), id-head_own seg.items, id-head k j segs m)
  where
    id-head_own : (ms : List StoredMemory) → head? (copies_of j ms) ≡ some m → m.id ≡ j
    id-head_own [] e = cc
    id-head_own (x ∷ ms) e = ground (arith, id-head_own ms)

keep_if_cong :
    (p q : StoredMemory → Bool) (o : Option StoredMemory)
    → ((m : StoredMemory) → o ≡ some m → p m ≡ q m)
    → keep_if p o ≡ keep_if q o
keep_if_cong p q none h = refl
keep_if_cong p q (some m) h = ground (arith, h m refl)

-- The node's own copy of an id: the tail's, or the live one of the segments.
abbrev pub node_copy : List Segment → TailScan → MemoryId → Option StoredMemory
node_copy segs scan j = or_else (lookup j scan.upserts) (head? (live_copies segs j))

id-node_copy :
    (segs : List Segment) (scan : TailScan) (j : MemoryId) (m : StoredMemory)
    → IsKeyed scan.upserts
    → node_copy segs scan j ≡ some m
    → m.id ≡ j
id-node_copy segs scan j m keyed e = elim (Option-cases (lookup j scan.upserts)) [
  | inl miss ↦ id-head (seg_level segs j) j segs m (ground arith)
  | inr (x, hit) ↦ id-lookup j scan.upserts m keyed (ground arith)
]

get_one-dead :
    (node : QueryNode) (j : MemoryId) → contains node.tombstones j ≡ true → get_one node j ≡ none
unfolding get_one
get_one-dead node j dead = rw dead

get_one-alive :
    (node : QueryNode) (j : MemoryId)
    → contains node.tombstones j ≡ false
    → get_one node j
      ≡ keep_if
          (λ m. not (hidden node m))
          (or_else (lookup j node.tail_items) (find_in_types node j node.types))
unfolding get_one
get_one-alive node j alive = rw alive

hidden-open :
    (segs : List Segment) (scan : TailScan) (m : StoredMemory)
    → contains scan.tombstones m.id ≡ false
    → not (hidden (open_node segs scan) m)
      ≡ not (killed_by (scan.predicate_tombstones ++ seg_predicates segs) m)
unfolding hidden open_node
hidden-open segs scan m alive = rw alive

tail_items-open :
    (segs : List Segment) (scan : TailScan) (j : MemoryId)
    → lookup j (open_node segs scan).tail_items ≡ lookup j scan.upserts
unfolding open_node
tail_items-open segs scan j = refl

-- The predicate deletes that a node applies: the tail's and the segments'.
abbrev pub node_predicates : List Segment → TailScan → List (ℕ × Predicate)
node_predicates segs scan = scan.predicate_tombstones ++ seg_predicates segs

module _ (segs : List Segment) (scan : TailScan) (j : MemoryId) (sharp : IsSharp segs)
    (keyed : IsKeyed scan.upserts) where
  get_one-open_alive :
      contains scan.tombstones j ≡ false
      → get_one (open_node segs scan) j
        ≡ keep_if (λ m. not (killed_by (node_predicates segs scan) m)) (node_copy segs scan j)
  get_one-open_alive alive =
      get_one-alive (open_node segs scan) j (unfold open_node in alive)
      ∙ ap₂ (λ o o'. keep_if (λ m. not (hidden (open_node segs scan) m)) (or_else o o'))
          (tail_items-open segs scan j) (find_in_types-open segs scan j sharp alive)
      ∙ keep_if_cong (λ m. not (hidden (open_node segs scan) m))
          (λ m. not (killed_by (node_predicates segs scan) m)) (node_copy segs scan j)
          (λ m e.
            hidden-open segs scan m
              (ap (contains scan.tombstones) (id-node_copy segs scan j m keyed e) ∙ alive))

  -- A node opens segments with at most one live copy of each id, with a scan whose writes stand
  -- under their own ids: a point read gives the node's copy, unless the tail deletes the id or a
  -- predicate kills the copy.
  pub get_one-open : get_one (open_node segs scan) j ≡ (
      if contains scan.tombstones j
      then none
      else keep_if (λ m. not (killed_by (node_predicates segs scan) m)) (node_copy segs scan j))
  get_one-open = elim (Bool-cases (contains scan.tombstones j)) [
    | inl dead ↦ rw dead (get_one-dead (open_node segs scan) j (unfold open_node in dead))
    | inr alive ↦ rw alive (get_one-open_alive alive)
  ]

pub keep_if-some :
    (p : StoredMemory → Bool) (o : Option StoredMemory) (m : StoredMemory)
    → keep_if p o ≡ some m
    → o ≡ some m
keep_if-some p none m e = cc
keep_if-some p (some x) m e = ground arith

-- A point read answers with the id that it was asked for.
pub id-get_one :
    (segs : List Segment) (scan : TailScan) (j : MemoryId) (m : StoredMemory)
    → IsSharp segs
    → IsKeyed scan.upserts
    → get_one (open_node segs scan) j ≡ some m
    → m.id ≡ j
id-get_one segs scan j m sharp keyed e = elim (Bool-cases (contains scan.tombstones j)) [
  | inl dead ↦ cc (get_one-dead (open_node segs scan) j (unfold open_node in dead))
  | inr alive ↦ id-node_copy segs scan j m keyed (
      keep_if-some (λ x. not (killed_by (node_predicates segs scan) x)) _ m
        (sym (get_one-open_alive segs scan j sharp keyed alive) ∙ e))
]
