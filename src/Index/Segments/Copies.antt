-- ===== src/Index/Segments/Copies.antt =====
-- The live set at one id, in terms of the overlays and the predicates as the segments have them.
use memlake.Prelude.{
  ℕ, ◌≡◌, refl, ap, ◌∙◌, Bool, not, ◌&&◌, ◌||◌, Option, none, some, List, [], ◌∷◌, ◌++◌, arith, ltb,
  contains, any, any-append, if◌then◌else◌,
}
use memlake.Prelude.Assoc.{lookup, keep_if}
use memlake.Core.Memory.{MemoryId, StoredMemory}
use memlake.Core.Manifest.{Segment}
use memlake.Core.Predicate.{predicate_matches}
use memlake.Wal.Tail.{kills, killed_by}
use memlake.Index.Segments.{kill_map, seg_predicates, live_items}
use memlake.Index.Segments.Live.{
  head?, copies_of, fresh_copies, seg_level, stale-kill_map, lookup-live_items-collect,
}

-- Whether an overlay of a segment that ends past a sequence has the id.
unfoldable pub is_superseded : List Segment → MemoryId → ℕ → Bool
is_superseded segs j hi = any (λ t. ltb hi t.seq_hi && contains t.tombstones.superseded j) segs

-- Whether a predicate delete of a segment is later than the memory's write and matches it.
unfoldable pub is_deleted : List Segment → StoredMemory → Bool
is_deleted segs m =
    any (λ t. any (λ sp. ltb m.write_seq sp.0 && predicate_matches sp.1 m) t.tombstones.predicates)
      segs

-- The copies of an id in some segments that none of all the segments supersedes, newest first.
unfoldable pub copies_left : List Segment → MemoryId → List Segment → List StoredMemory
copies_left all_segs j [] = []
copies_left all_segs j (seg ∷ segs) =
    (if is_superseded all_segs j seg.seq_hi then [] else copies_of j seg.items)
    ++ copies_left all_segs j segs

is_superseded-seg_level :
    (segs : List Segment) (j : MemoryId) (hi : ℕ)
    → ltb hi (seg_level segs j) ≡ is_superseded segs j hi
unfolding seg_level is_superseded
is_superseded-seg_level [] j hi = ground arith
is_superseded-seg_level (seg ∷ segs) j hi = ground (arith, is_superseded-seg_level segs j hi)

fresh_copies-copies_left :
    (all_segs segs : List Segment) (j : MemoryId)
    → fresh_copies (kill_map all_segs) j segs ≡ copies_left all_segs j segs
unfolding fresh_copies copies_left
fresh_copies-copies_left all_segs [] j = refl
fresh_copies-copies_left all_segs (seg ∷ segs) j = ground (
  arith,
  stale-kill_map all_segs j seg.seq_hi,
  is_superseded-seg_level all_segs j seg.seq_hi,
  fresh_copies-copies_left all_segs segs j,
)

is_deleted-killed_by :
    (segs : List Segment) (m : StoredMemory) → killed_by (seg_predicates segs) m ≡ is_deleted segs m
unfolding killed_by kills seg_predicates is_deleted
is_deleted-killed_by [] m = refl
is_deleted-killed_by (seg ∷ segs) m =
    any-append (λ sp. kills sp.0 sp.1 m) seg.tombstones.predicates (seg_predicates segs)
    ∙ ap (λ t. any (λ sp. kills sp.0 sp.1 m) seg.tombstones.predicates || t)
        (is_deleted-killed_by segs m)

keep_if-ext :
    (p q : StoredMemory → Bool) (o : Option StoredMemory)
    → ((m : StoredMemory) → p m ≡ q m)
    → keep_if p o ≡ keep_if q o
keep_if-ext p q none h = refl
keep_if-ext p q (some m) h = rw (h m) refl

-- The live set of some segments, newest first, has at each id the first copy in a segment such that
-- no segment that ends later has the id in its overlay, unless a predicate delete of a segment is
-- later than that copy's write and matches it, and nothing else.
pub lookup-live_items :
    (segs : List Segment) (j : MemoryId)
    → lookup j (live_items segs)
      ≡ keep_if (λ m. not (is_deleted segs m)) (head? (copies_left segs j segs))
lookup-live_items segs j =
    lookup-live_items-collect segs j
    ∙ ap (λ ms. keep_if (λ m. not (killed_by (seg_predicates segs) m)) (head? ms))
        (fresh_copies-copies_left segs segs j)
    ∙ keep_if-ext _ _ (head? (copies_left segs j segs)) (λ m. ap not (is_deleted-killed_by segs m))
