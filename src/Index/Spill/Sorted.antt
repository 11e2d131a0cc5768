-- ===== src/Index/Spill/Sorted.antt =====
-- Laws of the stable sort by key that the external sort relies on.
use memlake.Prelude.{
  ℕ, ◌≤◌, ◌<◌, ◌≡◌, refl, sym, ap, ◌∙◌, true, false, List, [], ◌∷◌, ◌++◌, arith, All, Bool-cases,
  inl, inr, map,
}
use memlake.Prelude.Sort.{sort_by, insert_sorted, All-insert_sorted, All-sort_by}
use memlake.Index.Table.{Record}
use memlake.Index.Table.Built.{join}
use memlake.Index.Spill.{key_before}

abbrev pub sorted : List Record → List Record
sorted rs = sort_by key_before rs

abbrev pub inserted : Record → List Record → List Record
inserted r rs = insert_sorted key_before r rs

-- Keys never descend.
abbrev pub IsSorted : List Record → Type 0
IsSorted [] = Unit
IsSorted (r ∷ rs) = All (λ (e : Record). r.0 ≤ e.0) rs × IsSorted rs

All_from :
    (low k : ℕ) (rs : List Record)
    → low ≤ k
    → All (λ (e : Record). k ≤ e.0) rs
    → All (λ (e : Record). low ≤ e.0) rs
All_from low k [] le h = tt
All_from low k (r ∷ rs) le h = (omega (arith, h.0), All_from low k rs le h.1)

inserted-IsSorted : (r : Record) (rs : List Record) → IsSorted rs → IsSorted (inserted r rs)
unfolding insert_sorted
inserted-IsSorted r [] h = (tt, tt)
inserted-IsSorted r (e ∷ es) h = elim (Bool-cases (key_before e r)) [
  | inl later ↦ rw (later) (
    All-insert_sorted key_before (λ (x : Record). e.0 ≤ x.0) r es (ground (arith, later)) h.0,
    inserted-IsSorted r es h.1,
  )
  | inr first ↦
      let le : r.0 ≤ e.0 = ground (arith, first) in rw (first) ((le, All_from r.0 e.0 es le h.0), h)
]

pub sort_by-IsSorted : (rs : List Record) → IsSorted (sorted rs)
unfolding sort_by
sort_by-IsSorted [] = tt
sort_by-IsSorted (r ∷ rs) = inserted-IsSorted r (sorted rs) (sort_by-IsSorted rs)

insert_sorted_behind :
    (x y : Record) (rs : List Record)
    → key_before y x ≡ true
    → inserted x (y ∷ rs) ≡ y ∷ inserted x rs
unfolding insert_sorted
insert_sorted_behind x y rs h = rw (h) refl

insert_sorted_front :
    (x y : Record) (rs : List Record) → key_before y x ≡ false → inserted x (y ∷ rs) ≡ x ∷ y ∷ rs
unfolding insert_sorted
insert_sorted_front x y rs h = rw (h) refl

insert_sorted_least :
    (m : Record) (rs : List Record) → All (λ (e : Record). m.0 ≤ e.0) rs → inserted m rs ≡ m ∷ rs
insert_sorted_least m [] h = unfold insert_sorted in refl
insert_sorted_least m (r ∷ rs) h = insert_sorted_front m r rs (ground (arith, h.0))

-- The order in which two different keys go in does not matter.
insert_sorted_swap :
    (x y : Record) (rs : List Record)
    → y.0 < x.0
    → inserted y (inserted x rs) ≡ inserted x (inserted y rs)
unfolding insert_sorted
insert_sorted_swap x y [] lt = ground (arith, lt)
insert_sorted_swap x y (r ∷ rs) lt = ground (arith, lt, insert_sorted_swap x y rs lt)

unfoldable pub insert_all_sorted : List Record → List Record → List Record
insert_all_sorted [] rs = rs
insert_all_sorted (x ∷ xs) rs = inserted x (insert_all_sorted xs rs)

sort_by-append : (xs ys : List Record) → sorted (xs ++ ys) ≡ insert_all_sorted xs (sorted ys)
unfolding sort_by insert_all_sorted
sort_by-append [] ys = refl
sort_by-append (x ∷ xs) ys = ap (inserted x) (sort_by-append xs ys)

insert_all_sorted-insert_sorted :
    (x : Record) (xs rs : List Record)
    → insert_all_sorted (inserted x xs) rs ≡ inserted x (insert_all_sorted xs rs)
unfolding insert_all_sorted
insert_all_sorted-insert_sorted x [] rs = unfold insert_sorted in refl
insert_all_sorted-insert_sorted x (y ∷ ys) rs = elim (Bool-cases (key_before y x)) [
  | inl behind ↦
      ap (λ t. insert_all_sorted t rs) (insert_sorted_behind x y ys behind)
      ∙ ap (inserted y) (insert_all_sorted-insert_sorted x ys rs)
      ∙ insert_sorted_swap x y (insert_all_sorted ys rs) (ground (arith, behind))
  | inr front ↦ ap (λ t. insert_all_sorted t rs) (insert_sorted_front x y ys front)
]

insert_all_sorted-sort_by :
    (xs rs : List Record) → insert_all_sorted (sorted xs) rs ≡ insert_all_sorted xs rs
unfolding sort_by insert_all_sorted
insert_all_sorted-sort_by [] rs = refl
insert_all_sorted-sort_by (x ∷ xs) rs =
    insert_all_sorted-insert_sorted x (sorted xs) rs
    ∙ ap (inserted x) (insert_all_sorted-sort_by xs rs)

-- Runs that are sorted one by one sort to the same as the records they were made of.
pub sort_by-sorted_runs :
    (cs : List (List Record)) → sorted (join (map sorted cs)) ≡ sorted (join cs)
unfolding join
sort_by-sorted_runs [] = refl
sort_by-sorted_runs (c ∷ cs) =
    sort_by-append (sorted c) (join (map sorted cs))
    ∙ insert_all_sorted-sort_by c (sorted (join (map sorted cs)))
    ∙ ap (insert_all_sorted c) (sort_by-sorted_runs cs)
    ∙ sym (sort_by-append c (join cs))

-- The first of the smallest keys is the head of the sorted list.
pub sort_by-least :
    (xs ys : List Record) (m : Record)
    → All (λ (e : Record). m.0 < e.0) xs
    → All (λ (e : Record). m.0 ≤ e.0) ys
    → sorted (xs ++ m ∷ ys) ≡ m ∷ sorted (xs ++ ys)
unfolding sort_by
sort_by-least [] ys m above from =
    insert_sorted_least m (sorted ys) (All-sort_by key_before (λ (e : Record). m.0 ≤ e.0) ys from)
sort_by-least (x ∷ xs) ys m above from =
    ap (inserted x) (sort_by-least xs ys m above.1 from)
    ∙ insert_sorted_behind x m (sorted (xs ++ ys)) (ground (arith, above.0))
