-- ===== src/Wal/Scan/Ascending.antt =====
-- Logs whose keys ascend: what is looked up in them settles them, and sorting makes them.
use memlake.Prelude.{
  ℕ, ◌≤◌, ◌<◌, ◌≡◌, refl, sym, ap, ◌∙◌, Bool, none, some, List, [], ◌∷◌, ltb, ◌==◌, arith, retain,
  All, if◌then◌else◌, Bool-cases, inl, inr,
}
use mathlib.Core.Path.{ap₂, subst}
use memlake.Prelude.Assoc.{Assoc, lookup}
use memlake.Prelude.Sort.{sort_by, insert_sorted, All-insert_sorted}
use memlake.Core.Wal.{Op}
use memlake.Wal.Scan.{seq_before}

abbrev pub Log : Type 0
Log = Assoc (List Op)

-- No two objects of the log have one name.
abbrev pub IsDistinct : Log → Type 0
IsDistinct [] = Unit
IsDistinct ((k, ops) ∷ wal) = (lookup k wal ≡ none) × IsDistinct wal

abbrev pub IsUp : Log → Type 0
IsUp [] = Unit
IsUp (e ∷ es) = All (λ (x : ℕ × List Op). e.0 < x.0) es × IsUp es

lookup_above :
    (q k : ℕ) (es : Log) → q ≤ k → All (λ (x : ℕ × List Op). k < x.0) es → lookup q es ≡ none
unfolding lookup
lookup_above q k [] le h = refl
lookup_above q k ((j, ops) ∷ es) le h = ground (arith, lookup_above q k es le h.1)

same_head :
    (j k : ℕ) (u v : List Op) (xs ys : Log)
    → IsUp ((j, u) ∷ xs)
    → IsUp ((k, v) ∷ ys)
    → ((q : ℕ) → lookup q ((j, u) ∷ xs) ≡ lookup q ((k, v) ∷ ys))
    → j ≡ k
unfolding lookup
same_head j k u v xs ys ux uy h = elim (Bool-cases (ltb j k)) [
  | inl low ↦
      let le : j ≤ k = ground (arith, low) in ground (arith, low, h j, lookup_above j k ys le uy.0)
  | inr high ↦ elim (Bool-cases (ltb k j)) [
    | inl lower ↦
        let le : k ≤ j = ground (arith, lower) in
        ground (arith, lower, h k, lookup_above k j xs le ux.0)
    | inr same ↦ ground (arith, high, same)
  ]
]

same_tail :
    (j k : ℕ) (u v : List Op) (xs ys : Log)
    → IsUp ((j, u) ∷ xs)
    → IsUp ((k, v) ∷ ys)
    → j ≡ k
    → ((q : ℕ) → lookup q ((j, u) ∷ xs) ≡ lookup q ((k, v) ∷ ys))
    → (q : ℕ) → lookup q xs ≡ lookup q ys
unfolding lookup
same_tail j k u v xs ys ux uy one h q = elim (Bool-cases (j == q)) [
  | inl here ↦
      let le : q ≤ j = ground (arith, here) in
      let le2 : q ≤ k = omega (arith, one) in
      lookup_above q j xs le ux.0 ∙ sym (lookup_above q k ys le2 uy.0)
  | inr other ↦ ground (arith, h q, other, one)
]

-- Lists whose keys ascend are the same when they hold the same under each key.
pub eq_of_lookup :
    (xs ys : Log) → IsUp xs → IsUp ys → ((q : ℕ) → lookup q xs ≡ lookup q ys) → xs ≡ ys
unfolding lookup
eq_of_lookup [] [] ux uy h = refl
eq_of_lookup [] ((k, v) ∷ ys) ux uy h = ground (arith, h k)
eq_of_lookup ((j, u) ∷ xs) [] ux uy h = ground (arith, h j)
eq_of_lookup ((j, u) ∷ xs) ((k, v) ∷ ys) ux uy h =
    let one : j ≡ k = same_head j k u v xs ys ux uy h in
    let ops : u ≡ v = ground (arith, h j, one) in
    ap₂ (◌∷◌) (ap₂ (λ a b. (a, b)) one ops)
      (eq_of_lookup xs ys ux.1 uy.1 (same_tail j k u v xs ys ux uy one h))

lookup-insert_sorted :
    (q k : ℕ) (ops : List Op) (es : Log)
    → lookup k es ≡ none
    → lookup q (insert_sorted seq_before (k, ops) es) ≡ (if k == q then some ops else lookup q es)
unfolding lookup insert_sorted
lookup-insert_sorted q k ops [] h = refl
lookup-insert_sorted q k ops ((j, u) ∷ es) h =
    ground (arith, h, λ (e : lookup k es ≡ none). lookup-insert_sorted q k ops es e)

pub lookup-sort_by :
    (q : ℕ) (es : Log) → IsDistinct es → lookup q (sort_by seq_before es) ≡ lookup q es
unfolding lookup sort_by
lookup-sort_by q [] h = refl
lookup-sort_by q ((k, ops) ∷ es) h =
    lookup-insert_sorted q k ops (sort_by seq_before es) (lookup-sort_by k es h.1 ∙ h.0)
    ∙ ap (λ o. if k == q then some ops else o) (lookup-sort_by q es h.1)

All_above :
    (low high : ℕ) (es : Log)
    → low ≤ high
    → All (λ (x : ℕ × List Op). high < x.0) es
    → All (λ (x : ℕ × List Op). low < x.0) es
All_above low high [] le h = tt
All_above low high (e ∷ es) le h = (omega (arith, h.0), All_above low high es le h.1)

insert_sorted-IsUp :
    (k : ℕ) (ops : List Op) (es : Log)
    → lookup k es ≡ none
    → IsUp es
    → IsUp (insert_sorted seq_before (k, ops) es)
unfolding insert_sorted lookup
insert_sorted-IsUp k ops [] h up = (tt, tt)
insert_sorted-IsUp k ops ((j, u) ∷ es) h up = elim (Bool-cases (ltb j k)) [
  | inl past ↦
      let free : lookup k es ≡ none = ground (arith, h, past) in
      let low : j < k = ground (arith, past) in
      rw (past) (
        All-insert_sorted seq_before (λ (x : ℕ × List Op). j < x.0) (k, ops) es low up.0,
        insert_sorted-IsUp k ops es free up.1,
      )
  | inr here ↦
      let low : k < j = ground (arith, h, here) in
      rw (here) ((low, All_above k j es (omega (arith, low)) up.0), up)
]

pub sort_by-IsUp : (es : Log) → IsDistinct es → IsUp (sort_by seq_before es)
unfolding sort_by
sort_by-IsUp [] h = tt
sort_by-IsUp ((k, ops) ∷ es) h =
    insert_sorted-IsUp k ops (sort_by seq_before es) (lookup-sort_by k es h.1 ∙ h.0)
      (sort_by-IsUp es h.1)

module _ (p : ℕ → Bool) where
  pub lookup-retain :
      (q : ℕ) (es : Log)
      → IsDistinct es
      → lookup q (retain (λ e. p e.0) es) ≡ (if p q then lookup q es else none)
  unfolding lookup
  lookup-retain q [] h = ground arith
  lookup-retain q ((k, ops) ∷ es) h = elim (Bool-cases (k == q)) [
    | inl same ↦
        let e : k ≡ q = ground (arith, same) in
        let free : lookup q es ≡ none = subst (λ x. lookup x es ≡ none) e h.0 in
        ground (arith, same, free, ap p e, lookup-retain q es h.1)
    | inr other ↦ ground (arith, other, lookup-retain q es h.1)
  ]

  pub retain-IsDistinct : (es : Log) → IsDistinct es → IsDistinct (retain (λ e. p e.0) es)
  retain-IsDistinct [] h = tt
  retain-IsDistinct ((k, ops) ∷ es) h = elim (Bool-cases (p k)) [
    | inl stays ↦ rw (stays) (
      lookup-retain k es h.1 ∙ ap (λ o. if p k then o else none) h.0 ∙ ground arith,
      retain-IsDistinct es h.1,
    )
    | inr goes ↦ rw (goes) (retain-IsDistinct es h.1)
  ]
