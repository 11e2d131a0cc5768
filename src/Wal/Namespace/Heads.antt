-- ===== src/Wal/Namespace/Heads.antt =====
-- The head of a log, as the last sequence of its listing, against the sequences in it.
use memlake.Prelude.{
  ℕ, ◌≤◌, ◌<◌, ◌≡◌, refl, sym, ◌∙◌, false, none, List, [], ◌∷◌, ◌==◌, ltb, any, arith, All,
  Bool-cases, inl, inr,
}
use memlake.Prelude.Assoc.{Assoc, lookup}
use memlake.Prelude.Sort.{sort_by, insert_sorted, any-sort_by, All-insert_sorted}
use memlake.Wal.Namespace.{seqs, last_or_zero, highest}

-- Each number is at most every later one.
abbrev IsAscending : List ℕ → Type 0
IsAscending [] = Unit
IsAscending (x ∷ xs) = All (λ y. x ≤ y) xs × IsAscending xs

All_le : (x y : ℕ) (ys : List ℕ) → x ≤ y → All (λ z. y ≤ z) ys → All (λ z. x ≤ z) ys
All_le x y [] le h = tt
All_le x y (z ∷ zs) le h = (omega (arith, h.0), All_le x y zs le h.1)

insert_sorted-IsAscending :
    (x : ℕ) (ys : List ℕ) → IsAscending ys → IsAscending (insert_sorted ltb x ys)
unfolding insert_sorted
insert_sorted-IsAscending x [] h = (tt, tt)
insert_sorted-IsAscending x (y ∷ ys) h = elim (Bool-cases (ltb y x)) [
  | inl later ↦
      let low : y ≤ x = ground (arith, later) in
      rw (later)
        (All-insert_sorted ltb (λ z. y ≤ z) x ys low h.0, insert_sorted-IsAscending x ys h.1)
  | inr here ↦ let low : x ≤ y = ground (arith, here) in rw (here) ((low, All_le x y ys low h.0), h)
]

sort_by-IsAscending : (xs : List ℕ) → IsAscending (sort_by ltb xs)
unfolding sort_by
sort_by-IsAscending [] = tt
sort_by-IsAscending (x ∷ xs) = insert_sorted-IsAscending x (sort_by ltb xs) (sort_by-IsAscending xs)

le-last_or_zero : (x : ℕ) (xs : List ℕ) → IsAscending (x ∷ xs) → x ≤ last_or_zero (x ∷ xs)
unfolding last_or_zero
le-last_or_zero x [] h = omega arith
le-last_or_zero x (y ∷ ys) h = omega (arith, h.0.0, le-last_or_zero y ys h.1)

absent_past_last :
    (q : ℕ) (xs : List ℕ) → IsAscending xs → last_or_zero xs < q → any (λ x. x == q) xs ≡ false
unfolding last_or_zero
absent_past_last q [] h past = refl
absent_past_last q (x ∷ []) h past = ground arith
absent_past_last q (x ∷ y ∷ ys) h past =
    ground (arith, h.0.0, le-last_or_zero y ys h.1, absent_past_last q (y ∷ ys) h.1 past)

lookup-seqs {ℓ} :
    {V : Type ℓ} (q : ℕ) (m : Assoc V) → any (λ x. x == q) (seqs m) ≡ false → lookup q m ≡ none
unfolding seqs lookup
lookup-seqs q [] h = refl
lookup-seqs q ((k, v) ∷ m) h = ground (arith, lookup-seqs q m)

-- A log has no entry past its head.
pub lookup-highest {ℓ} : {V : Type ℓ} (m : Assoc V) (q : ℕ) → highest m < q → lookup q m ≡ none
unfolding highest
lookup-highest m q past = lookup-seqs q m (
    sym (any-sort_by ltb (λ x. x == q) (seqs m))
    ∙ absent_past_last q (sort_by ltb (seqs m)) (sort_by-IsAscending (seqs m)) past)
