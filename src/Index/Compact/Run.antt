-- ===== src/Index/Compact/Run.antt =====
-- The length of the run that a minor compaction merges.
use memlake.Prelude.{
  ℕ, zero, suc, ◌+◌, ◌≤◌, ◌≡◌, ◌⊎◌, refl, true, ◌&&◌, Option, none, some, List, [], ◌∷◌, arith, leb,
  take, get_elem?, if◌then◌else◌, inl, inr, Bool-cases,
}
use memlake.Index.Compact.{minor_compact_min_run, run_from, minor_run_len}

unfoldable pub sum : List ℕ → ℕ
sum [] = 0
sum (x ∷ xs) = x + sum xs

-- A run of `k` newest segments may be merged: long enough, and no larger than the segment kept next.
pub record Fits (counts : List ℕ) (k : ℕ) : Type 0 where
  pub long : minor_compact_min_run ≤ k
  pub base : ℕ
  pub kept : get_elem? counts k ≡ some base
  pub under : sum (take k counts) ≤ base

-- What the loop looks for from `k` on, with `cum` the sum before.
record FitsFrom (k cum : ℕ) (counts : List ℕ) (i : ℕ) : Type 0 where
  long : minor_compact_min_run ≤ k + i
  base : ℕ
  kept : get_elem? counts i ≡ some base
  under : cum + sum (take i counts) ≤ base

tail_fits :
    (k cum dc : ℕ) (counts : List ℕ) (i : ℕ)
    → FitsFrom k cum (dc ∷ counts) (suc i)
    → FitsFrom (suc k) (cum + dc) counts i
unfolding sum
tail_fits k cum dc counts i f = record {
  long = omega (arith, f.long);
  base = f.base;
  kept = f.kept;
  under = omega (arith, f.under);
}

later_fits :
    (k cum dc : ℕ) (counts : List ℕ) (i : ℕ)
    → FitsFrom (suc k) (cum + dc) counts i
    → FitsFrom k cum (dc ∷ counts) (suc i)
unfolding sum
later_fits k cum dc counts i f = record {
  long = omega (arith, f.long);
  base = f.base;
  kept = f.kept;
  under = omega (arith, f.under);
}

now_fits :
    (k cum dc : ℕ) (counts : List ℕ)
    → (leb minor_compact_min_run k && leb cum dc) ≡ true
    → FitsFrom k cum (dc ∷ counts) zero
unfolding sum
now_fits k cum dc counts t = record {
  long = ground arith;
  base = dc;
  kept = refl;
  under = ground arith;
}

test_of_fits :
    (k cum dc : ℕ) (counts : List ℕ)
    → FitsFrom k cum (dc ∷ counts) zero
    → (leb minor_compact_min_run k && leb cum dc) ≡ true
unfolding sum
test_of_fits k cum dc counts f = ground (arith, f.long, f.under, f.kept)

-- The loop's answer: the best so far if nothing later fits, or the last that fits.
run_from_sound :
    (k cum : ℕ) (best : Option ℕ) (counts : List ℕ) (n : ℕ)
    → run_from k cum best counts ≡ some n
    → (best ≡ some n) ⊎ ((i : ℕ) × (n ≡ k + i) × FitsFrom k cum counts i)
unfolding run_from
run_from_sound k cum best [] n e = inl e
run_from_sound k cum best (dc ∷ counts) n e =
    elim (Bool-cases (leb minor_compact_min_run k && leb cum dc)) [
      | inl t ↦ elim (run_from_sound (suc k) (cum + dc) (some k) counts n (rw t at e)) [
        | inl here ↦ inr (zero, ground arith, now_fits k cum dc counts t)
        | inr (i, at, f) ↦ inr (suc i, omega (arith, at), later_fits k cum dc counts i f)
      ]
      | inr t ↦ elim (run_from_sound (suc k) (cum + dc) best counts n (rw t at e)) [
        | inl before ↦ inl before
        | inr (i, at, f) ↦ inr (suc i, omega (arith, at), later_fits k cum dc counts i f)
      ]
    ]

-- A run that was found stays a lower bound of the answer.
run_from_keeps :
    (k cum b : ℕ) (counts : List ℕ)
    → b ≤ k
    → (n : ℕ) × (run_from k cum (some b) counts ≡ some n) × (b ≤ n)
unfolding run_from
run_from_keeps k cum b [] le = (b, refl, omega arith)
run_from_keeps k cum b (dc ∷ counts) le =
    elim (Bool-cases (leb minor_compact_min_run k && leb cum dc)) [
      | inl t ↦
          let (n, e, le') = run_from_keeps (suc k) (cum + dc) k counts (omega arith) in
          (n, rw t e, omega (arith, le'))
      | inr t ↦
          let (n, e, le') = run_from_keeps (suc k) (cum + dc) b counts (omega arith) in
          (n, rw t e, le')
    ]

run_from_longest :
    (k cum : ℕ) (best : Option ℕ) (counts : List ℕ) (i : ℕ)
    → FitsFrom k cum counts i
    → (n : ℕ) × (run_from k cum best counts ≡ some n) × (k + i ≤ n)
unfolding run_from
run_from_longest k cum best [] i f = absurd (cc f.kept)
run_from_longest k cum best (dc ∷ counts) zero f =
    let (n, e, le) = run_from_keeps (suc k) (cum + dc) k counts (omega arith) in
    (n, rw (test_of_fits k cum dc counts f) e, omega (arith, le))
run_from_longest k cum best (dc ∷ counts) (suc i) f =
    let best' = if leb minor_compact_min_run k && leb cum dc then some k else best in
    let (n, e, le) =
      run_from_longest (suc k) (cum + dc) best' counts i (tail_fits k cum dc counts i f) in
    (n, e, omega (arith, le))

fits_from : (counts : List ℕ) (i : ℕ) → Fits counts i → FitsFrom 0 0 counts i
fits_from counts i f = record {
  long = omega (arith, f.long);
  base = f.base;
  kept = f.kept;
  under = omega (arith, f.under);
}

-- The run that a minor compaction merges fits under the segment kept next, and every run that fits
-- is at most as long; where none is picked, none fits.
pub minor_run_len_longest :
    (counts : List ℕ)
    → ((k : ℕ) → minor_run_len counts ≡ some k → Fits counts k)
      × ((i : ℕ) → Fits counts i → (k : ℕ) × (minor_run_len counts ≡ some k) × (i ≤ k))
unfolding minor_run_len
minor_run_len_longest counts = (
  λ k e. picked k e,
  λ i f.
      let (n, e, le) = run_from_longest 0 0 none counts i (fits_from counts i f) in
      (n, e, omega (arith, le)),
)
  where
    picked : (k : ℕ) → run_from 0 0 none counts ≡ some k → Fits counts k
    picked k e = elim (run_from_sound 0 0 none counts k e) [
      | inl before ↦ absurd (cc before)
      | inr (i, at, f) ↦
          let same : k ≡ i = omega (arith, at) in
          rw same (record {
            long = omega (arith, f.long);
            base = f.base;
            kept = f.kept;
            under = omega (arith, f.under);
          })
    ]
