-- ===== src/Prelude/Sort.antt =====
-- `sort_by` (stable) and `dedup` of Rust's slices.
use mathlib.Core.Bool.{Bool}
use mathlib.Core.List.{List, [], ◌∷◌}
use mathlib.Core.Path.{◌≡◌, refl}
use native.Mathlib.Omega.{arith}
use Prim.Native.Nat.{ℕ, suc}
use memlake.Prelude.Tests.{if◌then◌else◌, ◌==◌, Bool-cases}
use mathlib.Core.Logic.{inl, inr}
use memlake.Prelude.Lists.{length, any, contains, All}

module _ {ℓ} {A : Type ℓ} (before : A → A → Bool) where
  -- puts `x`, which stood in front of the list, behind the elements that go strictly before it
  unfoldable pub insert_sorted : A → List A → List A
  insert_sorted x [] = x ∷ []
  insert_sorted x (y ∷ ys) = if before y x then y ∷ insert_sorted x ys else x ∷ y ∷ ys

  unfoldable pub sort_by : List A → List A
  unfolding insert_sorted
  sort_by [] = []
  sort_by (x ∷ xs) = insert_sorted x (sort_by xs)

  length-insert_sorted : (x : A) (xs : List A) → length (insert_sorted x xs) ≡ suc (length xs)
  unfolding insert_sorted
  length-insert_sorted x [] = refl
  length-insert_sorted x (y ∷ ys) = ground (arith, length-insert_sorted x ys)

  pub length-sort_by : (xs : List A) → length (sort_by xs) ≡ length xs
  unfolding sort_by
  length-sort_by [] = refl
  length-sort_by (x ∷ xs) = ground (arith, length-sort_by xs, length-insert_sorted x (sort_by xs))

  pub any-insert_sorted :
      (p : A → Bool) (x : A) (xs : List A) → any p (insert_sorted x xs) ≡ any p (x ∷ xs)
  unfolding insert_sorted
  any-insert_sorted p x [] = refl
  any-insert_sorted p x (y ∷ ys) = ground (arith, any-insert_sorted p x ys)

  -- Sorting keeps what a test finds.
  pub any-sort_by : (p : A → Bool) (xs : List A) → any p (sort_by xs) ≡ any p xs
  unfolding sort_by
  any-sort_by p [] = refl
  any-sort_by p (x ∷ xs) = ground (arith, any-sort_by p xs, any-insert_sorted p x (sort_by xs))

  pub All-insert_sorted {κ} :
      (P : A → Type κ) (x : A) (xs : List A) → P x → All P xs → All P (insert_sorted x xs)
  unfolding insert_sorted
  All-insert_sorted P x [] hx h = (hx, tt)
  All-insert_sorted P x (y ∷ ys) hx h = elim (Bool-cases (before y x)) [
    | inl later ↦ rw (later) (h.0, All-insert_sorted P x ys hx h.1)
    | inr here ↦ rw (here) (hx, h)
  ]

  -- Sorting keeps what holds of all.
  pub All-sort_by {κ} : (P : A → Type κ) (xs : List A) → All P xs → All P (sort_by xs)
  unfolding sort_by
  All-sort_by P [] h = tt
  All-sort_by P (x ∷ xs) h = All-insert_sorted P x (sort_by xs) h.0 (All-sort_by P xs h.1)

-- `dedup()`: drops an element equal to the one before it.
unfoldable pub dedup : List ℕ → List ℕ
dedup [] = []
dedup (x ∷ []) = x ∷ []
dedup (x ∷ y ∷ ys) = let rest = dedup (y ∷ ys) in if x == y then rest else x ∷ rest

pub contains-dedup : (a : ℕ) (xs : List ℕ) → contains (dedup xs) a ≡ contains xs a
unfolding dedup
contains-dedup a [] = refl
contains-dedup a (x ∷ []) = refl
contains-dedup a (x ∷ y ∷ ys) = ground (arith, contains-dedup a (y ∷ ys))
