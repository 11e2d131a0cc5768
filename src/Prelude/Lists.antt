-- ===== src/Prelude/Lists.antt =====
-- Lists over the native numbers: lengths, tests on elements, and predicates by recursion.
use Prim.Native.Nat.{ℕ, zero, suc, ◌+◌, ◌≤◌}
use mathlib.Core.Path.{◌≡◌, refl, ap}
use mathlib.Core.Bool.{Bool, true, false, not, ◌&&◌, ◌||◌}
use mathlib.Core.List.{List, [], ◌∷◌, ◌++◌}
use mathlib.Core.Option.{Option, none, some}
use native.Mathlib.Omega.{arith}
use memlake.Prelude.Tests.{if◌then◌else◌, ◌==◌}

module _ {ℓ} {A : Type ℓ} where
  abbrev pub length : List A → ℕ
  length [] = 0
  length (x ∷ xs) = suc (length xs)

  abbrev pub take : ℕ → List A → List A
  take zero xs = []
  take (suc n) [] = []
  take (suc n) (x ∷ xs) = x ∷ take n xs

  abbrev pub drop : ℕ → List A → List A
  drop zero xs = xs
  drop (suc n) [] = []
  drop (suc n) (x ∷ xs) = drop n xs

  abbrev pub get_elem? : List A → ℕ → Option A
  get_elem? [] i = none
  get_elem? (x ∷ xs) zero = some x
  get_elem? (x ∷ xs) (suc i) = get_elem? xs i

  -- `iter().any(p)`, `iter().all(p)` and `filter(p)` over a Boolean test.
  abbrev pub any : (A → Bool) → List A → Bool
  any p [] = false
  any p (x ∷ xs) = p x || any p xs

  abbrev pub all : (A → Bool) → List A → Bool
  all p [] = true
  all p (x ∷ xs) = p x && all p xs

  abbrev pub retain : (A → Bool) → List A → List A
  retain p [] = []
  retain p (x ∷ xs) = if p x then x ∷ retain p xs else retain p xs

  abbrev pub is_empty : List A → Bool
  is_empty [] = true
  is_empty (x ∷ xs) = false

  pub length-append : (xs ys : List A) → length (xs ++ ys) ≡ length xs + length ys
  length-append [] ys = omega arith
  length-append (x ∷ xs) ys = omega (arith, length-append xs ys)

  pub any-append : (p : A → Bool) (xs ys : List A) → any p (xs ++ ys) ≡ (any p xs || any p ys)
  any-append p [] ys = refl
  any-append p (x ∷ xs) ys = ground (arith, any-append p xs ys)

  pub length-retain-le : (p : A → Bool) (xs : List A) → length (retain p xs) ≤ length xs
  length-retain-le p [] = omega arith
  length-retain-le p (x ∷ xs) = ground (arith, length-retain-le p xs)

  pub take-append_length : (xs ys : List A) → take (length xs) (xs ++ ys) ≡ xs
  take-append_length [] ys = refl
  take-append_length (x ∷ xs) ys = ap (◌∷◌ x) (take-append_length xs ys)

  pub drop-append_length : (xs ys : List A) → drop (length xs) (xs ++ ys) ≡ ys
  drop-append_length [] ys = refl
  drop-append_length (x ∷ xs) ys = drop-append_length xs ys

module _ {ℓ κ} {A : Type ℓ} where
  -- A predicate that holds of each element.
  abbrev pub All : (A → Type κ) → List A → Type κ
  All P [] = Unit
  All P (x ∷ xs) = P x × All P xs

  pub All-append : (P : A → Type κ) (xs ys : List A) → All P xs → All P ys → All P (xs ++ ys)
  All-append P [] ys hx hy = hy
  All-append P (x ∷ xs) ys hx hy = (hx.0, All-append P xs ys hx.1 hy)

  pub All-left : (P : A → Type κ) (xs ys : List A) → All P (xs ++ ys) → All P xs
  All-left P [] ys h = tt
  All-left P (x ∷ xs) ys h = (h.0, All-left P xs ys h.1)

  pub All-right : (P : A → Type κ) (xs ys : List A) → All P (xs ++ ys) → All P ys
  All-right P [] ys h = h
  All-right P (x ∷ xs) ys h = All-right P xs ys h.1

-- `contains` on a list of numbers.
abbrev pub contains : List ℕ → ℕ → Bool
contains xs a = any (λ x. x == a) xs

pub contains-append :
    (xs ys : List ℕ) (a : ℕ) → contains (xs ++ ys) a ≡ (contains xs a || contains ys a)
contains-append xs ys a = any-append (λ x. x == a) xs ys

-- `retain(|t| *t != k)`: only `k` is gone.
pub contains-retain_ne :
    (k a : ℕ) (xs : List ℕ)
    → contains (retain (λ x. not (x == k)) xs) a ≡ (if k == a then false else contains xs a)
contains-retain_ne k a [] = ground arith
contains-retain_ne k a (x ∷ xs) = ground (arith, contains-retain_ne k a xs)
