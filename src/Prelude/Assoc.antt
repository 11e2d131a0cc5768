-- ===== src/Prelude/Assoc.antt =====
-- A map with numbers for keys (`HashMap`, `BTreeMap` over ids), as an association list in which
-- the first entry of a key counts.
use Prim.Native.Nat.{ℕ}
use mathlib.Core.Path.{◌≡◌, refl}
use mathlib.Core.Bool.{Bool}
use mathlib.Core.List.{List, [], ◌∷◌}
use mathlib.Core.Option.{Option, none, some}
use native.Mathlib.Omega.{arith}
use memlake.Prelude.Tests.{◌==◌, if◌then◌else◌}

abbrev pub Assoc {ℓ} : Type ℓ → Type ℓ
Assoc V = List (ℕ × V)

-- `Option` with a test: the value stays if it passes.
abbrev pub keep_if {ℓ} : {V : Type ℓ} → (V → Bool) → Option V → Option V
keep_if p none = none
keep_if p (some v) = if p v then some v else none

module _ {ℓ} {V : Type ℓ} where
  unfoldable pub lookup : ℕ → Assoc V → Option V
  lookup k [] = none
  lookup k ((j, v) ∷ m) = if j == k then some v else lookup k m

  unfoldable pub remove : ℕ → Assoc V → Assoc V
  remove k [] = []
  remove k ((j, v) ∷ m) = let rest = remove k m in if j == k then rest else (j, v) ∷ rest

  unfoldable pub insert : ℕ → V → Assoc V → Assoc V
  unfolding remove
  insert k v m = (k, v) ∷ remove k m

  -- `retain`: an entry that is dropped goes with whatever it hides.
  unfoldable pub retain_values : (V → Bool) → Assoc V → Assoc V
  unfolding remove
  retain_values p [] = []
  retain_values p ((j, v) ∷ m) =
      let rest = retain_values p m in if p v then (j, v) ∷ rest else remove j rest

  pub lookup-remove :
      (k j : ℕ) (m : Assoc V) → lookup j (remove k m) ≡ (if k == j then none else lookup j m)
  unfolding lookup remove
  lookup-remove k j [] = ground arith
  lookup-remove k j ((i, v) ∷ m) = ground (arith, lookup-remove k j m)

  pub lookup-insert :
      (k j : ℕ) (v : V) (m : Assoc V)
      → lookup j (insert k v m) ≡ (if k == j then some v else lookup j m)
  unfolding lookup insert
  lookup-insert k j v m = ground (arith, lookup-remove k j m)

  pub lookup-retain_values :
      (p : V → Bool) (j : ℕ) (m : Assoc V) → lookup j (retain_values p m) ≡ keep_if p (lookup j m)
  unfolding lookup retain_values
  lookup-retain_values p j [] = refl
  lookup-retain_values p j ((i, v) ∷ m) =
      ground (arith, lookup-retain_values p j m, lookup-remove i j (retain_values p m))

pub lookup-empty {ℓ} : {V : Type ℓ} (k : ℕ) → lookup {V = V} k [] ≡ none
unfolding lookup
lookup-empty k = refl

pub ruleset map_laws = (lookup-empty, lookup-remove, lookup-insert, lookup-retain_values)
