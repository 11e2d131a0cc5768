-- ===== src/Prelude/Results.antt =====
-- `Result<A, E>` with its chaining for do blocks, and the map of an option.
use mathlib.Core.Option.{Option, none, some}
use mathlib.Core.Path.{◌≡◌, refl}

pub data Result {ℓ} (E : Type 0) (A : Type ℓ) : Type ℓ where
  ok : A → Result E A
  err : E → Result E A

infixl 5 ◌>>=◌
abbrev pub ◌>>=◌ {ℓ κ} :
    {E : Type 0} {A : Type ℓ} {B : Type κ} → Result E A → (A → Result E B) → Result E B
ok a >>= f = f a
err e >>= f = err e

-- `map_err`-free `?` on a value that only changes on success
abbrev pub map_ok {ℓ κ} : {E : Type 0} {A : Type ℓ} {B : Type κ} → (A → B) → Result E A → Result E B
map_ok f (ok a) = ok (f a)
map_ok f (err e) = err e

-- `Option::map`
abbrev pub map_some {ℓ κ} : {A : Type ℓ} {B : Type κ} → (A → B) → Option A → Option B
map_some f none = none
map_some f (some m) = some (f m)

pub map_ok-map_ok {ℓ κ μ} :
    {E : Type 0} {A : Type ℓ} {B : Type κ} {C : Type μ} (g : B → C) (f : A → B) (r : Result E A)
    → map_ok (λ a. g (f a)) r ≡ map_ok g (map_ok f r)
map_ok-map_ok g f (ok a) = refl
map_ok-map_ok g f (err e) = refl
