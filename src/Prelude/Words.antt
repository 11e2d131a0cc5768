-- ===== src/Prelude/Words.antt =====
-- Fixed-width numbers as bytes, little- and big-endian, and the cut of a byte slice in two.
use Prim.Native.Nat.{ℕ, zero, suc, ◌+◌, ◌*◌, ◌/◌, ◌%◌, ◌^◌, ◌≤◌, ◌<◌}
use mathlib.Core.Path.{◌≡◌, refl, ap, ◌∙◌}
use mathlib.Core.List.{List, [], ◌∷◌, ◌++◌}
use native.Mathlib.Omega.{arith}
use memlake.Prelude.Lists.{length, take, drop, length-append}
use memlake.Prelude.Bytes.{Bytes}

-- `n.to_le_bytes()` at a width of `w` bytes; what does not fit is cut off, as by `as u32`.
unfoldable pub le_bytes : ℕ → ℕ → Bytes
le_bytes zero n = []
le_bytes (suc w) n = (n % 256) ∷ le_bytes w (n / 256)

-- `from_le_bytes`
unfoldable pub of_le_bytes : Bytes → ℕ
of_le_bytes [] = 0
of_le_bytes (b ∷ bs) = b + 256 * of_le_bytes bs

-- `to_be_bytes`
unfoldable pub be_bytes : ℕ → ℕ → Bytes
be_bytes zero n = []
be_bytes (suc w) n = be_bytes w (n / 256) ++ (n % 256) ∷ []

unfoldable pub of_be_from : ℕ → Bytes → ℕ
of_be_from acc [] = acc
of_be_from acc (b ∷ bs) = of_be_from (acc * 256 + b) bs

-- `from_be_bytes`, and the place of a byte array in the order of arrays of its length
unfoldable pub of_be_bytes : Bytes → ℕ
unfolding of_be_from
of_be_bytes bs = of_be_from 0 bs

pub length-le_bytes : (w n : ℕ) → length (le_bytes w n) ≡ w
unfolding le_bytes
length-le_bytes zero n = refl
length-le_bytes (suc w) n = omega (arith, length-le_bytes w (n / 256))

pub of_le_bytes-le_bytes : (w n : ℕ) → n < 256 ^ w → of_le_bytes (le_bytes w n) ≡ n
unfolding le_bytes of_le_bytes
of_le_bytes-le_bytes zero n h = omega arith
of_le_bytes-le_bytes (suc w) n h =
    let ih = of_le_bytes-le_bytes w (n / 256) (omega arith) in omega (arith, ih)

pub length-be_bytes : (w n : ℕ) → length (be_bytes w n) ≡ w
unfolding be_bytes
length-be_bytes zero n = refl
length-be_bytes (suc w) n =
    omega
      (arith, length-be_bytes w (n / 256), length-append (be_bytes w (n / 256)) ((n % 256) ∷ []))

of_be_from-append :
    (acc : ℕ) (xs ys : Bytes) → of_be_from acc (xs ++ ys) ≡ of_be_from (of_be_from acc xs) ys
unfolding of_be_from
of_be_from-append acc [] ys = refl
of_be_from-append acc (x ∷ xs) ys = of_be_from-append (acc * 256 + x) xs ys

pub of_be_bytes-be_bytes : (w n : ℕ) → n < 256 ^ w → of_be_bytes (be_bytes w n) ≡ n
unfolding be_bytes of_be_bytes
of_be_bytes-be_bytes zero n h = omega arith
of_be_bytes-be_bytes (suc w) n h =
    let ih = of_be_bytes-be_bytes w (n / 256) (omega arith) in
    of_be_from-append 0 (be_bytes w (n / 256)) ((n % 256) ∷ []) ∙ omega (arith, ih)

module _ {ℓ} {A : Type ℓ} where
  -- A slice cut where its first part ends.
  pub take_append : (n : ℕ) (xs ys : List A) → length xs ≡ n → take n (xs ++ ys) ≡ xs
  take_append zero [] ys h = refl
  take_append zero (x ∷ xs) ys h = absurd (omega arith)
  take_append (suc n) [] ys h = absurd (omega arith)
  take_append (suc n) (x ∷ xs) ys h = ap (◌∷◌ x) (take_append n xs ys (omega arith))

  pub drop_append : (n : ℕ) (xs ys : List A) → length xs ≡ n → drop n (xs ++ ys) ≡ ys
  drop_append zero [] ys h = refl
  drop_append zero (x ∷ xs) ys h = absurd (omega arith)
  drop_append (suc n) [] ys h = absurd (omega arith)
  drop_append (suc n) (x ∷ xs) ys h = drop_append n xs ys (omega arith)

  pub take_all : (n : ℕ) (xs : List A) → length xs ≡ n → take n xs ≡ xs
  take_all zero [] h = refl
  take_all zero (x ∷ xs) h = absurd (omega arith)
  take_all (suc n) [] h = absurd (omega arith)
  take_all (suc n) (x ∷ xs) h = ap (◌∷◌ x) (take_all n xs (omega arith))

  pub drop_nil : (n : ℕ) → drop {A = A} n [] ≡ []
  drop_nil zero = refl
  drop_nil (suc n) = refl

  pub take_long : (n : ℕ) (xs : List A) → length xs ≤ n → take n xs ≡ xs
  take_long zero [] h = refl
  take_long zero (x ∷ xs) h = absurd (omega arith)
  take_long (suc n) [] h = refl
  take_long (suc n) (x ∷ xs) h = ap (◌∷◌ x) (take_long n xs (omega arith))

  pub drop_past : (n m : ℕ) (xs ys : List A) → length xs ≡ n → drop (n + m) (xs ++ ys) ≡ drop m ys
  drop_past zero m [] ys h = let same : 0 + m ≡ m = omega arith in ap (λ k. drop k ys) same
  drop_past zero m (x ∷ xs) ys h = absurd (omega arith)
  drop_past (suc n) m [] ys h = absurd (omega arith)
  drop_past (suc n) m (x ∷ xs) ys h =
      let next : suc n + m ≡ suc (n + m) = omega arith in
      ap (λ k. drop k (x ∷ (xs ++ ys))) next ∙ drop_past n m xs ys (omega arith)
