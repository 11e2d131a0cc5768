-- ===== src/Prelude/Bytes.antt =====
-- Rust's `String`, `&str` and `Vec<u8>` as the list of their bytes: `==` and `Ord` on strings are
-- those of the bytes.
use Prim.Native.Nat.{ℕ}
use Prim.Native.Char.{code}
use Prim.Native.String.{String}
use mathlib.Core.Path.{◌≡◌, refl}
use mathlib.Core.Logic.{◌↔◌}
use mathlib.Core.Bool.{Bool, true, false, ◌&&◌, ◌||◌}
use mathlib.Core.List.{List, [], ◌∷◌}
use native.Mathlib.Omega.{arith}
use memlake.Prelude.Tests.{◌==◌, ltb}

abbrev pub Bytes : Type 0
Bytes = List ℕ

-- The bytes of an ASCII literal.
abbrev pub codes : String → Bytes
codes String.[] = []
codes (String.◌∷◌ c s) = code c ∷ codes s

unfoldable pub bytes_eq : Bytes → Bytes → Bool
bytes_eq [] [] = true
bytes_eq (x ∷ xs) (y ∷ ys) = (x == y) && bytes_eq xs ys
bytes_eq _ _ = false

-- The lexicographic order, `a < b`.
unfoldable pub bytes_lt : Bytes → Bytes → Bool
bytes_lt [] [] = false
bytes_lt [] (y ∷ ys) = true
bytes_lt (x ∷ xs) [] = false
bytes_lt (x ∷ xs) (y ∷ ys) = ltb x y || ((x == y) && bytes_lt xs ys)

eq_of_bytes_eq : (a b : Bytes) → bytes_eq a b ≡ true → a ≡ b
unfolding bytes_eq
eq_of_bytes_eq [] [] h = refl
eq_of_bytes_eq [] (y ∷ ys) h = ground arith
eq_of_bytes_eq (x ∷ xs) [] h = ground arith
eq_of_bytes_eq (x ∷ xs) (y ∷ ys) h = ground (arith, eq_of_bytes_eq xs ys)

pub bytes_eq_refl : (a : Bytes) → bytes_eq a a ≡ true
unfolding bytes_eq
bytes_eq_refl [] = refl
bytes_eq_refl (x ∷ xs) = ground (arith, bytes_eq_refl xs)

bytes_eq_of_eq : (a b : Bytes) → a ≡ b → bytes_eq a b ≡ true
bytes_eq_of_eq a b e = rw e (bytes_eq_refl b)

pub bytes_eq_iff : (a b : Bytes) → (bytes_eq a b ≡ true) ↔ (a ≡ b)
bytes_eq_iff a b = (eq_of_bytes_eq a b, bytes_eq_of_eq a b)
