-- ===== src/Core/Names.antt =====
-- crates/mlake-core/src/manifest.rs (`wal_path`) and crates/mlake-wal/src/lib.rs (`parse_wal_seq`): the
-- names of the log's objects. A name is the list of its bytes.
pub mod Order
use memlake.Prelude.{
  ℕ, zero, suc, ◌+◌, ◌-◌, ◌*◌, ◌/◌, ◌%◌, ◌^◌, ◌≤◌, ◌<◌, ◌≡◌, refl, sym, ap, ◌∙◌, Bool, true, false,
  ◌&&◌, ◌||◌, Option, none, some, [], ◌∷◌, ◌++◌, ltb, leb, ◌==◌, length, take, drop, any,
  if◌then◌else◌, arith, length-append,
}
use mathlib.Core.List.{append_assoc, append-nil}
use mathlib.Core.Path.{ap₂}
use memlake.Prelude.Bytes.{Bytes, codes, bytes_eq, bytes_lt, bytes_eq_refl}
use memlake.Prelude.Words.{take_append, drop_append}

-- `{seq:020}` at a width of `w`; a sequence below 2 ^ 64 has at most 20 digits
unfoldable pub pad_digits : ℕ → ℕ → Bytes
pad_digits zero n = []
pad_digits (suc w) n = pad_digits w (n / 10) ++ (48 + n % 10) ∷ []

abbrev pub wal_path : Bytes → ℕ → Bytes
wal_path name seq = name ++ (codes "/wal/" ++ (pad_digits 20 seq ++ codes ".bin"))

-- `rsplit('/').next()`
unfoldable pub last_part : Bytes → Bytes
last_part [] = []
last_part (c ∷ cs) =
    let rest = last_part cs in
    if any (λ x. x == 47) (c ∷ cs) then (if any (λ x. x == 47) cs then rest else cs) else c ∷ cs

-- `strip_suffix`
unfoldable pub strip_suffix : Bytes → Bytes → Option Bytes
strip_suffix suffix bytes =
    if leb (length suffix) (length bytes)
      && bytes_eq (drop (length bytes - length suffix) bytes) suffix
    then some (take (length bytes - length suffix) bytes)
    else none

unfoldable pub digits_from : ℕ → Bytes → Option ℕ
digits_from acc [] = some acc
digits_from acc (c ∷ cs) =
    let rest = digits_from (acc * 10 + (c - 48)) cs in if leb 48 c && leb c 57 then rest else none

-- `parse::<u64>`: a sign, at least one digit, no overflow
unfoldable pub parse_u64 : Bytes → Option ℕ
unfolding digits_from
parse_u64 [] = none
parse_u64 (c ∷ cs) =
    let number =
      (if (c == 43) && leb 1 (length cs) then digits_from 0 cs else digits_from 0 (c ∷ cs)) in
    elim number [ none ↦ none | some n ↦ if ltb n (2 ^ 64) then some n else none ]

unfoldable pub parse_wal_seq : Bytes → Option ℕ
unfolding last_part strip_suffix parse_u64
parse_wal_seq path = elim (strip_suffix (codes ".bin") (last_part path)) [
  | none ↦ none
  | some digits ↦ parse_u64 digits
]
