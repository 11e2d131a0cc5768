-- ===== src/Index/Table/Records.antt =====
-- The scans of a block that holds encoded records, in terms of the records.
use memlake.Prelude.{
  ℕ, zero, suc, ◌+◌, ◌≤◌, ◌<◌, ◌^◌, ◌≡◌, refl, sym, ap, ◌∙◌, ◌&&◌, none, some, List, [], ◌∷◌, ◌++◌,
  leb, length, take, drop, arith, if◌then◌else◌, All, length-append,
}
use mathlib.Core.List.{append_assoc}
use memlake.Prelude.Bytes.{Bytes}
use memlake.Prelude.Assoc.{lookup}
use memlake.Prelude.Words.{
  le_bytes, of_le_bytes, be_bytes, of_be_bytes, length-le_bytes, of_le_bytes-le_bytes,
  length-be_bytes, of_be_bytes-be_bytes, take_append, drop_append,
}
use memlake.Index.Table.{
  Record, encode_record, next_record, slice, scan_block, scan_block_range, scan_block_from,
}

-- A key of 16 bytes, and a value whose length fits its 4 bytes.
abbrev pub IsFit : Record → Type 0
IsFit r = (r.0 < 256 ^ 16) × (length r.1 < 256 ^ 4)

unfoldable pub encode_all : List Record → Bytes
encode_all [] = []
encode_all (r ∷ rs) = encode_record r ++ encode_all rs

pub encode_all-append :
    (xs ys : List Record) → encode_all (xs ++ ys) ≡ encode_all xs ++ encode_all ys
unfolding encode_all
encode_all-append [] ys = refl
encode_all-append (x ∷ xs) ys =
    ap (λ t. encode_record x ++ t) (encode_all-append xs ys)
    ∙ sym (append_assoc (encode_record x) (encode_all xs) (encode_all ys))

pub length-encode_record : (r : Record) → length (encode_record r) ≡ 20 + length r.1
unfolding encode_record
length-encode_record r =
    let k = be_bytes 16 r.0 in
    let n = le_bytes 4 (length r.1) in
    omega (
      arith,
      length-append k (n ++ r.1),
      length-append n r.1,
      length-be_bytes 16 r.0,
      length-le_bytes 4 (length r.1),
    )

pub next_record-nil : next_record [] ≡ none
unfolding next_record
next_record-nil = refl

-- The parts of a slice made of a key, a length and the rest.
module _ (k n : Bytes) (v rest : Bytes) (lk : length k ≡ 16) (ln : length n ≡ 4) where
  cut_length : length (k ++ (n ++ (v ++ rest))) ≡ 20 + length v + length rest
  cut_length = omega (
    arith,
    lk,
    ln,
    length-append k (n ++ (v ++ rest)),
    length-append n (v ++ rest),
    length-append v rest,
  )

  cut_key : slice 0 16 (k ++ (n ++ (v ++ rest))) ≡ k
  cut_key = take_append 16 k (n ++ (v ++ rest)) lk

  cut_len : slice 16 4 (k ++ (n ++ (v ++ rest))) ≡ n
  cut_len = ap (take 4) (drop_append 16 k (n ++ (v ++ rest)) lk) ∙ take_append 4 n (v ++ rest) ln

  drop_head : drop 20 (k ++ (n ++ (v ++ rest))) ≡ v ++ rest
  drop_head =
      ap (drop 20) (sym (append_assoc k n (v ++ rest)))
      ∙ drop_append 20 (k ++ n) (v ++ rest) (omega (arith, lk, ln, length-append k n))

  cut_value : slice 20 (length v) (k ++ (n ++ (v ++ rest))) ≡ v
  cut_value = ap (take (length v)) drop_head ∙ take_append (length v) v rest refl

  drop_record : drop (20 + length v) (k ++ (n ++ (v ++ rest))) ≡ rest
  drop_record =
      ap (drop (20 + length v))
        (sym (append_assoc k n (v ++ rest)) ∙ sym (append_assoc (k ++ n) v rest))
      ∙ drop_append (20 + length v) (k ++ n ++ v) rest
          (omega (arith, lk, ln, length-append k n, length-append (k ++ n) v))

pub next_record-encode :
    (r : Record) (rest : Bytes) → IsFit r → next_record (encode_record r ++ rest) ≡ some (r, rest)
unfolding next_record encode_record
next_record-encode r rest fit =
    let k = be_bytes 16 r.0 in
    let n = le_bytes 4 (length r.1) in
    let lk = length-be_bytes 16 r.0 in
    let ln = length-le_bytes 4 (length r.1) in
    let flat : (k ++ (n ++ r.1)) ++ rest ≡ k ++ (n ++ (r.1 ++ rest)) =
      append_assoc k (n ++ r.1) rest ∙ ap (λ t. k ++ t) (append_assoc n r.1 rest) in
    let vlen : of_le_bytes n ≡ length r.1 = of_le_bytes-le_bytes 4 (length r.1) fit.1 in
    let key : of_be_bytes k ≡ r.0 = of_be_bytes-be_bytes 16 r.0 fit.0 in
    rw
      (
        flat,
        cut_len k n r.1 rest lk ln,
        vlen,
        cut_key k n r.1 rest lk ln,
        key,
        cut_value k n r.1 rest lk ln,
        drop_record k n r.1 rest lk ln,
        cut_length k n r.1 rest lk ln,
      )
      (ground arith)

-- Keys ascend strictly.
abbrev pub Ascending : List Record → Type 0
Ascending [] = Unit
Ascending (r ∷ rs) = All (λ (e : Record). r.0 < e.0) rs × Ascending rs

next_record-encode_all :
    (r : Record) (rs : List Record)
    → IsFit r
    → next_record (encode_all (r ∷ rs)) ≡ some (r, encode_all rs)
unfolding encode_all
next_record-encode_all r rs fit = next_record-encode r (encode_all rs) fit

next_record-encode_none : next_record (encode_all []) ≡ none
unfolding encode_all
next_record-encode_none = next_record-nil

pub lookup-above :
    (key k : ℕ) (rs : List Record)
    → key ≤ k
    → All (λ (e : Record). k < e.0) rs
    → lookup key rs ≡ none
unfolding lookup
lookup-above key k [] le h = refl
lookup-above key k ((j, v) ∷ rs) le h = ground (arith, lookup-above key k rs le h.1)

pub scan_block-encode_all :
    (fuel : ℕ) (rs : List Record) (key : ℕ)
    → length rs ≤ fuel
    → All IsFit rs
    → Ascending rs
    → scan_block fuel (encode_all rs) key ≡ lookup key rs
unfolding scan_block lookup
scan_block-encode_all zero [] key le fit asc = refl
scan_block-encode_all zero (r ∷ rs) key le fit asc = absurd (omega arith)
scan_block-encode_all (suc fuel) [] key le fit asc = ground (arith, next_record-encode_none)
scan_block-encode_all (suc fuel) ((k, v) ∷ rs) key le fit asc = ground (
  arith,
  next_record-encode_all (k, v) rs fit.0,
  scan_block-encode_all fuel rs key (omega arith) fit.1 asc.1,
  λ (low : key < k). lookup-above key k rs (omega arith) asc.0,
)

-- the records with a key from `lo` to `hi`, and those from `lo` on
unfoldable pub between : ℕ → ℕ → List Record → List Record
between lo hi [] = []
between lo hi (r ∷ rs) = if leb lo r.0 && leb r.0 hi then r ∷ between lo hi rs else between lo hi rs

unfoldable pub from_key : ℕ → List Record → List Record
from_key lo [] = []
from_key lo (r ∷ rs) = if leb lo r.0 then r ∷ from_key lo rs else from_key lo rs

pub between-above :
    (lo hi k : ℕ) (rs : List Record)
    → hi ≤ k
    → All (λ (e : Record). k < e.0) rs
    → between lo hi rs ≡ []
unfolding between
between-above lo hi k [] le h = refl
between-above lo hi k (r ∷ rs) le h = ground (arith, between-above lo hi k rs le h.1)

pub scan_block_range-encode_all :
    (fuel : ℕ) (rs : List Record) (lo hi : ℕ)
    → length rs ≤ fuel
    → All IsFit rs
    → Ascending rs
    → scan_block_range fuel (encode_all rs) lo hi ≡ between lo hi rs
unfolding scan_block_range between
scan_block_range-encode_all zero [] lo hi le fit asc = refl
scan_block_range-encode_all zero (r ∷ rs) lo hi le fit asc = absurd (omega arith)
scan_block_range-encode_all (suc fuel) [] lo hi le fit asc = ground (arith, next_record-encode_none)
scan_block_range-encode_all (suc fuel) ((k, v) ∷ rs) lo hi le fit asc = ground (
  arith,
  next_record-encode_all (k, v) rs fit.0,
  scan_block_range-encode_all fuel rs lo hi (omega arith) fit.1 asc.1,
  λ (low : hi < k). between-above lo hi k rs (omega arith) asc.0,
)

pub scan_block_from-encode_all :
    (fuel : ℕ) (rs : List Record) (lo : ℕ)
    → length rs ≤ fuel
    → All IsFit rs
    → scan_block_from fuel (encode_all rs) lo ≡ from_key lo rs
unfolding scan_block_from from_key
scan_block_from-encode_all zero [] lo le fit = refl
scan_block_from-encode_all zero (r ∷ rs) lo le fit = absurd (omega arith)
scan_block_from-encode_all (suc fuel) [] lo le fit = ground (arith, next_record-encode_none)
scan_block_from-encode_all (suc fuel) ((k, v) ∷ rs) lo le fit = ground (
  arith,
  next_record-encode_all (k, v) rs fit.0,
  scan_block_from-encode_all fuel rs lo (omega arith) fit.1,
)

-- A block has at least as many bytes as records, so the scans have rounds enough.
pub length-le-encode_all : (rs : List Record) → length rs ≤ length (encode_all rs)
unfolding encode_all
length-le-encode_all [] = omega arith
length-le-encode_all (r ∷ rs) = omega (
  arith,
  length-le-encode_all rs,
  length-append (encode_record r) (encode_all rs),
  length-encode_record r,
)
