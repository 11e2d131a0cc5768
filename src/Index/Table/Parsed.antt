-- ===== src/Index/Table/Parsed.antt =====
-- The round trip of the directory: what `parse` reads of the bytes that `finish` writes.
use memlake.Prelude.{
  ℕ, zero, suc, ◌+◌, ◌-◌, ◌*◌, ◌≤◌, ◌<◌, ◌^◌, ◌≡◌, refl, sym, ap, ◌∙◌, List, [], ◌∷◌, ◌++◌, ltb,
  length, take, drop, arith, All, length-append, if◌then◌else◌,
}
use mathlib.Core.List.{append_assoc}
use memlake.Prelude.Bytes.{Bytes}
use memlake.Prelude.Results.{ok, err}
use memlake.Prelude.Words.{
  le_bytes, of_le_bytes, be_bytes, of_be_bytes, length-le_bytes, of_le_bytes-le_bytes,
  length-be_bytes, of_be_bytes-be_bytes, take_append, drop_append,
}
use memlake.Index.Table.{
  BlockRef, index_too_short, index_truncated, no_capacity, block_ref_size, max_capacity,
  parse_within, encode_ref, encode_refs, slice, parse_ref, parse_refs, parse,
}

-- The fields fit their widths.
abbrev pub IsPlaced : BlockRef → Type 0
IsPlaced b = (b.first_key < 256 ^ 16) × (b.offset < 256 ^ 8) × (b.len < 256 ^ 4)

length-encode_ref : (b : BlockRef) → length (encode_ref b) ≡ 28
unfolding encode_ref
length-encode_ref b =
    let k = be_bytes 16 b.first_key in
    let o = le_bytes 8 b.offset in
    omega (
      arith,
      length-append k (o ++ le_bytes 4 b.len),
      length-append o (le_bytes 4 b.len),
      length-be_bytes 16 b.first_key,
      length-le_bytes 8 b.offset,
      length-le_bytes 4 b.len,
    )

-- A slice cut in three, of 16 and 8 bytes and the rest.
module _ (k o rest : Bytes) (lk : length k ≡ 16) (lo : length o ≡ 8) where
  cut_key : slice 0 16 (k ++ (o ++ rest)) ≡ k
  cut_key = take_append 16 k (o ++ rest) lk

  cut_offset : slice 16 8 (k ++ (o ++ rest)) ≡ o
  cut_offset = ap (take 8) (drop_append 16 k (o ++ rest) lk) ∙ take_append 8 o rest lo

  drop_both : drop 24 (k ++ (o ++ rest)) ≡ rest
  drop_both =
      ap (drop 24) (sym (append_assoc k o rest))
      ∙ drop_append 24 (k ++ o) rest (omega (arith, lk, lo, length-append k o))

parse_ref-encode_ref :
    (b : BlockRef) (rest : Bytes) → IsPlaced b → parse_ref (encode_ref b ++ rest) ≡ b
unfolding parse_ref encode_ref
parse_ref-encode_ref b rest fit =
    let k = be_bytes 16 b.first_key in
    let o = le_bytes 8 b.offset in
    let n = le_bytes 4 b.len in
    let lk = length-be_bytes 16 b.first_key in
    let lo = length-le_bytes 8 b.offset in
    let ln = length-le_bytes 4 b.len in
    let flat : (k ++ (o ++ n)) ++ rest ≡ k ++ (o ++ (n ++ rest)) =
      append_assoc k (o ++ n) rest ∙ ap (λ t. k ++ t) (append_assoc o n rest) in
    let key : of_be_bytes k ≡ b.first_key = of_be_bytes-be_bytes 16 b.first_key fit.0 in
    let offset : of_le_bytes o ≡ b.offset = of_le_bytes-le_bytes 8 b.offset fit.1 in
    let len : of_le_bytes n ≡ b.len = of_le_bytes-le_bytes 4 b.len fit.2 in
    rw
      (
        flat,
        cut_key k o (n ++ rest) lk lo,
        cut_offset k o (n ++ rest) lk lo,
        drop_both k o (n ++ rest) lk lo,
        take_append 4 n rest ln,
        key,
        offset,
        len,
      )
      refl

parse_refs-encode_refs :
    (bs : List BlockRef) → All IsPlaced bs → parse_refs (length bs) (encode_refs bs) ≡ ok bs
unfolding parse_refs encode_refs
parse_refs-encode_refs [] fit = refl
parse_refs-encode_refs (b ∷ bs) fit =
    let enough : 28 ≤ length (encode_ref b ++ encode_refs bs) =
      omega (arith, length-append (encode_ref b) (encode_refs bs), length-encode_ref b) in
    rw
      (
        drop_append 28 (encode_ref b) (encode_refs bs) (length-encode_ref b),
        parse_refs-encode_refs bs fit.1,
        parse_ref-encode_ref b (encode_refs bs) fit.0,
      )
      (ground arith)

-- `parse` reads back the count and the directory that `finish` wrote, when they fit their widths
-- and the blocks their reservation.
pub parse-encode_refs :
    (n : ℕ) (bs : List BlockRef)
    → n < 256 ^ 8
    → block_ref_size * length bs ≤ max_capacity
    → All IsPlaced bs
    → parse (le_bytes 8 n ++ (le_bytes 8 (length bs) ++ encode_refs bs))
      ≡ ok (record { blocks = bs; count = n })
unfolding parse_within
parse-encode_refs n bs fits_n reserved fit =
    let c = le_bytes 8 n in
    let k = le_bytes 8 (length bs) in
    let lc = length-le_bytes 8 n in
    let lk = length-le_bytes 8 (length bs) in
    let count : of_le_bytes c ≡ n = of_le_bytes-le_bytes 8 n fits_n in
    let blocks : of_le_bytes k ≡ length bs =
      of_le_bytes-le_bytes 8 (length bs) (omega (arith, reserved)) in
    let enough : 16 ≤ length (c ++ (k ++ encode_refs bs)) =
      omega
        (arith, length-append c (k ++ encode_refs bs), length-append k (encode_refs bs), lc, lk) in
    let past : drop 16 (c ++ (k ++ encode_refs bs)) ≡ encode_refs bs =
      ap (drop 16) (sym (append_assoc c k (encode_refs bs)))
      ∙ drop_append 16 (c ++ k) (encode_refs bs) (omega (arith, length-append c k, lc, lk)) in
    rw
      (
        take_append 8 c (k ++ encode_refs bs) lc,
        drop_append 8 c (k ++ encode_refs bs) lc,
        take_append 8 k (encode_refs bs) lk,
        past,
        count,
        blocks,
        parse_refs-encode_refs bs fit,
      )
      (ground arith)

length-drop : (n : ℕ) (bytes : Bytes) → length (drop n bytes) ≡ length bytes - n
length-drop zero bytes = omega arith
length-drop (suc n) [] = omega arith
length-drop (suc n) (x ∷ xs) = omega (arith, length-drop n xs)

parse_refs_truncated :
    (n : ℕ) (bytes : Bytes) → length bytes < 28 * n → parse_refs n bytes ≡ err index_truncated
unfolding parse_refs
parse_refs_truncated zero bytes short = absurd (omega arith)
parse_refs_truncated (suc n) bytes short = ground (
  arith,
  λ (h : 28 ≤ length bytes).
      parse_refs_truncated n (drop 28 bytes) (omega (arith, length-drop 28 bytes)),
)

-- A directory that has not the 16 bytes of its head is refused as too short. With less than 28 bytes for
-- each block that its head announces, it is refused as truncated, unless 32 bytes for each of them
-- are more than a reservation gets: then the read ends without a result, before any of them is read.
pub parse_refused :
    (room : ℕ) (bytes : Bytes)
    → length bytes < 16 + 28 * of_le_bytes (slice 8 8 bytes)
    → parse_within room bytes
      ≡ err (
          if ltb (length bytes) 16
          then index_too_short
          else if ltb room (32 * of_le_bytes (slice 8 8 bytes))
          then no_capacity
          else index_truncated)
unfolding parse_within
parse_refused room bytes short = ground (
  arith,
  λ (h : 16 ≤ length bytes).
      parse_refs_truncated (of_le_bytes (slice 8 8 bytes)) (drop 16 bytes)
        (omega (arith, length-drop 16 bytes)),
)
