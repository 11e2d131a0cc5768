-- ===== src/Index/Table/Directory.antt =====
-- `SsTableIndex`: the directory read back, and the block that could hold a key. A read
-- that cannot reserve room for the blocks that a head announces does not return: it panics, or the
-- allocator aborts it. That end is an outcome of its own.
use memlake.Prelude.{
  ℕ, zero, suc, ◌*◌, ◌-◌, ◌^◌, Bool, Option, none, List, [], ◌∷◌, ltb, leb, length, take, drop,
  get_elem?, if◌then◌else◌,
}
use memlake.Prelude.Bytes.{Bytes}
use memlake.Prelude.Words.{of_le_bytes, of_be_bytes}
use memlake.Prelude.Results.{Result, ok, err, map_ok}
use memlake.Index.Table.Builder.{BlockRef}

pub data TableError : Type 0 where
  index_too_short index_truncated no_capacity : TableError

pub record SsTableIndex : Type 0 where
  pub blocks : List BlockRef
  pub count : ℕ

-- `bytes[a..a + n]`
abbrev pub slice : ℕ → ℕ → Bytes → Bytes
slice a n bytes = take n (drop a bytes)

unfoldable pub parse_ref : Bytes → BlockRef
parse_ref bytes = record {
  first_key = of_be_bytes (slice 0 16 bytes);
  offset = of_le_bytes (slice 16 8 bytes);
  len = of_le_bytes (slice 24 4 bytes);
}

-- the loop over the blocks, on the bytes from `p` on
unfoldable pub parse_refs : ℕ → Bytes → Result TableError (List BlockRef)
parse_refs zero bytes = ok []
parse_refs (suc n) bytes =
    if ltb (length bytes) 28
    then err index_truncated
    else map_ok (λ bs. parse_ref bytes ∷ bs) (parse_refs n (drop 28 bytes))

-- `size_of::<BlockRef>()`: 28 bytes of fields, up to the alignment of a `u64`
abbrev pub block_ref_size : ℕ
block_ref_size = 32

-- `isize::MAX`, which no reservation exceeds
abbrev pub max_capacity : ℕ
max_capacity = 2 ^ 63 - 1

-- `parse` where a reservation gets at most `room` bytes
unfoldable pub parse_within : ℕ → Bytes → Result TableError SsTableIndex
parse_within room bytes =
    if ltb (length bytes) 16
    then err index_too_short
    else if ltb room (block_ref_size * of_le_bytes (slice 8 8 bytes))
    then err no_capacity
    else map_ok (λ bs. record { blocks = bs; count = of_le_bytes (slice 0 8 bytes) })
        (parse_refs (of_le_bytes (slice 8 8 bytes)) (drop 16 bytes))

abbrev pub parse : Bytes → Result TableError SsTableIndex
parse bytes = parse_within max_capacity bytes

-- `partition_point`: how many elements in front pass
unfoldable pub partition_point : (BlockRef → Bool) → List BlockRef → ℕ
partition_point p [] = 0
partition_point p (b ∷ bs) = if p b then suc (partition_point p bs) else 0

abbrev pub starts_by : ℕ → BlockRef → Bool
starts_by key b = leb b.first_key key

unfoldable pub block_for : ℕ → List BlockRef → Option BlockRef
unfolding partition_point
block_for key blocks = elim (partition_point (starts_by key) blocks) [
  | zero ↦ none
  | suc i ↦ get_elem? blocks i
]
