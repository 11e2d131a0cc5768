-- ===== src/Index/Table/Blocks.antt =====
-- The three scans of a block.
use memlake.Prelude.{
  ℕ, zero, suc, ◌+◌, ◌||◌, Option, none, some, List, [], ◌∷◌, ltb, leb, ◌==◌, length, drop,
  if◌then◌else◌,
}
use memlake.Prelude.Bytes.{Bytes}
use memlake.Prelude.Words.{of_le_bytes, of_be_bytes}
use memlake.Index.Table.Builder.{Record}
use memlake.Index.Table.Directory.{slice}

-- The head of the three scans of a block: the record at the front with what follows it, or nothing
-- where a loop ends or breaks for lack of bytes.
unfoldable pub next_record : Bytes → Option (Record × Bytes)
next_record bytes =
    let vlen = of_le_bytes (slice 16 4 bytes) in
    if ltb (length bytes) 20 || ltb (length bytes) (20 + vlen)
    then none
    else some ((of_be_bytes (slice 0 16 bytes), slice 20 vlen bytes), drop (20 + vlen) bytes)

-- Each round takes 20 bytes at least, so as many rounds as there are bytes are enough.
unfoldable pub scan_block : ℕ → Bytes → ℕ → Option Bytes
scan_block zero bytes key = none
scan_block (suc fuel) bytes key = elim (next_record bytes) [
  | none ↦ none
  | some ((k, v), rest) ↦
      if k == key then some v else if ltb key k then none else scan_block fuel rest key
]

unfoldable pub scan_block_range : ℕ → Bytes → ℕ → ℕ → List Record
scan_block_range zero bytes lo hi = []
scan_block_range (suc fuel) bytes lo hi = elim (next_record bytes) [
  | none ↦ []
  | some ((k, v), rest) ↦
      if ltb hi k
      then []
      else if leb lo k
      then (k, v) ∷ scan_block_range fuel rest lo hi
      else scan_block_range fuel rest lo hi
]

unfoldable pub scan_block_from : ℕ → Bytes → ℕ → List Record
scan_block_from zero bytes lo = []
scan_block_from (suc fuel) bytes lo = elim (next_record bytes) [
  | none ↦ []
  | some ((k, v), rest) ↦
      if leb lo k then (k, v) ∷ scan_block_from fuel rest lo else scan_block_from fuel rest lo
]
