-- ===== src/Index/Table.antt =====
-- crates/mlake-index/src/sstable.rs: a table of records sorted by key, cut into blocks. The `.idx`
-- object has each block's first key and place, the `.data` object the blocks. A ranged read of an
-- object gives that range of its bytes; a key of 16 bytes is the number that it spells, so that the
-- order of keys is that of numbers.
mod Builder
mod Directory
mod Blocks
unfoldable pub use Builder.*
unfoldable pub use Directory.*
unfoldable pub use Blocks.*
pub mod Records
pub mod Built
pub mod Parsed
pub mod Sizes
pub mod Get
pub mod Many
pub mod Lookup
pub mod Windows
pub mod Ranges
pub mod Scans
pub mod Forward
use memlake.Prelude.{
  ℕ, zero, suc, ◌+◌, ◌-◌, ◌≤◌, max, Bool, true, false, ◌||◌, ◌&&◌, Option, none, some, List, [],
  ◌∷◌, ◌++◌, ltb, leb, ◌==◌, length, take, drop, get_elem?, is_empty, if◌then◌else◌, map,
}
use memlake.Prelude.Bytes.{Bytes}
use memlake.Prelude.Words.{le_bytes, of_le_bytes, be_bytes, of_be_bytes}
use memlake.Prelude.Results.{Result, ok, err, map_ok}

-- a ranged read
abbrev pub get_range : Bytes → BlockRef → Bytes
get_range data_bytes b = slice b.offset b.len data_bytes

unfoldable pub get : SsTableIndex → Bytes → ℕ → Option Bytes
get index data_bytes key = elim (block_for key index.blocks) [
  | none ↦ none
  | some b ↦ scan_block (length (get_range data_bytes b)) (get_range data_bytes b) key
]

-- the bytes of a block, as they stand in `.data`
abbrev pub Range : Type 0
Range = ℕ × ℕ

abbrev pub range_of : BlockRef → Range
range_of b = (b.offset, b.offset + b.len)

abbrev pub range_before : Range → Range → Bool
range_before a b = ltb a.0 b.0 || ((a.0 == b.0) && ltb a.1 b.1)

abbrev pub same_range : Range → Range → Bool
same_range a b = (a.0 == b.0) && (a.1 == b.1)

-- `block_keys.entry(range).or_default().push(k)` on a map sorted by range
unfoldable pub push_key : Range → ℕ → List (Range × List ℕ) → List (Range × List ℕ)
push_key range k [] = (range, k ∷ []) ∷ []
push_key range k ((r, ks) ∷ groups) =
    if same_range r range
    then (r, ks ++ k ∷ []) ∷ groups
    else if range_before range r
    then (range, k ∷ []) ∷ (r, ks) ∷ groups
    else (r, ks) ∷ push_key range k groups

unfoldable pub block_keys : SsTableIndex → List ℕ → List (Range × List ℕ) → List (Range × List ℕ)
block_keys index [] groups = groups
block_keys index (k ∷ keys) groups = elim (block_for k index.blocks) [
  | none ↦ block_keys index keys groups
  | some b ↦ block_keys index keys (push_key (range_of b) k groups)
]

unfoldable pub scan_keys : Bytes → List ℕ → List Record
scan_keys block [] = []
scan_keys block (k ∷ ks) = elim (scan_block (length block) block k) [
  | none ↦ scan_keys block ks
  | some v ↦ (k, v) ∷ scan_keys block ks
]

unfoldable pub scan_groups : Bytes → List (Range × List ℕ) → List Record
scan_groups data_bytes [] = []
scan_groups data_bytes ((r, ks) ∷ groups) =
    scan_keys (slice r.0 (r.1 - r.0) data_bytes) ks ++ scan_groups data_bytes groups

-- The early returns on no keys and on no groups give the empty list that the loops give.
unfoldable pub get_many : SsTableIndex → Bytes → List ℕ → List Record
get_many index data_bytes keys = scan_groups data_bytes (block_keys index keys [])

-- The blocks read as one request, and the scan of each.
unfoldable pub scan_each : (Bytes → List Record) → Bytes → List BlockRef → List Record
scan_each scan data_bytes [] = []
scan_each scan data_bytes (b ∷ bs) = scan (get_range data_bytes b) ++ scan_each scan data_bytes bs

abbrev pub range_scan : ℕ → ℕ → Bytes → List Record
range_scan lo hi block = scan_block_range (length block) block lo hi

abbrev pub forward_scan : ℕ → Bytes → List Record
forward_scan lo block = scan_block_from (length block) block lo

unfoldable pub scan_range : SsTableIndex → Bytes → ℕ → ℕ → List Record
unfolding partition_point
scan_range index data_bytes lo hi =
    let start = partition_point (starts_by lo) index.blocks - 1 in
    let end = partition_point (starts_by hi) index.blocks in
    if is_empty index.blocks || ltb hi lo
    then []
    else if leb end start
    then []
    else scan_each (range_scan lo hi) data_bytes (take (end - start) (drop start index.blocks))

abbrev pub block_batch : ℕ
block_batch = 4

-- the loop of `scan_forward` on the blocks from `i` on; each round takes one of them at least
unfoldable pub forward_from : ℕ → Bytes → ℕ → ℕ → List BlockRef → List Record → List Record
forward_from zero data_bytes lo cap bs out = out
forward_from (suc fuel) data_bytes lo cap bs out =
    if is_empty bs || leb cap (length out)
    then out
    else forward_from fuel data_bytes lo cap (drop block_batch bs)
        (out ++ scan_each (forward_scan lo) data_bytes (take block_batch bs))

unfoldable pub scan_forward : SsTableIndex → Bytes → ℕ → ℕ → List Record
unfolding partition_point
scan_forward index data_bytes lo cap =
    let start = partition_point (starts_by lo) index.blocks - 1 in
    if is_empty index.blocks || (cap == 0)
    then []
    else take cap
        (forward_from (length index.blocks) data_bytes lo cap (drop start index.blocks) [])
