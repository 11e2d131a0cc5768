-- ===== src/Index/Spill.antt =====
-- crates/mlake-index/src/spill.rs: the external sort of keyed values, with a buffer in memory, sorted
-- runs in files, and the merge of the runs through a heap. A file is its bytes. The heap holds at
-- most one item of a run, so an item stands with the reader of its run; the heap's order, by key and
-- then by run, is in the choice of the top.
pub mod Sorted
pub mod Merged
pub mod Runs
use memlake.Prelude.{
  ℕ, zero, suc, ◌+◌, max, Bool, Option, none, some, List, [], ◌∷◌, ◌++◌, ltb, leb, length, is_empty,
  if◌then◌else◌,
}
use memlake.Prelude.Bytes.{Bytes}
use memlake.Prelude.Results.{Result, ok, err, ◌>>=◌, map_ok}
use memlake.Prelude.Sort.{sort_by}
use memlake.Index.Table.{Record, encode_record, next_record}

abbrev pub key_before : Record → Record → Bool
key_before a b = ltb a.0 b.0

pub data IoError : Type 0 where
  unexpected_eof : IoError

-- `RunReader::read_next`: the end of the file at a key is the end of the run, and an error behind it
unfoldable pub read_next : Bytes → Result IoError (Option (Record × Bytes))
read_next bytes =
    if ltb (length bytes) 16
    then ok none
    else elim (next_record bytes) [ none ↦ err unexpected_eof | some item ↦ ok (some item) ]

pub record ExternalSort : Type 0 where
  pub buf : List Record
  pub buf_bytes : ℕ
  pub cap_bytes : ℕ
  pub runs : List Bytes

unfoldable pub new_sort : ℕ → ExternalSort
new_sort cap_bytes = record { buf = []; buf_bytes = 0; cap_bytes = max cap_bytes 4096; runs = [] }

-- the loop that writes a run
unfoldable pub write_run : List Record → Bytes
unfolding encode_record
write_run [] = []
write_run (r ∷ rs) = encode_record r ++ write_run rs

unfoldable pub spill : ExternalSort → ExternalSort
spill s = if is_empty s.buf then s else record s {
  buf = [];
  buf_bytes = 0;
  runs = s.runs ++ write_run (sort_by key_before s.buf) ∷ [];
}

unfoldable pub add_pair : Record → ExternalSort → ExternalSort
add_pair r s =
    let next = record s { buf = s.buf ++ r ∷ []; buf_bytes = s.buf_bytes + (20 + length r.1) } in
    if leb next.cap_bytes next.buf_bytes then spill next else next

unfoldable pub add_pairs : List Record → ExternalSort → ExternalSort
add_pairs [] s = s
add_pairs (r ∷ rs) s = add_pairs rs (add_pair r s)

-- a reader, with the item of its run that stands in the heap
pub record RunState : Type 0 where
  pub reader : Bytes
  pub item : Option Record

pub data Merge : Type 0 where
  in_memory : List Record → Merge
  merging : List RunState → Merge

-- reads the next item of a run into the heap
unfoldable pub read_item : Bytes → Result IoError RunState
read_item bytes = read_next bytes >>= λ next. elim next [
  | none ↦ ok (record { reader = bytes; item = none })
  | some (r, rest) ↦ ok (record { reader = rest; item = some r })
]

unfoldable pub open_runs : List Bytes → Result IoError (List RunState)
open_runs [] = ok []
open_runs (file ∷ files) =
    read_item file >>= λ state. map_ok (λ states. state ∷ states) (open_runs files)

unfoldable pub finish_sort : ExternalSort → Result IoError Merge
finish_sort s =
    if is_empty s.runs
    then ok (in_memory (sort_by key_before s.buf))
    else map_ok merging (open_runs (spill s).runs)

-- the top of the heap with its run: the smallest key, and of several the first run
unfoldable pub heap_top : List RunState → Option (ℕ × Record)
heap_top [] = none
heap_top (s ∷ states) = elim s.item [
  | none ↦ elim (heap_top states) [ none ↦ none | some (run, r) ↦ some (suc run, r) ]
  | some top ↦ elim (heap_top states) [
    | none ↦ some (0, top)
    | some (run, r) ↦ if key_before r top then some (suc run, r) else some (0, top)
  ]
]

-- The top leaves the heap, and the next item of its run takes its place.
unfoldable pub refill : ℕ → List RunState → Result IoError (List RunState)
refill run [] = ok []
refill zero (s ∷ states) = map_ok (λ state. state ∷ states) (read_item s.reader)
refill (suc run) (s ∷ states) = map_ok (λ rest. s ∷ rest) (refill run states)

-- `Merge::next`
unfoldable pub next_item : Merge → Result IoError (Option (Record × Merge))
next_item (in_memory []) = ok none
next_item (in_memory (r ∷ rs)) = ok (some (r, in_memory rs))
next_item (merging states) = elim (heap_top states) [
  | none ↦ ok none
  | some (run, r) ↦ map_ok (λ rest. some (r, merging rest)) (refill run states)
]

-- the caller's loop over the stream
unfoldable pub drain : ℕ → Merge → Result IoError (List Record)
drain zero m = ok []
drain (suc fuel) m = next_item m >>= λ next. elim next [
  | none ↦ ok []
  | some (r, rest) ↦ map_ok (λ rs. r ∷ rs) (drain fuel rest)
]
