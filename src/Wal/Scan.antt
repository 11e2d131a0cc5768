-- ===== src/Wal/Scan.antt =====
-- crates/mlake-wal/src/tail.rs: `scan`, the tail that the indexer folds, from a listing of the log; and
-- `scan_up_to`, the tail that a reader folds. It asks for each sequence
-- past the cursor in turn and skips the ones that are not there.
pub mod Visible
pub mod Ascending
pub mod Listing
use memlake.Prelude.{
  ℕ, zero, suc, ◌+◌, ◌-◌, Bool, true, false, ◌&&◌, Option, none, some, List, [], ◌∷◌, leb, ltb, map,
  retain, is_empty, if◌then◌else◌,
}
use memlake.Prelude.Sort.{sort_by}
use memlake.Prelude.Assoc.{Assoc, lookup}
use memlake.Core.Wal.{Op, WalEntry}
use memlake.Wal.Tail.{TailScan, fold_entries}
use memlake.Wal.Namespace.{Store, resolve_head, wal_head}

-- `TailScan::is_empty`
unfoldable pub is_empty_scan : TailScan → Bool
is_empty_scan scan =
    is_empty scan.upserts
    && (is_empty scan.tombstones
        && (is_empty scan.pending_patches && is_empty scan.predicate_tombstones))

-- the entries of `count` sequences from `seq` on
unfoldable pub read_range : ℕ → ℕ → Assoc (List Op) → List WalEntry
read_range zero seq wal = []
read_range (suc count) seq wal =
    let rest = read_range count (seq + 1) wal in
    elim (lookup seq wal) [ none ↦ rest | some ops ↦ record { seq = seq; ops = ops } ∷ rest ]

abbrev pub seq_before : ℕ × List Op → ℕ × List Op → Bool
seq_before a b = ltb a.0 b.0

-- `through_seq.is_none_or(|t| *seq <= t)`
abbrev pub within : Option ℕ → ℕ → Bool
within none seq = true
within (some through) seq = leb seq through

abbrev pub entry_of : ℕ × List Op → WalEntry
entry_of e = record { seq = e.0; ops = e.1 }

-- the entries of `scan`: those of the listing past one sequence and up to another, sorted
unfoldable pub listed_entries : ℕ → Option ℕ → Store → List WalEntry
listed_entries after_seq through_seq s =
    map entry_of
      (sort_by seq_before (retain (λ e. ltb after_seq e.0 && within through_seq e.0) s.wal))

-- `WalTail::scan`
unfoldable pub scan : ℕ → Option ℕ → Store → TailScan
unfolding listed_entries fold_entries
scan after_seq through_seq s = fold_entries (listed_entries after_seq through_seq s)

unfoldable pub entries_up_to : ℕ → ℕ → Store → List WalEntry
unfolding read_range
entries_up_to after_seq head s =
    if leb head after_seq then [] else read_range (head - after_seq) (after_seq + 1) s.wal

unfoldable pub scan_up_to : ℕ → ℕ → Store → TailScan
unfolding entries_up_to fold_entries
scan_up_to after_seq head s = fold_entries (entries_up_to after_seq head s)

-- the entries that a node folds when it opens at a cursor
unfoldable pub open_entries : ℕ → Store → List WalEntry
unfolding entries_up_to resolve_head
open_entries cursor s = entries_up_to cursor (resolve_head s) s
