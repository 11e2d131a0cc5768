-- ===== src/Index/Gc/Readers.antt =====
-- What readers and writers find after a collection of the log.
use memlake.Prelude.{
  ℕ, zero, suc, ◌+◌, ◌-◌, ◌≤◌, ◌<◌, ◌≡◌, refl, ◌∙◌, Bool, true, none, some, List, [], ◌∷◌, arith,
  ◌==◌, if◌then◌else◌, Bool-cases, ==_iff, inl, inr,
}
use memlake.Prelude.Assoc.{Assoc, lookup}
use memlake.Core.Wal.{Op}
use memlake.Core.Manifest.{Manifest}
use memlake.Wal.Namespace.{Store}
use memlake.Wal.Commit.{Writer, commit, guard_of}
use memlake.Wal.Scan.{read_range, entries_up_to, scan_up_to}
use memlake.Wal.Scan.Visible.{alone, seen, Landed, stale_commit_invisible}
use memlake.Index.Gc.{keeps_entry, keep_entries, gc_wal}

lookup-keep_entries :
    (aged : ℕ → Bool) (above q : ℕ) (wal : Assoc (List Op))
    → lookup q (keep_entries aged above wal)
      ≡ (if keeps_entry aged above q then lookup q wal else none)
unfolding keep_entries lookup
lookup-keep_entries aged above q [] = ground arith
lookup-keep_entries aged above q ((k, v) ∷ wal) = elim (Bool-cases (k == q)) [
  | inl same ↦ rw ((==_iff k q).0 same) (ground (arith, lookup-keep_entries aged above q wal))
  | inr other ↦ ground (arith, lookup-keep_entries aged above q wal)
]

read_range-keep_entries :
    (aged : ℕ → Bool) (above count seq : ℕ) (wal : Assoc (List Op))
    → above < seq
    → read_range count seq (keep_entries aged above wal) ≡ read_range count seq wal
unfolding read_range
read_range-keep_entries aged above zero seq wal h = refl
read_range-keep_entries aged above (suc count) seq wal h = ground (
  arith,
  read_range-keep_entries aged above count (seq + 1) wal,
  lookup-keep_entries aged above seq wal,
)

-- A collection takes nothing from the tail of a reader that opened at the manifest's cursor or at the
-- one before it: the reader's scan is the same.
pub scan_up_to-gc_wal :
    (aged : ℕ → Bool) (s : Store) (m : Manifest) (cursor head : ℕ)
    → s.manifest ≡ some m
    → m.prev_wal_index_cursor ≤ cursor
    → scan_up_to cursor head (gc_wal aged s) ≡ scan_up_to cursor head s
unfolding scan_up_to entries_up_to gc_wal
scan_up_to-gc_wal aged s m cursor head at le = ground (
  arith,
  at,
  read_range-keep_entries aged m.prev_wal_index_cursor (head - cursor) (cursor + 1) s.wal
      (omega arith),
)

-- A writer cached a sequence that others took, that two folds covered, and that a collection then
-- reclaimed. Its next commit, which no other writer disturbs, goes through at that sequence, and no
-- node that opens next sees it.
pub commit_after_gc_lost :
    (aged : ℕ → Bool) (op : Op) (ops : List Op) (w : Writer) (s : Store) (m : Manifest) (q : ℕ)
    → guard_of (op ∷ ops) ≡ none
    → w.next_seq ≡ some q
    → s.manifest ≡ some m
    → q ≤ m.prev_wal_index_cursor
    → m.prev_wal_index_cursor ≤ m.wal_index_cursor
    → aged q ≡ true
    → Landed (op ∷ ops) q (gc_wal aged s) (commit alone (op ∷ ops) w (gc_wal aged s))
      × (seen m.wal_index_cursor (commit alone (op ∷ ops) w (gc_wal aged s)) ≡ none)
commit_after_gc_lost aged op ops w s m q calm cached at le le2 old =
    stale_commit_invisible op ops w (gc_wal aged s) m q calm cached
      (unfold gc_wal in ground (arith, at)) (omega arith)
      (unfold gc_wal in
        rw at (lookup-keep_entries aged m.prev_wal_index_cursor q s.wal ∙ ground (arith, old)))
