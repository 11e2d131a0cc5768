-- ===== src/Wal/Scan/Listing.antt =====
-- The scan from a listing and the scan sequence by sequence find the same entries.
use memlake.Prelude.{
  ℕ, zero, suc, ◌+◌, ◌-◌, ◌<◌, ◌≡◌, refl, sym, ap, ◌∙◌, Bool, ◌&&◌, Option, none, some, List, [],
  ◌∷◌, leb, ltb, ◌==◌, arith, map, retain, All, if◌then◌else◌, Bool-cases, inl, inr,
}
use memlake.Prelude.Assoc.{lookup}
use memlake.Prelude.Sort.{sort_by}
use memlake.Core.Wal.{Op, WalEntry}
use memlake.Wal.Tail.{fold_entries}
use memlake.Wal.Namespace.{Store}
use memlake.Wal.Scan.{
  seq_before, entry_of, listed_entries, scan, scan_up_to, read_range, entries_up_to,
}
use memlake.Wal.Scan.Visible.{ops_at, ops_at-read_range}
use memlake.Wal.Scan.Ascending.{
  IsDistinct, IsUp, Log, eq_of_lookup, lookup-retain, lookup-sort_by, retain-IsDistinct,
  sort_by-IsUp,
}

abbrev pair_of : WalEntry → ℕ × List Op
pair_of e = (e.seq, e.ops)

lookup-pair_of : (q : ℕ) (es : List WalEntry) → lookup q (map pair_of es) ≡ ops_at q es
unfolding lookup ops_at
lookup-pair_of q [] = refl
lookup-pair_of q (e ∷ es) = ap (λ o. if e.seq == q then some e.ops else o) (lookup-pair_of q es)

map-entry_of : (es : List WalEntry) → map entry_of (map pair_of es) ≡ es
map-entry_of [] = refl
map-entry_of (e ∷ es) = ap (λ t. e ∷ t) (map-entry_of es)

read_range_above :
    (count seq : ℕ) (wal : Log) (low : ℕ)
    → low < seq
    → All (λ (x : ℕ × List Op). low < x.0) (map pair_of (read_range count seq wal))
unfolding read_range
read_range_above zero seq wal low lt = tt
read_range_above (suc count) seq wal low lt =
    at (lookup seq wal) (read_range_above count (seq + 1) wal low (omega arith))
  where
    at :
        (o : Option (List Op))
        → All (λ (x : ℕ × List Op). low < x.0) (map pair_of (read_range count (seq + 1) wal))
        → All
            (λ (x : ℕ × List Op). low < x.0)
            (map pair_of (elim o [
              | none ↦ read_range count (seq + 1) wal
              | some ops ↦ record { seq = seq; ops = ops } ∷ read_range count (seq + 1) wal
            ]))
    at none h = h
    at (some ops) h = (lt, h)

read_range-IsUp : (count seq : ℕ) (wal : Log) → IsUp (map pair_of (read_range count seq wal))
unfolding read_range
read_range-IsUp zero seq wal = tt
read_range-IsUp (suc count) seq wal =
    at (lookup seq wal) (read_range-IsUp count (seq + 1) wal)
      (read_range_above count (seq + 1) wal seq (omega arith))
  where
    at :
        (o : Option (List Op))
        → IsUp (map pair_of (read_range count (seq + 1) wal))
        → All (λ (x : ℕ × List Op). seq < x.0) (map pair_of (read_range count (seq + 1) wal))
        → IsUp (
            map pair_of (elim o [
              | none ↦ read_range count (seq + 1) wal
              | some ops ↦ record { seq = seq; ops = ops } ∷ read_range count (seq + 1) wal
            ]))
    at none h above = h
    at (some ops) h above = (above, h)

entries_up_to-IsUp :
    (after_seq head : ℕ) (s : Store) → IsUp (map pair_of (entries_up_to after_seq head s))
unfolding entries_up_to
entries_up_to-IsUp after_seq head s = elim (Bool-cases (leb head after_seq)) [
  | inl none_there ↦ rw (none_there) tt
  | inr some_there ↦ rw (some_there) (read_range-IsUp (head - after_seq) (after_seq + 1) s.wal)
]

ops_at-entries_up_to :
    (after_seq head q : ℕ) (s : Store)
    → ops_at q (entries_up_to after_seq head s)
      ≡ (if ltb after_seq q && leb q head then lookup q s.wal else none)
unfolding entries_up_to
ops_at-entries_up_to after_seq head q s = elim (Bool-cases (leb head after_seq)) [
  | inl none_there ↦ rw (none_there) (unfold ops_at in ground (arith, none_there))
  | inr some_there ↦
      rw (some_there)
        (ground (arith, some_there, ops_at-read_range (head - after_seq) (after_seq + 1) q s.wal))
]

listed-entries_up_to :
    (after_seq head : ℕ) (s : Store)
    → IsDistinct s.wal
    → listed_entries after_seq (some head) s ≡ entries_up_to after_seq head s
unfolding listed_entries
listed-entries_up_to after_seq head s h =
    let p : ℕ → Bool = λ k. ltb after_seq k && leb k head in
    let kept = retain (λ (e : ℕ × List Op). p e.0) s.wal in
    let distinct = retain-IsDistinct p s.wal h in
    let same : sort_by seq_before kept ≡ map pair_of (entries_up_to after_seq head s) =
      eq_of_lookup (sort_by seq_before kept) (map pair_of (entries_up_to after_seq head s))
        (sort_by-IsUp kept distinct) (entries_up_to-IsUp after_seq head s)
        (λ q.
          lookup-sort_by q kept distinct
          ∙ lookup-retain p q s.wal h
          ∙ sym (ops_at-entries_up_to after_seq head q s)
          ∙ sym (lookup-pair_of q (entries_up_to after_seq head s))) in
    ap (map entry_of) same ∙ map-entry_of (entries_up_to after_seq head s)

-- On a log whose objects have different names, the indexer's scan, from a listing, and a reader's scan
-- to the same head, which asks for each sequence in turn, give the same tail.
pub scan-eq-scan_up_to :
    (after_seq head : ℕ) (s : Store)
    → IsDistinct s.wal
    → scan after_seq (some head) s ≡ scan_up_to after_seq head s
unfolding scan scan_up_to
scan-eq-scan_up_to after_seq head s h = ap fold_entries (listed-entries_up_to after_seq head s h)
