-- ===== src/Examples/Folds.antt =====
-- The theorems on folds and reads of the index at concrete inputs.
use memlake.Prelude.{ℕ, ◌≤◌, ◌≡◌, refl, not, inr, none, some, [], ◌∷◌, arith, take, contains}
use memlake.Prelude.Results.{map_some}
use memlake.Prelude.Assoc.{lookup, keep_if}
use memlake.Prelude.Bytes.{codes}
use memlake.Prelude.Int.{pos}
use memlake.Core.Memory.{MemoryId}
use memlake.Core.Manifest.{empty_manifest}
use memlake.Core.Wal.{set_text, touch, apply_deltas}
use memlake.Wal.Tail.{stored_at, fold_entries}
use memlake.Wal.Tail.Slot.{slot_of, empty_slot, slot_entries, slot-fold_entries}
use memlake.Wal.Tail.Replay.{replay}
use memlake.Index.Segments.{live_items}
use memlake.Index.Segments.Live.{head?}
use memlake.Index.Segments.Copies.{is_deleted, copies_left, lookup-live_items}
use memlake.Index.Node.{open_node, get_one, get_many, segment_types, find_in_types, hidden}
use memlake.Index.Fold.{
  index, flush, flush_segment, flush_items, flush_overlay, patched_upserts, patch_only, reupserts,
  index_items, prune_links,
}
use memlake.Index.Fold.Rebuild.{rebuilt_ids, index-eq-replay, index-IsWellFormed}
use memlake.Index.Fold.Patched.{is_there}
use memlake.Index.Fold.Flush.{live_view, IsWellFormed, flush_slice}
use memlake.Index.Fold.History.{
  flush-eq-replay, flush-IsWellFormed, run_flushes, log_of, run_flushes-eq-replay,
}
use memlake.Index.Fold.Deletes.{
  rewrite_then_delete, index_items-eq-replay_deletes, predicate_delete_revives,
}
use memlake.Index.Compact.{compact_items, minor_run_len}
use memlake.Index.Compact.Lost.{compact_items-eq-replay, minor_compact_loses_patch}
use memlake.Index.Compact.Run.{Fits, minor_run_len_longest}
use memlake.Index.Reads.{get_one-eq-replay, get_one_before_patch}
use memlake.Examples.Data.{
  program, item, red, blue, first_slice, built, next_slice, last_slice, red_ones,
  built-IsWellFormed, seven, delete_red, flushed, flushed-IsWellFormed,
}

index-eq-replay_example :
    ((i : MemoryId)
      → contains (rebuilt_ids empty_manifest.segments first_slice) i
        ≡ is_there (replay i (live_view empty_manifest.segments i) first_slice))
    × ((j : MemoryId)
        → live_view (index empty_manifest 2 (fold_entries first_slice)).segments j
          ≡ map_some
              (prune_links (rebuilt_ids empty_manifest.segments first_slice))
              (replay j (live_view empty_manifest.segments j) first_slice))
index-eq-replay_example = index-eq-replay empty_manifest 2 first_slice refl

flush-eq-replay_example :
    live_view (flush_slice built 4 next_slice).segments 7
    ≡ replay 7 (live_view built.segments 7) next_slice
unfolding index
flush-eq-replay_example = flush-eq-replay built 4 next_slice built-IsWellFormed refl (omega arith) 7

flush-IsWellFormed_example : IsWellFormed (flush_slice built 4 next_slice)
unfolding index
flush-IsWellFormed_example =
    flush-IsWellFormed built 4 next_slice built-IsWellFormed refl (omega arith)

index-IsWellFormed_example : IsWellFormed (index built 4 (fold_entries next_slice))
index-IsWellFormed_example = index-IsWellFormed built 4 next_slice

run_flushes-eq-replay_example :
    live_view (run_flushes built ((4, next_slice) ∷ (5, last_slice) ∷ [])).segments 9
    ≡ replay 9 (live_view built.segments 9) (log_of ((4, next_slice) ∷ (5, last_slice) ∷ []))
unfolding index
run_flushes-eq-replay_example =
    run_flushes-eq-replay built ((4, next_slice) ∷ (5, last_slice) ∷ []) 9 built-IsWellFormed
      (omega arith, refl, (omega arith, refl, tt))

index_items-eq-replay_deletes_example :
    lookup 7 (index_items built.segments (fold_entries delete_red))
    ≡ replay 7 (live_view built.segments 7) delete_red
index_items-eq-replay_deletes_example =
    index_items-eq-replay_deletes built.segments delete_red 7 (omega arith, tt) (inr refl) refl

predicate_delete_revives_example :
    (lookup 8 (
        index_items built.segments
          (fold_entries (rewrite_then_delete 3 (item 8 (codes "e") (red ∷ [])) 4 red_ones)))
      ≡ some (stored_at 2 (item 8 (codes "b") (blue ∷ []))))
    × (replay 8
          (live_view built.segments 8)
          (rewrite_then_delete 3 (item 8 (codes "e") (red ∷ [])) 4 red_ones)
        ≡ none)
unfolding program
predicate_delete_revives_example =
    predicate_delete_revives built.segments (item 8 (codes "e") (red ∷ []))
      (stored_at 2 (item 8 (codes "b") (blue ∷ []))) 3 4 red_ones refl (omega arith) refl refl

get_one-eq-replay_example :
    get_one (open_node built.segments (fold_entries next_slice)) 8
    ≡ replay 8 (live_view built.segments 8) next_slice
unfolding program
get_one-eq-replay_example = get_one-eq-replay built next_slice 8 built-IsWellFormed refl refl

get_one_before_patch_example :
    (get_one (open_node built.segments (fold_entries next_slice)) 7 ≡ some seven)
    × (replay 7 (live_view built.segments 7) next_slice
        ≡ some (apply_deltas seven (set_text (codes "c") ∷ [])))
unfolding program
get_one_before_patch_example =
    get_one_before_patch built next_slice 7 built-IsWellFormed refl seven
      (set_text (codes "c") ∷ []) refl refl refl refl

compact_items-eq-replay_example :
    lookup 8 (
      compact_items
        (take 2 flushed.segments)
        (fold_entries last_slice)
        (open_node flushed.segments (fold_entries last_slice)))
    ≡ replay 8 (live_view (take 2 flushed.segments) 8) last_slice
unfolding program
compact_items-eq-replay_example =
    compact_items-eq-replay flushed last_slice 2 8 flushed-IsWellFormed refl refl

minor_compact_loses_patch_example :
    (lookup 9 (
        compact_items
          (take 2 flushed.segments)
          (fold_entries last_slice)
          (open_node flushed.segments (fold_entries last_slice)))
      ≡ some (stored_at 4 (item 9 (codes "d") [])))
    × (replay 9 (live_view (take 2 flushed.segments) 9) last_slice
        ≡ some (apply_deltas (stored_at 4 (item 9 (codes "d") [])) (touch (pos 50) ∷ [])))
unfolding program flush flush_segment flush_items flush_overlay open_node patched_upserts patch_only
    get_many get_one reupserts segment_types find_in_types hidden
minor_compact_loses_patch_example =
    minor_compact_loses_patch flushed last_slice 2 9 flushed-IsWellFormed refl
      (stored_at 4 (item 9 (codes "d") [])) (touch (pos 50) ∷ []) refl refl refl refl

minor_run_len_longest_example :
    ((k : ℕ) → minor_run_len (3 ∷ 2 ∷ 9 ∷ []) ≡ some k → Fits (3 ∷ 2 ∷ 9 ∷ []) k)
    × ((i : ℕ)
        → Fits (3 ∷ 2 ∷ 9 ∷ []) i
        → (k : ℕ) × (minor_run_len (3 ∷ 2 ∷ 9 ∷ []) ≡ some k) × (i ≤ k))
minor_run_len_longest_example = minor_run_len_longest (3 ∷ 2 ∷ 9 ∷ [])

slot-fold_entries_example :
    slot_of (fold_entries next_slice) 7 ≡ slot_entries 7 empty_slot next_slice
slot-fold_entries_example = slot-fold_entries next_slice 7

lookup-live_items_example :
    lookup 7 (live_items flushed.segments)
    ≡ keep_if
        (λ m. not (is_deleted flushed.segments m))
        (head? (copies_left flushed.segments 7 flushed.segments))
lookup-live_items_example = lookup-live_items flushed.segments 7
