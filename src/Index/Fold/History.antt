-- ===== src/Index/Fold/History.antt =====
-- A history of flushes against the log that it folds.
use mathlib.Core.Path.{ap₂}
use memlake.Prelude.{
  ℕ, ◌≤◌, ◌<◌, ◌≡◌, refl, sym, ap, ◌∙◌, true, Option, none, some, List, [], ◌∷◌, ◌++◌, arith,
  length,
}
use memlake.Core.Memory.{MemoryId, StoredMemory}
use memlake.Core.Manifest.{Manifest, Segment}
use memlake.Core.Wal.{WalEntry}
use memlake.Wal.Tail.Replay.{replay, replay_ops, no_wheres}
use memlake.Index.Segments.{seg_predicates}
use memlake.Index.Segments.Live.{head?, EndsBy}
use memlake.Index.Node.Get.{IsSharp}
use memlake.Index.Fold.{flush_overlay, flush_segment}
use memlake.Index.Fold.Patched.{as_list}
use memlake.Index.Fold.Flush.{
  live_view, live_view-head, scan_predicates-none, IsWellFormed, flush_slice, new_segment,
  segments-flush, cursor-flush, live_copies-flush,
}

EndsBy-mono : (a b : ℕ) (segs : List Segment) → a ≤ b → EndsBy a segs → EndsBy b segs
EndsBy-mono a b [] le h = tt
EndsBy-mono a b (seg ∷ segs) le h = (omega arith, EndsBy-mono a b segs le h.1)

pub length-as_list : (o : Option StoredMemory) → length (as_list o) ≤ 1
length-as_list none = omega arith
length-as_list (some m) = omega arith

pub head?-as_list : (o : Option StoredMemory) → head? (as_list o) ≡ o
head?-as_list none = refl
head?-as_list (some m) = refl

module _ (m : Manifest) (head : ℕ) (es : List WalEntry) (wf : IsWellFormed m)
    (plain : no_wheres es ≡ true) (lt : m.wal_index_cursor < head) where
  predicates-new : seg_predicates (new_segment m head es ∷ m.segments) ≡ []
  unfolding seg_predicates flush_segment flush_overlay
  predicates-new = ap₂ (λ ps qs. ps ++ qs) (scan_predicates-none es plain) wf.none_left

  IsSharp-flush : IsSharp (flush_slice m head es).segments
  IsSharp-flush j =
      rw (live_copies-flush m head es wf plain lt j)
        (length-as_list (replay j (live_view m.segments j) es))

  ends-new : EndsBy head (new_segment m head es ∷ m.segments)
  unfolding flush_segment
  ends-new = (omega arith, EndsBy-mono m.wal_index_cursor head m.segments (omega arith) wf.ends)

  -- A flush of a slice without predicate deletes, to a head past the cursor, keeps the manifest
  -- well-formed.
  pub flush-IsWellFormed : IsWellFormed (flush_slice m head es)
  flush-IsWellFormed = record {
    sharp = IsSharp-flush;
    ends = rw (cursor-flush m head es lt, segments-flush m head es lt) ends-new;
    none_left = rw (segments-flush m head es lt) predicates-new;
  }

  -- A flush, from a well-formed manifest, of a slice without predicate deletes, to a head past
  -- the cursor: the segments hold at each id what the replay of the slice leaves of what they
  -- held.
  pub flush-eq-replay :
      (j : MemoryId)
      → live_view (flush_slice m head es).segments j ≡ replay j (live_view m.segments j) es
  flush-eq-replay j =
      live_view-head (flush_slice m head es).segments j flush-IsWellFormed.none_left
      ∙ ap head? (live_copies-flush m head es wf plain lt j)
      ∙ head?-as_list (replay j (live_view m.segments j) es)

pub replay-append :
    (j : MemoryId) (v : Option StoredMemory) (xs ys : List WalEntry)
    → replay j v (xs ++ ys) ≡ replay j (replay j v xs) ys
unfolding replay
replay-append j v [] ys = refl
replay-append j v (x ∷ xs) ys = replay-append j (replay_ops x.seq j v x.ops) xs ys

-- Rounds of the indexer: the head that each one folded up to, and the slice.
pub run_flushes : Manifest → List (ℕ × List WalEntry) → Manifest
run_flushes m [] = m
run_flushes m ((head, es) ∷ rounds) = run_flushes (flush_slice m head es) rounds

pub log_of : List (ℕ × List WalEntry) → List WalEntry
log_of [] = []
log_of ((head, es) ∷ rounds) = es ++ log_of rounds

-- Each round's head lies past the last one's, and no slice has a predicate delete.
abbrev pub AreRounds : ℕ → List (ℕ × List WalEntry) → Type 0
AreRounds cursor [] = Unit
AreRounds cursor ((head, es) ∷ rounds) =
    (cursor < head) × (no_wheres es ≡ true) × AreRounds head rounds

-- A history of flushes, from a well-formed manifest, whose heads grow and whose slices have no
-- predicate deletes: however the log is cut into slices, the segments hold at each id what the
-- replay of the whole log leaves of what they held.
pub run_flushes-eq-replay :
    (m : Manifest) (rounds : List (ℕ × List WalEntry)) (j : MemoryId)
    → IsWellFormed m
    → AreRounds m.wal_index_cursor rounds
    → live_view (run_flushes m rounds).segments j
      ≡ replay j (live_view m.segments j) (log_of rounds)
unfolding run_flushes log_of replay
run_flushes-eq-replay m [] j wf r = refl
run_flushes-eq-replay m ((head, es) ∷ rounds) j wf r =
    run_flushes-eq-replay (flush_slice m head es) rounds j (flush-IsWellFormed m head es wf r.1 r.0)
      (rw (cursor-flush m head es r.0) r.2)
    ∙ ap (λ v. replay j v (log_of rounds)) (flush-eq-replay m head es wf r.1 r.0 j)
    ∙ sym (replay-append j (live_view m.segments j) es (log_of rounds))
