-- ===== src/Wal/Commit/Burst.antt =====
-- What an acknowledged burst of `commit_many` promises, whatever other writers do meanwhile.
use memlake.Prelude.{
  ℕ, suc, ◌+◌, ◌-◌, ◌≤◌, ◌≡◌, refl, sym, ap, ◌∙◌, true, false, not, none, some, List, [], ◌∷◌,
  length, map, retain, is_empty, arith, All, Bool-cases, Option-cases, inl, inr,
}
use mathlib.Core.Path.{subst}
use memlake.Prelude.Assoc.{lookup, lookup-insert}
use memlake.Core.Wal.{Op, WalEntry}
use memlake.Wal.Namespace.{Store}
use memlake.Wal.Commit.{
  Writer, Outcome, done, failed, Rivals, bump_head_pointer, put_entry, max_claim_attempts,
  first_seq,
}
use memlake.Wal.Commit.Acked.{covers, KeepsLog, Published, bump-Published, put_entry-keeps}
use memlake.Wal.Commit.Many.{assign, put_all, with_value, Schedule, burst, commit_many}

abbrev InLog : Store → WalEntry → Type 0
InLog s e = lookup e.seq s.wal ≡ some e.ops

put_all_free :
    (rivals : Rivals) (e : WalEntry) (es : List WalEntry) (s : Store)
    → lookup e.seq (rivals (length es) s).wal ≡ none
    → put_all rivals (e ∷ es) s ≡ put_all rivals es (put_entry e.seq e.ops (rivals (length es) s))
unfolding put_all
put_all_free rivals e es s free = rw (free, put_all) refl

put_all_taken :
    (rivals : Rivals) (e : WalEntry) (es : List WalEntry) (s : Store) (x : List Op)
    → lookup e.seq (rivals (length es) s).wal ≡ some x
    → put_all rivals (e ∷ es) s ≡ (false, rivals (length es) s)
unfolding put_all
put_all_taken rivals e es s x taken = rw (taken, put_all) refl

module _ (rivals : Rivals) (honest : KeepsLog rivals) where
  put_all-keeps :
      (es : List WalEntry) (s : Store) (k : ℕ) (x : List Op)
      → lookup k s.wal ≡ some x
      → lookup k (put_all rivals es s).1.wal ≡ some x
  put_all-keeps [] s k x h = unfold put_all in h
  put_all-keeps (e ∷ es) s k x h =
      let here = honest (length es) s k x h in
      elim (Option-cases (lookup e.seq (rivals (length es) s).wal)) [
        | inl free ↦
            subst (λ r. lookup k r.1.wal ≡ some x) (sym (put_all_free rivals e es s free))
              (put_all-keeps es (put_entry e.seq e.ops (rivals (length es) s)) k x
                (put_entry-keeps e.seq k e.ops x (rivals (length es) s) free here))
        | inr (y, taken) ↦
            subst (λ r. lookup k r.1.wal ≡ some x) (sym (put_all_taken rivals e es s y taken)) here
      ]

  put_all-InLog :
      (es : List WalEntry) (s : Store)
      → (put_all rivals es s).0 ≡ true
      → All (InLog (put_all rivals es s).1) es
  put_all-InLog [] s h = tt
  put_all-InLog (e ∷ es) s h = elim (Option-cases (lookup e.seq (rivals (length es) s).wal)) [
    | inl free ↦
        let next = put_entry e.seq e.ops (rivals (length es) s) in
        let step = put_all_free rivals e es s free in
        let written : lookup e.seq next.wal ≡ some e.ops =
          lookup-insert e.seq e.seq e.ops (rivals (length es) s).wal ∙ ground arith in
        subst (λ r. All (InLog r.1) (e ∷ es)) (sym step)
          (
            put_all-keeps es next e.seq e.ops written,
            put_all-InLog es next (ap (λ r. r.0) (sym step) ∙ h),
          )
    | inr (y, taken) ↦ ground (arith, h, ap (λ r. r.0) (put_all_taken rivals e es s y taken))
  ]

-- What an acknowledged burst leaves: each entry at its sequence, and the pointer at or past them.
abbrev pub ManyAcked : List WalEntry → Outcome (List ℕ) → Type 0
ManyAcked entries (done seqs w s) =
    (seqs ≡ map (λ e. e.seq) entries)
    × All (InLog s) entries
    × All (λ (e : WalEntry). covers e.seq s ≡ true) entries
ManyAcked entries (failed e w s) = Unit

All_within :
    (low high : ℕ) (es : List WalEntry)
    → low ≤ high
    → All (λ (e : WalEntry). e.seq ≤ low) es
    → All (λ (e : WalEntry). e.seq ≤ high) es
All_within low high [] le h = tt
All_within low high (e ∷ es) le h = (omega (arith, h.0), All_within low high es le h.1)

assign-le :
    (start : ℕ) (batches : List (List Op))
    → All
        (λ (e : WalEntry). e.seq ≤ start + length (assign start batches) - 1)
        (assign start batches)
unfolding assign
assign-le start [] = tt
assign-le start (ops ∷ batches) =
    let rest = assign (start + 1) batches in
    (
      omega arith,
      All_within (start + 1 + length rest - 1) (start + suc (length rest) - 1) rest (omega arith)
          (assign-le (start + 1) batches),
    )

covers-le : (low high : ℕ) (s : Store) → low ≤ high → covers high s ≡ true → covers low s ≡ true
covers-le low high s le h = ground (arith, h)

abbrev AllPublished : ℕ → List WalEntry → Outcome Unit → Type 0
AllPublished n es o = All (λ (e : WalEntry). Published n e.seq e.ops o) es

published_InLog :
    (n : ℕ) (es : List WalEntry) (w : Writer) (s : Store)
    → AllPublished n es (done tt w s)
    → All (InLog s) es
published_InLog n [] w s h = tt
published_InLog n (e ∷ es) w s h = (h.0.1, published_InLog n es w s h.1)

published_covered :
    (n : ℕ) (es : List WalEntry) (w : Writer) (s : Store)
    → AllPublished n es (done tt w s)
    → All (λ (e : WalEntry). e.seq ≤ n) es
    → All (λ (e : WalEntry). covers e.seq s ≡ true) es
published_covered n [] w s h low = tt
published_covered n (e ∷ es) w s h low =
    (covers-le e.seq n s low.0 h.0.0, published_covered n es w s h.1 low.1)

with_value-ManyAcked :
    (n : ℕ) (es : List WalEntry) (o : Outcome Unit)
    → AllPublished n es o
    → All (λ (e : WalEntry). e.seq ≤ n) es
    → ManyAcked es (with_value (map (λ e. e.seq) es) o)
with_value-ManyAcked n es (done tt w s) h low =
    (refl, published_InLog n es w s h, published_covered n es w s h low)
with_value-ManyAcked n es (failed e w s) h low = tt

-- How a burst runs: the order of its creates, which leaves none out, and other writers that keep the
-- entries of the log.
module _ (schedule : Schedule)
    (complete : (P : WalEntry → Type 0) (es : List WalEntry) → All P (schedule es) → All P es)
    (rivals bump_before bump_after : Rivals) (honest : KeepsLog rivals)
    (honest_before : KeepsLog bump_before) (honest_after : KeepsLog bump_after) where
  bump-AllPublished :
      (n : ℕ) (es : List WalEntry) (w : Writer) (s : Store)
      → All (InLog s) es
      → AllPublished n es (bump_head_pointer bump_before bump_after max_claim_attempts n w s)
  bump-AllPublished n [] w s h = tt
  bump-AllPublished n (e ∷ es) w s h = (
    bump-Published bump_before bump_after honest_before honest_after max_claim_attempts n w s e.seq
        e.ops h.0,
    bump-AllPublished n es w s h.1,
  )

  burst-ManyAcked :
      (start : ℕ) (batches : List (List Op)) (w : Writer) (s : Store)
      → ManyAcked
          (assign start batches)
          (burst schedule rivals bump_before bump_after start (assign start batches) w s)
  unfolding burst
  burst-ManyAcked start batches w s =
      let es = assign start batches in
      let created = put_all rivals (schedule es) s in
      elim (Bool-cases created.0) [
        | inl landed ↦
            let n = start + length es - 1 in
            let moved = record w { next_seq = some (start + length es) } in
            rw (landed) (
              with_value-ManyAcked n es
                (bump_head_pointer bump_before bump_after max_claim_attempts n moved created.1)
                (bump-AllPublished n es moved created.1 (
                  complete (InLog created.1) es
                    (put_all-InLog rivals honest (schedule es) s landed)))
                (assign-le start batches))
        | inr conflict ↦ rw (conflict) tt
      ]

  -- An acknowledged burst of batches, among other writers that keep the entries of the log, whatever
  -- the order in which its creates reach the store: each batch with ops is in the log at its own
  -- sequence, one after another from the first, and the head pointer has that sequence or a later one.
  pub commit_many-ManyAcked :
      (batches : List (List Op)) (w : Writer) (s : Store)
      → ManyAcked
          (assign (first_seq w s) (retain (λ ops. not (is_empty ops)) batches))
          (commit_many schedule rivals bump_before bump_after batches w s)
  unfolding commit_many
  commit_many-ManyAcked batches w s =
      let some_ops = retain (λ ops. not (is_empty ops)) batches in
      elim (Bool-cases (is_empty some_ops)) [
        | inl nothing ↦ rw (nothing) (no_batches some_ops w s nothing)
        | inr something ↦ rw (something) (burst-ManyAcked (first_seq w s) some_ops w s)
      ]
    where
      no_batches :
          (some_ops : List (List Op)) (w : Writer) (s : Store)
          → is_empty some_ops ≡ true
          → ManyAcked (assign (first_seq w s) some_ops) (done [] w s)
      no_batches [] w s h = unfold assign in (refl, tt, tt)
      no_batches (b ∷ bs) w s h = ground (arith, h)
