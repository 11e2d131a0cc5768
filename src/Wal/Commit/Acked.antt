-- ===== src/Wal/Commit/Acked.antt =====
-- What an acknowledged commit promises, whatever other writers do meanwhile.
use memlake.Prelude.{
  ℕ, zero, suc, ◌+◌, ◌≡◌, refl, ◌∙◌, inl, inr, Bool, true, false, none, some, List, [], ◌∷◌, leb,
  arith, Bool-cases, Option-cases,
}
use memlake.Prelude.Assoc.{lookup, lookup-insert}
use memlake.Core.Wal.{Op}
use memlake.Wal.Namespace.{Store, write_pointer}
use memlake.Wal.Commit.{
  CommitResult, Writer, Outcome, done, failed, Rivals, World, bump_head_pointer, claim, commit,
  guard_of, guard_stops, put_entry, with_result, max_claim_attempts, first_seq,
}

-- The pointer has a sequence at or past this one.
abbrev pub covers : ℕ → Store → Bool
covers seq s = elim s.pointer [ none ↦ false | some p ↦ leb seq p.head ]

-- Others never change or remove an entry that is in the log.
abbrev pub KeepsLog : Rivals → Type 0
KeepsLog rivals =
    (n : ℕ) (s : Store) (k : ℕ) (ops : List Op)
    → lookup k s.wal ≡ some ops
    → lookup k (rivals n s).wal ≡ some ops

pub record IsHonest (world : World) : Type 0 where
  pub claim_before : KeepsLog world.claim_before
  pub claim_after : KeepsLog world.claim_after
  pub bump_before : KeepsLog world.bump_before
  pub bump_after : KeepsLog world.bump_after

-- A bump leaves the pointer at or past the sequence, unless it fails; either way the log has the
-- entry at `k`.
abbrev pub Published : ℕ → ℕ → List Op → Outcome Unit → Type 0
Published seq k ops (done u w s) = (covers seq s ≡ true) × (lookup k s.wal ≡ some ops)
Published seq k ops (failed e w s) = lookup k s.wal ≡ some ops

module _ (rivals late : Rivals) (hr : KeepsLog rivals) (hl : KeepsLog late) where
  pub bump-Published :
      (n seq : ℕ) (w : Writer) (s : Store) (k : ℕ) (ops : List Op)
      → lookup k s.wal ≡ some ops
      → Published seq k ops (bump_head_pointer rivals late n seq w s)
  unfolding bump_head_pointer write_pointer
  bump-Published zero seq w s k ops h = h
  bump-Published (suc n) seq w s k ops h =
      let before = hr n s k ops h in
      let after = hl n (rivals n s) k ops before in
      ground (
        arith,
        before,
        after,
        bump-Published n seq (record w { head_etag = none }) (rivals n s) k ops before,
        bump-Published n seq (record w { head_etag = none }) (late n (rivals n s)) k ops after,
      )

-- What an acknowledged commit of `ops` leaves.
abbrev pub Acked : List Op → Outcome CommitResult → Type 0
Acked ops (done r w s) =
    (lookup r.seq s.wal ≡ some ops)
    × (covers r.seq s ≡ true)
    × (guard_stops (guard_of ops) r.seq ≡ false)
Acked ops (failed e w s) = Unit

-- the store that a call leaves, whether it fails or not
abbrev pub store_after : {A : Type 0} → Outcome A → Store
store_after (done r w s) = s
store_after (failed e w s) = s

Acked-with_result :
    (ops : List Op) (seq attempt : ℕ) (o : Outcome Unit)
    → Published seq seq ops o
    → guard_stops (guard_of ops) seq ≡ false
    → Acked ops (with_result (record { seq = seq; attempts = attempt }) o)
Acked-with_result ops seq attempt (done u w s) hs hg = (hs.1, hs.0, hg)
Acked-with_result ops seq attempt (failed e w s) hs hg = tt

store_after-with_result :
    (r : CommitResult) (o : Outcome Unit) → store_after (with_result r o) ≡ store_after o
store_after-with_result r (done u w s) = refl
store_after-with_result r (failed e w s) = refl

entry-Published :
    (seq k : ℕ) (x : List Op) (o : Outcome Unit)
    → Published seq k x o
    → lookup k (store_after o).wal ≡ some x
entry-Published seq k x (done u w s) h = h.1
entry-Published seq k x (failed e w s) h = h

pub put_entry-keeps :
    (seq k : ℕ) (ops x : List Op) (s : Store)
    → lookup seq s.wal ≡ none
    → lookup k s.wal ≡ some x
    → lookup k (put_entry seq ops s).wal ≡ some x
put_entry-keeps seq k ops x s free h = grind (arith, lookup-insert seq k ops s.wal)

module _ (world : World) (honest : IsHonest world) where
  -- the rest of a commit whose create went through
  abbrev won : ℕ → ℕ → List Op → Writer → Store → Outcome Unit
  won n seq ops w s =
      bump_head_pointer world.bump_before world.bump_after max_claim_attempts seq w
        (world.claim_after n (put_entry seq ops s))

  won-Published :
      (n seq k : ℕ) (ops x : List Op) (w : Writer) (s : Store)
      → lookup k (put_entry seq ops s).wal ≡ some x
      → Published seq k x (won n seq ops w s)
  won-Published n seq k ops x w s e =
      bump-Published world.bump_before world.bump_after honest.bump_before honest.bump_after
        max_claim_attempts seq w (world.claim_after n (put_entry seq ops s)) k x
        (honest.claim_after n (put_entry seq ops s) k x e)

  claim-Acked :
      (n attempt : ℕ) (ops : List Op) (seq : ℕ) (w : Writer) (s : Store)
      → Acked ops (claim world n attempt ops seq w s)
  unfolding claim
  claim-Acked zero attempt ops seq w s = tt
  claim-Acked (suc n) attempt ops seq w s = elim (Bool-cases (guard_stops (guard_of ops) seq)) [
    | inl stop ↦ rw stop tt
    | inr go ↦ elim (Option-cases (lookup seq (world.claim_before n s).wal)) [
      | inl free ↦
          rw (go, free)
            (Acked-with_result ops seq attempt _
              (won-Published n seq seq ops ops _ (world.claim_before n s)
                (lookup-insert seq seq ops (world.claim_before n s).wal ∙ ground arith))
              go)
      | inr (y, taken) ↦
          rw (go, taken)
            (claim-Acked n (attempt + 1) ops _ w (world.claim_after n (world.claim_before n s)))
    ]
  ]

  claim-keeps :
      (n attempt : ℕ) (ops x : List Op) (seq k : ℕ) (w : Writer) (s : Store)
      → lookup k s.wal ≡ some x
      → lookup k (store_after (claim world n attempt ops seq w s)).wal ≡ some x
  unfolding claim
  claim-keeps zero attempt ops x seq k w s h = h
  claim-keeps (suc n) attempt ops x seq k w s h =
      elim (Bool-cases (guard_stops (guard_of ops) seq)) [
        | inl stop ↦ rw stop h
        | inr go ↦
            let here = honest.claim_before n s k x h in
            elim (Option-cases (lookup seq (world.claim_before n s).wal)) [
              | inl free ↦
                  let moved = record w { next_seq = some (seq + 1) } in
                  let o = won n seq ops moved (world.claim_before n s) in
                  rw
                    (go, free, store_after-with_result (record { seq = seq; attempts = attempt }) o)
                    (entry-Published seq k x o (
                      won-Published n seq k ops x moved (world.claim_before n s)
                        (put_entry-keeps seq k ops x (world.claim_before n s) free here)))
              | inr (y, taken) ↦
                  rw (go, taken)
                    (claim-keeps n (attempt + 1) ops x _ k w
                      (world.claim_after n (world.claim_before n s))
                      (honest.claim_after n (world.claim_before n s) k x here))
            ]
      ]

  -- An acknowledged commit of some ops, among other writers that keep the entries of the log: its
  -- entry is in the log, the head pointer has its sequence or a later one, and its guard, if any,
  -- lets the sequence pass.
  pub commit-Acked :
      (op : Op) (ops : List Op) (w : Writer) (s : Store)
      → Acked (op ∷ ops) (commit world (op ∷ ops) w s)
  unfolding commit
  commit-Acked op ops w s = claim-Acked max_claim_attempts 1 (op ∷ ops) (first_seq w s) w s

  -- A commit, failed or not, keeps every entry of the log as it was, among other writers that do.
  pub commit-keeps :
      (ops x : List Op) (k : ℕ) (w : Writer) (s : Store)
      → lookup k s.wal ≡ some x
      → lookup k (store_after (commit world ops w s)).wal ≡ some x
  unfolding commit
  commit-keeps [] x k w s h = h
  commit-keeps (op ∷ ops) x k w s h =
      claim-keeps max_claim_attempts 1 (op ∷ ops) x (first_seq w s) k w s h
