-- ===== src/Wal/Commit.antt =====
-- crates/mlake-wal/src/commit.rs: a writer that claims a sequence by a conditional create and
-- publishes it in the head pointer. Between its calls to the store, others may write: `rivals n` is
-- what they do before the call with `n` attempts left, `late n` what they do between the two calls of
-- that attempt. The backoff between attempts and failures of the store other than a lost condition
-- are not modelled.
pub mod Acked
pub mod Many
pub mod Burst
use memlake.Prelude.{
  ℕ, zero, suc, ◌+◌, Bool, true, false, Option, none, some, List, [], ◌∷◌, max, leb, ◌==◌,
  if◌then◌else◌,
}
use memlake.Prelude.Assoc.{Assoc, lookup, insert}
use memlake.Core.Wal.{Op, upsert, tombstone, patch, tombstone_where, guard}
use memlake.Core.Manifest.{Manifest}
use memlake.Wal.Namespace.{Store, Pointer, wal_head, write_pointer, holds_etag}

abbrev pub max_claim_attempts : ℕ
max_claim_attempts = 32

pub record CommitResult : Type 0 where
  pub seq : ℕ
  pub attempts : ℕ

pub record Writer : Type 0 where
  pub next_seq : Option ℕ
  pub head_etag : Option ℕ

-- `Writer::new`
abbrev pub new_writer : Writer
new_writer = record { next_seq = none; head_etag = none }

pub data CommitError : Type 0 where
  commit_retries_exhausted : ℕ → CommitError
  guard_failed : ℕ → ℕ → CommitError
  store_conflict : CommitError

-- What a call returns, with the writer and the store after it.
pub data Outcome (A : Type 0) : Type 0 where
  done : A → Writer → Store → Outcome A
  failed : CommitError → Writer → Store → Outcome A

abbrev pub Rivals : Type 0
Rivals = ℕ → Store → Store

unfoldable pub cold_next_seq : Store → ℕ
unfolding wal_head
cold_next_seq s = max (wal_head s) (elim s.manifest [ none ↦ 0 | some m ↦ m.wal_head ]) + 1

module _ (rivals late : Rivals) where
  -- the loop of `bump_head_pointer`, by the attempts left
  unfoldable pub bump_head_pointer : ℕ → ℕ → Writer → Store → Outcome Unit
  bump_head_pointer zero seq w s = failed (commit_retries_exhausted max_claim_attempts) w s
  bump_head_pointer (suc n) seq w s = elim w.head_etag [
    | some etag ↦
        if holds_etag etag (rivals n s)
        then done tt (record w { head_etag = some (rivals n s).next_etag })
            (write_pointer seq (rivals n s))
        else bump_head_pointer n seq (record w { head_etag = none }) (rivals n s)
    | none ↦ elim (rivals n s).pointer [
      | some p ↦
          if leb seq p.head
          then done tt (record w { head_etag = some p.etag }) (rivals n s)
          else if holds_etag p.etag (late n (rivals n s))
          then done tt (record w { head_etag = some (late n (rivals n s)).next_etag })
              (write_pointer seq (late n (rivals n s)))
          else bump_head_pointer n seq (record w { head_etag = none }) (late n (rivals n s))
      | none ↦ elim (late n (rivals n s)).pointer [
        | none ↦
            done tt (record w { head_etag = some (late n (rivals n s)).next_etag })
              (write_pointer seq (late n (rivals n s)))
        | some p ↦ bump_head_pointer n seq (record w { head_etag = none }) (late n (rivals n s))
      ]
    ]
  ]

-- `find_map` over the ops
unfoldable pub guard_of : List Op → Option ℕ
guard_of [] = none
guard_of (guard expect_seq_lt ∷ ops) = some expect_seq_lt
guard_of (op ∷ ops) = guard_of ops

abbrev pub put_entry : ℕ → List Op → Store → Store
put_entry seq ops s = record s { wal = insert seq ops s.wal }

abbrev pub with_result : CommitResult → Outcome Unit → Outcome CommitResult
with_result r (done u w s) = done r w s
with_result r (failed e w s) = failed e w s

-- `seq >= expected`, where there is a guard
abbrev pub guard_stops : Option ℕ → ℕ → Bool
guard_stops none seq = false
guard_stops (some expected) seq = leb expected seq

abbrev pub guard_error : Option ℕ → ℕ → CommitError
guard_error none seq = guard_failed 0 seq
guard_error (some expected) seq = guard_failed expected seq

-- What others do while a commit runs: around the claims, and around the bumps of the pointer.
pub record World : Type 0 where
  pub claim_before : Rivals
  pub claim_after : Rivals
  pub bump_before : Rivals
  pub bump_after : Rivals

-- the loop of `commit`, by the attempts left; the attempt's number counts up
unfoldable pub claim : World → ℕ → ℕ → List Op → ℕ → Writer → Store → Outcome CommitResult
unfolding bump_head_pointer wal_head
claim world zero attempt ops seq w s =
    failed (commit_retries_exhausted max_claim_attempts) (record w { next_seq = none }) s
claim world (suc n) attempt ops seq w s =
    if guard_stops (guard_of ops) seq
    then failed (guard_error (guard_of ops) seq) (record w { next_seq = none }) s
    else elim (lookup seq (world.claim_before n s).wal) [
      | none ↦
          with_result (record { seq = seq; attempts = attempt })
            (bump_head_pointer world.bump_before world.bump_after max_claim_attempts seq
              (record w { next_seq = some (seq + 1) })
              (world.claim_after n (put_entry seq ops (world.claim_before n s))))
      | some taken ↦
          claim world n (attempt + 1) ops
            (wal_head (world.claim_after n (world.claim_before n s)) + 1) w
            (world.claim_after n (world.claim_before n s))
    ]

abbrev pub first_seq : Writer → Store → ℕ
first_seq w s = elim w.next_seq [ none ↦ cold_next_seq s | some seq ↦ seq ]

unfoldable pub commit : World → List Op → Writer → Store → Outcome CommitResult
commit world [] w s = done (record { seq = wal_head s; attempts = 0 }) w s
commit world (op ∷ ops) w s = claim world max_claim_attempts 1 (op ∷ ops) (first_seq w s) w s
