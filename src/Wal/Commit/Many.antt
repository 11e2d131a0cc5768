-- ===== src/Wal/Commit/Many.antt =====
-- crates/mlake-wal/src/commit.rs: `commit_many`, the pipelined commit of many batches. The creates go
-- out together and reach the store in an order of their own: `schedule` gives it, and `rivals n` is
-- what others do before the create with `n` creates behind it. The creates in flight when one fails
-- count as writes of others after the call.
use memlake.Prelude.{
  ℕ, ◌+◌, ◌-◌, Bool, true, false, not, none, some, List, [], ◌∷◌, if◌then◌else◌, length, map,
  retain, is_empty,
}
use memlake.Prelude.Assoc.{lookup}
use memlake.Core.Wal.{Op, WalEntry}
use memlake.Wal.Namespace.{Store}
use memlake.Wal.Commit.{
  Writer, Outcome, done, failed, store_conflict, Rivals, bump_head_pointer, put_entry,
  max_claim_attempts, first_seq,
}

-- the entries of some batches from a sequence on
unfoldable pub assign : ℕ → List (List Op) → List WalEntry
assign seq [] = []
assign seq (ops ∷ batches) = record { seq = seq; ops = ops } ∷ assign (seq + 1) batches

-- the creates, until one finds its sequence taken; whether all went through, and the store
unfoldable pub put_all : Rivals → List WalEntry → Store → Bool × Store
put_all rivals [] s = (true, s)
put_all rivals (e ∷ es) s = elim (lookup e.seq (rivals (length es) s).wal) [
  | some taken ↦ (false, rivals (length es) s)
  | none ↦ put_all rivals es (put_entry e.seq e.ops (rivals (length es) s))
]

abbrev pub with_value : {A : Type 0} → A → Outcome Unit → Outcome A
with_value a (done u w s) = done a w s
with_value a (failed e w s) = failed e w s

abbrev pub Schedule : Type 0
Schedule = List WalEntry → List WalEntry

-- the burst, once it has its entries
unfoldable pub burst :
    Schedule → Rivals → Rivals → Rivals → ℕ → List WalEntry → Writer → Store → Outcome (List ℕ)
burst schedule rivals bump_before bump_after start entries w s =
    let created = put_all rivals (schedule entries) s in
    if created.0
    then with_value (map (λ e. e.seq) entries) (
        bump_head_pointer bump_before bump_after max_claim_attempts (start + length entries - 1)
          (record w { next_seq = some (start + length entries) }) created.1)
    else failed store_conflict (record { next_seq = none; head_etag = none }) created.1

unfoldable pub commit_many :
    Schedule → Rivals → Rivals → Rivals → List (List Op) → Writer → Store → Outcome (List ℕ)
commit_many schedule rivals bump_before bump_after batches w s =
    let non_empty = retain (λ ops. not (is_empty ops)) batches in
    if is_empty non_empty
    then done [] w s
    else burst schedule rivals bump_before bump_after (first_seq w s)
        (assign (first_seq w s) non_empty) w s
