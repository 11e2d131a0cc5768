-- ===== src/Wal/Scan/Visible.antt =====
-- Which acknowledged commits a reader sees.
use memlake.Prelude.{
  ℕ, zero, suc, ◌+◌, ◌-◌, ◌≤◌, ◌<◌, ◌≡◌, refl, ◌∙◌, ◌&&◌, inl, inr, true, Option, none, some, List,
  [], ◌∷◌, max, leb, ltb, ◌==◌, arith, if◌then◌else◌, Bool-cases, Option-cases, ==_iff,
}
use mathlib.Core.Path.{subst}
use memlake.Prelude.Assoc.{Assoc, lookup, insert, lookup-insert}
use memlake.Core.Wal.{Op, WalEntry}
use memlake.Core.Manifest.{Manifest}
use memlake.Wal.Namespace.Heads.{lookup-highest}
use memlake.Wal.Namespace.{Store, wal_head, resolve_head, highest, write_pointer, holds_etag}
use memlake.Wal.Commit.{
  CommitResult, Writer, Outcome, done, failed, World, bump_head_pointer, claim, commit, guard_of,
  put_entry, with_result, first_seq, cold_next_seq,
}
use memlake.Wal.Commit.Acked.{covers}
use memlake.Wal.Scan.{read_range, entries_up_to, open_entries}

-- the ops of the entry with a sequence, among those read
unfoldable pub ops_at : ℕ → List WalEntry → Option (List Op)
ops_at q [] = none
ops_at q (e ∷ es) = if e.seq == q then some e.ops else ops_at q es

-- Nobody else writes.
abbrev pub alone : World
alone = record {
  claim_before = λ n s. s;
  claim_after = λ n s. s;
  bump_before = λ n s. s;
  bump_after = λ n s. s;
}

pub ops_at-read_range :
    (count seq q : ℕ) (wal : Assoc (List Op))
    → ops_at q (read_range count seq wal)
      ≡ (if leb seq q && ltb q (seq + count) then lookup q wal else none)
unfolding read_range ops_at
ops_at-read_range zero seq q wal = ground arith
ops_at-read_range (suc count) seq q wal = elim (Bool-cases (seq == q)) [
  | inl same ↦
      let e : seq ≡ q = (==_iff seq q).0 same in
      rw e (ground (arith, ops_at-read_range count (q + 1) q wal))
  | inr other ↦ ground (arith, ops_at-read_range count (seq + 1) q wal)
]

lookup_past : (s : Store) (q : ℕ) → wal_head s < q → lookup q s.wal ≡ none
unfolding wal_head
lookup_past s q h = lookup-highest s.wal q h

free-head : (s : Store) → lookup (wal_head s + 1) s.wal ≡ none
unfolding wal_head
free-head s = lookup-highest s.wal (highest s.wal + 1) (omega arith)

-- A bump that nobody disturbs goes through and leaves the log and the manifest alone.
Bumped : ℕ → Store → Outcome Unit → Type 0
Bumped seq s (done u w s2) = (covers seq s2 ≡ true) × (s2.wal ≡ s.wal) × (s2.manifest ≡ s.manifest)
Bumped seq s (failed e w s2) = ⊥

bump_cold-alone :
    (n seq : ℕ) (w : Writer) (s : Store)
    → w.head_etag ≡ none
    → Bumped seq s (bump_head_pointer (λ n s. s) (λ n s. s) (suc n) seq w s)
unfolding bump_head_pointer write_pointer holds_etag Bumped
bump_cold-alone n seq w s cold = ground (arith, cold)

bump-alone :
    (n seq : ℕ) (w : Writer) (s : Store)
    → Bumped seq s (bump_head_pointer (λ n s. s) (λ n s. s) (suc (suc n)) seq w s)
unfolding bump_head_pointer write_pointer holds_etag Bumped
bump-alone n seq w s = ground (arith, bump_cold-alone n seq (record w { head_etag = none }) s refl)

-- The commit went through: at sequence `q`, with nothing else changed in the log or the manifest.
abbrev pub Landed : List Op → ℕ → Store → Outcome CommitResult → Type 0
Landed ops q s (done r w s2) =
    (r.seq ≡ q) × (s2.wal ≡ insert q ops s.wal) × (covers q s2 ≡ true) × (s2.manifest ≡ s.manifest)
Landed ops q s (failed e w s2) = ⊥

-- The attempts that a commit reports, 0 for one that failed.
abbrev pub attempts_of : Outcome CommitResult → ℕ
attempts_of (done r w s) = r.attempts
attempts_of (failed e w s) = 0

Landed-with_result :
    (ops : List Op) (seq attempt : ℕ) (s : Store) (o : Outcome Unit)
    → Bumped seq (put_entry seq ops s) o
    → Landed ops seq s (with_result (record { seq = seq; attempts = attempt }) o)
      × (attempts_of (with_result (record { seq = seq; attempts = attempt }) o) ≡ attempt)
unfolding Bumped
Landed-with_result ops seq attempt s (done u w s2) b = ((refl, b.1, b.0, b.2), refl)
Landed-with_result ops seq attempt s (failed e w s2) b = absurd b

claim_free-alone :
    (n attempt : ℕ) (ops : List Op) (seq : ℕ) (w : Writer) (s : Store)
    → guard_of ops ≡ none
    → lookup seq s.wal ≡ none
    → Landed ops seq s (claim alone (suc n) attempt ops seq w s)
      × (attempts_of (claim alone (suc n) attempt ops seq w s) ≡ attempt)
unfolding claim
claim_free-alone n attempt ops seq w s calm free =
    rw (calm, free)
      (Landed-with_result ops seq attempt s _
        (bump-alone 30 seq (record w { next_seq = some (seq + 1) }) (put_entry seq ops s)))

claim_taken-alone :
    (n attempt : ℕ) (ops x : List Op) (seq : ℕ) (w : Writer) (s : Store)
    → guard_of ops ≡ none
    → lookup seq s.wal ≡ some x
    → Landed ops (wal_head s + 1) s (claim alone (suc (suc n)) attempt ops seq w s)
      × (attempts_of (claim alone (suc (suc n)) attempt ops seq w s) ≡ attempt + 1)
unfolding claim
claim_taken-alone n attempt ops x seq w s calm taken =
    let after = claim_free-alone n (attempt + 1) ops (wal_head s + 1) w s calm (free-head s) in
    rw (calm, taken) after

-- the sequence that an undisturbed commit takes
abbrev pub landing : Writer → Store → ℕ
landing w s = elim (lookup (first_seq w s) s.wal) [
  | none ↦ first_seq w s
  | some taken ↦ wal_head s + 1
]

-- A commit of some ops without a guard that no other writer disturbs goes through: the log has one
-- entry more, the pointer has its sequence or a later one, and the manifest is as before. It takes one
-- attempt if its first sequence is free, and two, to land after the head, if it is taken.
pub commit-alone :
    (op : Op) (ops : List Op) (w : Writer) (s : Store)
    → guard_of (op ∷ ops) ≡ none
    → Landed (op ∷ ops) (landing w s) s (commit alone (op ∷ ops) w s)
      × (attempts_of (commit alone (op ∷ ops) w s)
          ≡ elim (lookup (first_seq w s) s.wal) [ none ↦ 1 | some taken ↦ 2 ])
unfolding commit
commit-alone op ops w s calm = elim (Option-cases (lookup (first_seq w s) s.wal)) [
  | inl free ↦ rw (landing, free) (claim_free-alone 31 1 (op ∷ ops) (first_seq w s) w s calm free)
  | inr (x, taken) ↦
      rw (landing, taken) (claim_taken-alone 30 1 (op ∷ ops) x (first_seq w s) w s calm taken)
]

-- What a node that opens at a cursor, right after a call, reads at the sequence that the call returned.
pub seen : ℕ → Outcome CommitResult → Option (List Op)
seen cursor (done r w s) = ops_at r.seq (open_entries cursor s)
seen cursor (failed e w s) = none

ops_at-open_entries :
    (cursor q : ℕ) (s : Store)
    → ops_at q (open_entries cursor s)
      ≡ (if ltb cursor q && leb q (resolve_head s) then lookup q s.wal else none)
unfolding open_entries entries_up_to
ops_at-open_entries cursor q s =
    ground (arith, ops_at-read_range (resolve_head s - cursor) (cursor + 1) q s.wal)

covers-resolve_head : (q : ℕ) (s : Store) → covers q s ≡ true → leb q (resolve_head s) ≡ true
unfolding resolve_head
covers-resolve_head q s h = ground (arith)

-- An undisturbed commit is seen exactly if its sequence lies past the cursor.
seen-Landed :
    (cursor q : ℕ) (ops : List Op) (s : Store) (o : Outcome CommitResult)
    → Landed ops q s o
    → seen cursor o ≡ (if ltb cursor q then some ops else none)
unfolding seen
seen-Landed cursor q ops s (done r w s2) h = rw h.0 (
    ops_at-open_entries cursor q s2
    ∙ rw (covers-resolve_head q s2 h.2, h.1) (rw (lookup-insert q q ops s.wal) (ground arith)))
seen-Landed cursor q ops s (failed e w s2) h = absurd h

-- Read your writes: a commit without a guard that no other writer disturbs, by a writer without a
-- cached sequence, is seen by a node that opens next, if the manifest has folded no further than
-- the head that it records.
pub commit-visible :
    (op : Op) (ops : List Op) (w : Writer) (s : Store) (m : Manifest)
    → guard_of (op ∷ ops) ≡ none
    → w.next_seq ≡ none
    → s.manifest ≡ some m
    → m.wal_index_cursor ≤ m.wal_head
    → seen m.wal_index_cursor (commit alone (op ∷ ops) w s) ≡ some (op ∷ ops)
unfolding cold_next_seq
commit-visible op ops w s m calm cold at le =
    let first : first_seq w s ≡ max (wal_head s) m.wal_head + 1 = ground (arith, cold, at) in
    let free : lookup (first_seq w s) s.wal ≡ none =
      lookup_past s (first_seq w s) (omega (arith, first)) in
    seen-Landed m.wal_index_cursor (landing w s) (op ∷ ops) s _ (commit-alone op ops w s calm).0
    ∙ ground (arith, first, free)

-- A commit by a writer whose cached sequence was folded and reclaimed meanwhile: it goes through at
-- that sequence, and no node that opens next sees it.
pub stale_commit_invisible :
    (op : Op) (ops : List Op) (w : Writer) (s : Store) (m : Manifest) (q : ℕ)
    → guard_of (op ∷ ops) ≡ none
    → w.next_seq ≡ some q
    → s.manifest ≡ some m
    → q ≤ m.wal_index_cursor
    → lookup q s.wal ≡ none
    → Landed (op ∷ ops) q s (commit alone (op ∷ ops) w s)
      × (seen m.wal_index_cursor (commit alone (op ∷ ops) w s) ≡ none)
stale_commit_invisible op ops w s m q calm cached at le free =
    let here : landing w s ≡ q = ground (arith, cached, free) in
    let lands = (commit-alone op ops w s calm).0 in
    (
      subst (λ k. Landed (op ∷ ops) k s (commit alone (op ∷ ops) w s)) here lands,
      seen-Landed m.wal_index_cursor (landing w s) (op ∷ ops) s _ lands ∙ ground (arith, here),
    )
