-- ===== src/Wal/Queue/Claims.antt =====
-- What a claim does, attempt by attempt, whatever others write meanwhile.
use memlake.Prelude.{
  ℕ, zero, suc, ◌-◌, ◌≤◌, ◌<◌, ◌≡◌, ◌⊎◌, refl, sym, ap, ◌∙◌, inl, inr, true, false, Option, none,
  some, [], ◌∷◌, ◌++◌, All, if◌then◌else◌, arith, Bool-cases,
}
use mathlib.Core.Path.{subst}
use memlake.Prelude.Bytes.{Bytes, bytes_eq, bytes_eq_iff}
use memlake.Wal.Queue.{
  JobState, pending, claimed, Job, Jobs, may_claim, find_job, put_job, pick, claim_turn, Queue,
  read_jobs, same_version, write_jobs, cas_loop, claim_job,
}

-- The tag of the queue's file, if there is one.
unfoldable pub tag : Queue → Option ℕ
tag q = elim q.file [ none ↦ none | some f ↦ some f.etag ]

-- A job that waits, or whose heartbeat is longer ago than a limit.
abbrev pub IsFree : ℕ → ℕ → Job → Type 0
IsFree now stale_after_ms job = (job.state ≡ pending) ⊎ (stale_after_ms < now - job.heartbeat_ms)

abbrev pub IsHeld : ℕ → ℕ → Bytes × Job → Type 0
IsHeld now stale_after_ms (ns, job) =
    (job.state ≡ claimed) × (now - job.heartbeat_ms ≤ stale_after_ms)

-- The course of a claim from a queue on, with a number of attempts left: what it returns, and the queue
-- then. An attempt finds all jobs held, or it takes the first that is free: if the file is still the
-- one that it read, it writes that job as claimed and no other job, under a new tag.
pub data Course (rivals : ℕ → Queue → Queue) (worker_id : Bytes) (stale_after_ms : ℕ)
    (clock : ℕ → ℕ) : ℕ → Queue → Option Bytes × Queue → Type 0 where
  gave_up : (q : Queue) → Course rivals worker_id stale_after_ms clock zero q (none, q)
  nothing_free :
      (n : ℕ) (q : Queue)
      → All (IsHeld (clock n) stale_after_ms) (read_jobs q)
      → Course rivals worker_id stale_after_ms clock (suc n) q (none, q)
  won :
      (n : ℕ) (q after : Queue) (xs ys : Jobs) (ns : Bytes) (job : Job)
      → read_jobs q ≡ xs ++ (ns, job) ∷ ys
      → All (IsHeld (clock n) stale_after_ms) xs
      → IsFree (clock n) stale_after_ms job
      → tag q ≡ tag (rivals n q)
      → tag after ≡ some (rivals n q).next_etag
      → ((other : Bytes)
          → find_job other (read_jobs after) ≡ (
              if bytes_eq ns other
              then some (record {
                state = claimed;
                claimed_by = some worker_id;
                heartbeat_ms = clock n;
                enqueued_ms = job.enqueued_ms;
              })
              else find_job other (read_jobs q)))
      → Course rivals worker_id stale_after_ms clock (suc n) q (some ns, after)
  lost :
      (n : ℕ) (q : Queue) (xs ys : Jobs) (ns : Bytes) (job : Job) (r : Option Bytes × Queue)
      → read_jobs q ≡ xs ++ (ns, job) ∷ ys
      → All (IsHeld (clock n) stale_after_ms) xs
      → IsFree (clock n) stale_after_ms job
      → ¬ (tag q ≡ tag (rivals n q))
      → Course rivals worker_id stale_after_ms clock n (rivals n q) r
      → Course rivals worker_id stale_after_ms clock (suc n) q r

same_left : (a b c : Bytes) → bytes_eq a b ≡ true → bytes_eq a c ≡ bytes_eq b c
same_left a b c h = ap (λ t. bytes_eq t c) ((bytes_eq_iff a b).0 h)

same_right : (a b c : Bytes) → bytes_eq a b ≡ true → bytes_eq c b ≡ bytes_eq c a
same_right a b c h = ap (bytes_eq c) (sym ((bytes_eq_iff a b).0 h))

find_job-put_job_other :
    (ns other : Bytes) (job : Job) (jobs : Jobs)
    → find_job other (put_job ns job jobs)
      ≡ (if bytes_eq ns other then some job else find_job other jobs)
unfolding find_job put_job
find_job-put_job_other ns other job [] = ground arith
find_job-put_job_other ns other job ((name, old) ∷ jobs) = elim (Bool-cases (bytes_eq name ns)) [
  | inl same ↦ ground (arith, same, same_left name ns other same)
  | inr new ↦
      ground (arith, new, same_right ns other name, find_job-put_job_other ns other job jobs)
]

tag-same_version : (q now : Queue) → same_version q now ≡ true → tag q ≡ tag now
unfolding same_version tag
tag-same_version q now h = ground arith

tag-moved : (q now : Queue) → same_version q now ≡ false → ¬ (tag q ≡ tag now)
unfolding same_version tag
tag-moved q now h e = ground arith

state-cases : (s : JobState) → (s ≡ pending) ⊎ (s ≡ claimed)
state-cases pending = inl refl
state-cases claimed = inr refl

may_claim-IsFree :
    (now stale_after_ms : ℕ) (job : Job)
    → may_claim now stale_after_ms job ≡ true
    → IsFree now stale_after_ms job
unfolding may_claim
may_claim-IsFree now stale_after_ms job h = elim (state-cases job.state) [
  | inl waits ↦ inl waits
  | inr taken ↦ inr (ground (arith, taken))
]

may_claim-IsHeld :
    (now stale_after_ms : ℕ) (name : Bytes) (job : Job)
    → may_claim now stale_after_ms job ≡ false
    → IsHeld now stale_after_ms (name, job)
unfolding may_claim
may_claim-IsHeld now stale_after_ms name job h = elim (state-cases job.state) [
  | inl waits ↦ absurd (ground (arith, waits))
  | inr taken ↦ (taken, ground (arith, taken))
]

pick-cases :
    (now stale_after_ms : ℕ) (jobs : Jobs)
    → ((pick now stale_after_ms jobs ≡ none) × All (IsHeld now stale_after_ms) jobs)
      ⊎ ((xs : Jobs) × (ys : Jobs) × (ns : Bytes) × (job : Job) × (pick now stale_after_ms jobs
            ≡ some (ns, job))
          × (jobs ≡ xs ++ (ns, job) ∷ ys)
          × All (IsHeld now stale_after_ms) xs
          × IsFree now stale_after_ms job)
unfolding pick
pick-cases now stale_after_ms [] = inl (refl, tt)
pick-cases now stale_after_ms ((name, job) ∷ jobs) =
    elim (Bool-cases (may_claim now stale_after_ms job)) [
      | inl free ↦ inr (
        [],
        jobs,
        name,
        job,
        ground (arith, free),
        refl,
        tt,
        may_claim-IsFree now stale_after_ms job free,
      )
      | inr held ↦ elim (pick-cases now stale_after_ms jobs) [
        | inl (nothing, all_held) ↦ inl (
          ground (arith, held, nothing),
          (may_claim-IsHeld now stale_after_ms name job held, all_held),
        )
        | inr (xs, ys, ns, found, picked, split, busy, free) ↦ inr (
          (name, job) ∷ xs,
          ys,
          ns,
          found,
          ground (arith, held, picked),
          ap (λ js. (name, job) ∷ js) split,
          (may_claim-IsHeld now stale_after_ms name job held, busy),
          free,
        )
      ]
    ]

tag-write_jobs : (jobs : Jobs) (q : Queue) → tag (write_jobs jobs q) ≡ some q.next_etag
unfolding tag write_jobs
tag-write_jobs jobs q = refl

read_written : (jobs : Jobs) (q : Queue) → read_jobs (write_jobs jobs q) ≡ jobs
unfolding read_jobs write_jobs
read_written jobs q = refl

module _ (rivals : ℕ → Queue → Queue) (worker_id : Bytes) (stale_after_ms : ℕ) (clock : ℕ → ℕ) where
  abbrev claims : ℕ → Queue → Option Bytes × Queue
  claims n q = cas_loop rivals (λ k. claim_turn worker_id stale_after_ms (clock k)) none n q

  claims-idle :
      (n : ℕ) (q : Queue)
      → pick (clock n) stale_after_ms (read_jobs q) ≡ none
      → claims (suc n) q ≡ (none, q)
  unfolding cas_loop claim_turn
  claims-idle n q idle = ground (arith, idle)

  abbrev taken : ℕ → Bytes → Job → Queue → Jobs
  taken n ns job q =
      put_job ns
        (record job { state = claimed; claimed_by = some worker_id; heartbeat_ms = clock n })
        (read_jobs q)

  claims-won :
      (n : ℕ) (q : Queue) (ns : Bytes) (job : Job)
      → pick (clock n) stale_after_ms (read_jobs q) ≡ some (ns, job)
      → same_version q (rivals n q) ≡ true
      → claims (suc n) q ≡ (some ns, write_jobs (taken n ns job q) (rivals n q))
  unfolding cas_loop claim_turn
  claims-won n q ns job picked same = ground (arith, picked, same)

  claims-moved :
      (n : ℕ) (q : Queue) (ns : Bytes) (job : Job)
      → pick (clock n) stale_after_ms (read_jobs q) ≡ some (ns, job)
      → same_version q (rivals n q) ≡ false
      → claims (suc n) q ≡ claims n (rivals n q)
  unfolding cas_loop claim_turn
  claims-moved n q ns job picked moved = ground (arith, picked, moved)

  claims-zero : (q : Queue) → claims 0 q ≡ (none, q)
  unfolding cas_loop
  claims-zero q = refl

  abbrev Runs : ℕ → Queue → Option Bytes × Queue → Type 0
  Runs n q r = Course rivals worker_id stale_after_ms clock n q r

  claims-Course : (n : ℕ) (q : Queue) → Runs n q (claims n q)
  claims-Course zero q = subst (Runs zero q) (sym (claims-zero q)) (gave_up q)
  claims-Course (suc n) q = elim (pick-cases (clock n) stale_after_ms (read_jobs q)) [
    | inl (nothing, held) ↦
        subst (Runs (suc n) q) (sym (claims-idle n q nothing)) (nothing_free n q held)
    | inr (xs, ys, ns, job, picked, split, held, free) ↦
        elim (Bool-cases (same_version q (rivals n q))) [
          | inl same ↦ subst (Runs (suc n) q) (sym (claims-won n q ns job picked same)) (
              won n q (write_jobs (taken n ns job q) (rivals n q)) xs ys ns job split held free
                (tag-same_version q (rivals n q) same)
                (tag-write_jobs (taken n ns job q) (rivals n q))
                (λ other.
                  ap (find_job other) (read_written (taken n ns job q) (rivals n q))
                  ∙ find_job-put_job_other ns other _ (read_jobs q)))
          | inr moved ↦ subst (Runs (suc n) q) (sym (claims-moved n q ns job picked moved)) (
              lost n q xs ys ns job (claims n (rivals n q)) split held free
                (tag-moved q (rivals n q) moved) (claims-Course n (rivals n q)))
        ]
  ]

-- Whatever others write between the reads and the writes of a claim, it goes the course of at most 16
-- attempts. If in one of them every job is claimed with a heartbeat within the limit, it ends without
-- a namespace. Otherwise that attempt picks the first job that waits or is beyond the limit: if the
-- file's tag is still the one read, the claim ends with that job the worker's, its heartbeat now, the
-- others as read, under a new tag. If it is another, the next attempt starts; after the last the claim
-- ends without a namespace and without a write.
pub claim_job-Course :
    (rivals : ℕ → Queue → Queue) (worker_id : Bytes) (stale_after_ms : ℕ) (clock : ℕ → ℕ)
    (q : Queue)
    → Course rivals worker_id stale_after_ms clock 16 q
        (claim_job rivals worker_id stale_after_ms clock q)
claim_job-Course rivals worker_id stale_after_ms clock q =
    claims-Course rivals worker_id stale_after_ms clock 16 q
