-- ===== src/Wal/Queue.antt =====
-- crates/mlake-wal/src/index_queue.rs: the indexer's work queue, one object that is swapped by its tag.
-- `rivals n` is what others do between the read and the write of the attempt that leaves `n` more.
-- `clock n` is the time that this attempt reads. A file that does not parse has no jobs.
pub mod Jobs
pub mod Claims
use memlake.Prelude.{
  ℕ, zero, suc, ◌+◌, ◌-◌, Bool, true, false, ◌&&◌, ◌||◌, Option, none, some, List, [], ◌∷◌, ◌==◌,
  ltb, if◌then◌else◌,
}
use memlake.Prelude.Bytes.{Bytes, bytes_eq, bytes_lt}

pub data JobState : Type 0 where
  pending claimed : JobState

pub record Job : Type 0 where
  pub state : JobState
  pub claimed_by : Option Bytes
  pub heartbeat_ms : ℕ
  pub enqueued_ms : ℕ

-- the jobs of a `QueueState`, in the order of their names
abbrev pub Jobs : Type 0
Jobs = List (Bytes × Job)

unfoldable pub find_job : Bytes → Jobs → Option Job
find_job ns [] = none
find_job ns ((name, job) ∷ jobs) = if bytes_eq name ns then some job else find_job ns jobs

-- `insert`, and what writing through `get_mut` leaves
unfoldable pub put_job : Bytes → Job → Jobs → Jobs
put_job ns job [] = (ns, job) ∷ []
put_job ns job ((name, old) ∷ jobs) =
    let rest = put_job ns job jobs in
    if bytes_eq name ns
    then (name, job) ∷ jobs
    else if bytes_lt ns name
    then (ns, job) ∷ (name, old) ∷ jobs
    else (name, old) ∷ rest

unfoldable pub remove_job : Bytes → Jobs → Jobs
remove_job ns [] = []
remove_job ns ((name, job) ∷ jobs) =
    let rest = remove_job ns jobs in if bytes_eq name ns then rest else (name, job) ∷ rest

abbrev pub is_pending : JobState → Bool
is_pending pending = true
is_pending claimed = false

abbrev pub is_by : Option Bytes → Bytes → Bool
is_by none worker_id = false
is_by (some who) worker_id = bytes_eq who worker_id

-- a job that a worker may take: it waits, or its holder's heartbeat went stale
unfoldable pub may_claim : ℕ → ℕ → Job → Bool
may_claim now stale_after_ms job =
    is_pending job.state || ltb stale_after_ms (now - job.heartbeat_ms)

unfoldable pub pick : ℕ → ℕ → Jobs → Option (Bytes × Job)
unfolding may_claim
pick now stale_after_ms [] = none
pick now stale_after_ms ((name, job) ∷ jobs) =
    if may_claim now stale_after_ms job then some (name, job) else pick now stale_after_ms jobs

-- What one attempt does with the jobs that it read: it returns, or it writes and returns.
pub data Turn (A : Type 0) : Type 0 where
  stop : A → Turn A
  publish : Jobs → A → Turn A

unfoldable pub enqueue_turn : Bytes → ℕ → Jobs → Turn Unit
unfolding find_job put_job
enqueue_turn ns now jobs = elim (find_job ns jobs) [
  | some job ↦ stop tt
  | none ↦
      publish
        (put_job ns
          (record { state = pending; claimed_by = none; heartbeat_ms = 0; enqueued_ms = now }) jobs)
        tt
]

unfoldable pub claim_turn : Bytes → ℕ → ℕ → Jobs → Turn (Option Bytes)
unfolding put_job
claim_turn worker_id stale_after_ms now jobs = elim (pick now stale_after_ms jobs) [
  | none ↦ stop none
  | some (ns, job) ↦
      publish
        (put_job ns
          (record job { state = claimed; claimed_by = some worker_id; heartbeat_ms = now }) jobs)
        (some ns)
]

unfoldable pub heartbeat_turn : Bytes → Bytes → ℕ → Jobs → Turn Bool
unfolding find_job put_job
heartbeat_turn ns worker_id now jobs = elim (find_job ns jobs) [
  | none ↦ stop false
  | some job ↦
      if is_by job.claimed_by worker_id
      then publish (put_job ns (record job { heartbeat_ms = now }) jobs) true
      else stop false
]

abbrev pub completed : Bytes → Job → Bool → Jobs → Jobs
completed ns job true jobs =
    put_job ns (record job { state = pending; claimed_by = none; heartbeat_ms = 0 }) jobs
completed ns job false jobs = remove_job ns jobs

unfoldable pub complete_turn : Bytes → Bytes → Bool → Jobs → Turn Unit
unfolding find_job put_job remove_job
complete_turn ns worker_id still_dirty jobs = elim (find_job ns jobs) [
  | none ↦ stop tt
  | some job ↦
      if is_by job.claimed_by worker_id
      then publish (completed ns job still_dirty jobs) tt
      else stop tt
]

pub record QueueFile : Type 0 where
  pub parsed : Option Jobs
  pub etag : ℕ

pub record Queue : Type 0 where
  pub file : Option QueueFile
  pub next_etag : ℕ

abbrev pub or_no_jobs : Option Jobs → Jobs
or_no_jobs none = []
or_no_jobs (some jobs) = jobs

unfoldable pub read_jobs : Queue → Jobs
read_jobs q = elim q.file [ none ↦ [] | some f ↦ or_no_jobs f.parsed ]

-- whether a write that read `q` goes through at `now`
unfoldable pub same_version : Queue → Queue → Bool
same_version q now = elim q.file [
  | none ↦ elim now.file [ none ↦ true | some g ↦ false ]
  | some f ↦ elim now.file [ none ↦ false | some g ↦ f.etag == g.etag ]
]

unfoldable pub write_jobs : Jobs → Queue → Queue
write_jobs jobs q = record {
  file = some (record { parsed = some jobs; etag = q.next_etag });
  next_etag = suc q.next_etag;
}

abbrev pub max_cas_attempts : ℕ
max_cas_attempts = 16

-- the loop that each of the four operations runs, by the attempts left
module _ {A : Type 0} (rivals : ℕ → Queue → Queue) (turn : ℕ → Jobs → Turn A) (gave_up : A) where
  unfoldable pub cas_loop : ℕ → Queue → A × Queue
  unfolding same_version write_jobs
  cas_loop zero q = (gave_up, q)
  cas_loop (suc n) q = elim (turn n (read_jobs q)) [
    | stop a ↦ (a, q)
    | publish jobs a ↦
        if same_version q (rivals n q)
        then (a, write_jobs jobs (rivals n q))
        else cas_loop n (rivals n q)
  ]

abbrev pub enqueue : (ℕ → Queue → Queue) → Bytes → (ℕ → ℕ) → Queue → Unit {0} × Queue
enqueue rivals ns clock = cas_loop rivals (λ n. enqueue_turn ns (clock n)) tt max_cas_attempts

abbrev pub claim_job : (ℕ → Queue → Queue) → Bytes → ℕ → (ℕ → ℕ) → Queue → Option Bytes × Queue
claim_job rivals worker_id stale_after_ms clock =
    cas_loop rivals (λ n. claim_turn worker_id stale_after_ms (clock n)) none max_cas_attempts

abbrev pub heartbeat : (ℕ → Queue → Queue) → Bytes → Bytes → (ℕ → ℕ) → Queue → Bool × Queue
heartbeat rivals ns worker_id clock =
    cas_loop rivals (λ n. heartbeat_turn ns worker_id (clock n)) false max_cas_attempts

abbrev pub complete : (ℕ → Queue → Queue) → Bytes → Bytes → Bool → Queue → Unit {0} × Queue
complete rivals ns worker_id still_dirty =
    cas_loop rivals (λ n. complete_turn ns worker_id still_dirty) tt max_cas_attempts
