-- ===== src/Wal/Queue/Jobs.antt =====
-- What the operations of the queue do to a job.
use memlake.Prelude.{ℕ, suc, ◌≡◌, refl, ap, ◌∙◌, true, false, none, some, [], ◌∷◌, arith}
use memlake.Prelude.Bytes.{Bytes, bytes_eq_refl}
use memlake.Wal.Queue.{
  Job, Jobs, find_job, put_job, remove_job, Turn, stop, publish, enqueue_turn, complete_turn, Queue,
  read_jobs, same_version, write_jobs, cas_loop, enqueue, complete,
}

find_job-put_job :
    (ns : Bytes) (job : Job) (jobs : Jobs) → find_job ns (put_job ns job jobs) ≡ some job
unfolding find_job put_job
find_job-put_job ns job [] = ground (arith, bytes_eq_refl ns)
find_job-put_job ns job ((name, old) ∷ jobs) =
    ground (arith, bytes_eq_refl ns, find_job-put_job ns job jobs)

find_job-remove_job : (ns : Bytes) (jobs : Jobs) → find_job ns (remove_job ns jobs) ≡ none
unfolding find_job remove_job
find_job-remove_job ns [] = refl
find_job-remove_job ns ((name, job) ∷ jobs) = ground (arith, find_job-remove_job ns jobs)

-- Nobody else writes the queue.
abbrev pub undisturbed : ℕ → Queue → Queue
undisturbed n q = q

same_version_refl : (q : Queue) → same_version q q ≡ true
unfolding same_version
same_version_refl q = ground arith

-- An attempt that nobody disturbs writes what its turn says.
settle : {A : Type 0} → Queue → Turn A → A × Queue
settle q (stop a) = (a, q)
settle q (publish jobs a) = (a, write_jobs jobs q)

module _ {A : Type 0} (turn : ℕ → Jobs → Turn A) (gave_up : A) where
  cas_loop-undisturbed :
      (n : ℕ) (q : Queue)
      → cas_loop undisturbed turn gave_up (suc n) q ≡ settle q (turn n (read_jobs q))
  unfolding cas_loop settle
  cas_loop-undisturbed n q = ground (arith, same_version_refl q)

read_jobs-write_jobs : (jobs : Jobs) (q : Queue) → read_jobs (write_jobs jobs q) ≡ jobs
unfolding read_jobs write_jobs
read_jobs-write_jobs jobs q = refl

module _ (ns worker_id : Bytes) (clock : ℕ → ℕ) (job : Job) (q : Queue) where
  -- While a worker holds the job of a namespace, and with nobody else at the queue: to enqueue the
  -- namespace changes nothing, and once the worker completes the job as drained, there is no job.
  pub enqueue_while_held_lost :
      find_job ns (read_jobs q) ≡ some job
      → job.claimed_by ≡ some worker_id
      → ((enqueue undisturbed ns clock q).1 ≡ q)
        × (find_job ns (read_jobs (complete undisturbed ns worker_id false q).1) ≡ none)
  unfolding settle enqueue_turn complete_turn
  enqueue_while_held_lost held by = (
    ap (λ r. r.1) (cas_loop-undisturbed (λ n. enqueue_turn ns (clock n)) tt 15 q)
        ∙ ground (arith, held),
    ap (λ (r : Unit × Queue). find_job ns (read_jobs r.1))
          (cas_loop-undisturbed (λ n. complete_turn ns worker_id false) tt 15 q)
        ∙ ground (
          arith,
          held,
          by,
          bytes_eq_refl worker_id,
          read_jobs-write_jobs (remove_job ns (read_jobs q)) q,
          find_job-remove_job ns (read_jobs q),
        ),
  )
