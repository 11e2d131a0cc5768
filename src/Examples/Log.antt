-- ===== src/Examples/Log.antt =====
-- The theorems on the commit protocol, the tail scan and the queue at concrete inputs.
use memlake.Prelude.{◌≡◌, refl, true, false, none, some, List, [], ◌∷◌, All, arith}
use memlake.Prelude.Assoc.{lookup}
use memlake.Prelude.Bytes.{codes, bytes_eq, bytes_lt}
use memlake.Core.Names.{wal_path, parse_wal_seq}
use memlake.Core.Names.Order.{parse_wal_seq-wal_path}
use memlake.Wal.Scan.{scan, scan_up_to}
use memlake.Wal.Scan.Listing.{scan-eq-scan_up_to}
use memlake.Wal.Commit.Many.{assign, commit_many}
use memlake.Wal.Commit.Burst.{ManyAcked, commit_many-ManyAcked}
use memlake.Index.Gc.{gc_wal}
use memlake.Index.Gc.Files.{GenerationFiles, SegmentFiles, Object}
use memlake.Index.Gc.Readers.{commit_after_gc_lost, scan_up_to-gc_wal}
use memlake.Core.Wal.{WalEntry, tombstone}
use memlake.Wal.Commit.{Rivals, first_seq, new_writer, guard_of, commit}
use memlake.Wal.Commit.Acked.{Acked, KeepsLog, store_after, commit-Acked, commit-keeps}
use memlake.Wal.Scan.Visible.{
  alone, Landed, landing, attempts_of, commit-alone, seen, commit-visible,
}
use memlake.Wal.Queue.{find_job, read_jobs, enqueue, claim_job, complete}
use memlake.Wal.Queue.Claims.{Course, claim_job-Course}
use memlake.Wal.Queue.Jobs.{undisturbed, enqueue_while_held_lost}
use memlake.Examples.Data.{
  folded_one, two_entries, contended, contended-IsHonest, behind, folded_two, all_folded, held_job,
  one_held,
}

commit-Acked_example :
    Acked (tombstone 5 ∷ []) (commit contended (tombstone 5 ∷ []) behind two_entries)
commit-Acked_example = commit-Acked contended contended-IsHonest (tombstone 5) [] behind two_entries

commit-keeps_example :
    lookup 2 (store_after (commit contended (tombstone 5 ∷ []) behind two_entries)).wal
    ≡ some (tombstone 8 ∷ [])
unfolding lookup
commit-keeps_example =
    commit-keeps contended contended-IsHonest (tombstone 5 ∷ []) (tombstone 8 ∷ []) 2 behind
      two_entries refl

commit-alone_example :
    Landed
      (tombstone 5 ∷ [])
      (landing behind two_entries)
      two_entries
      (commit alone (tombstone 5 ∷ []) behind two_entries)
    × (attempts_of (commit alone (tombstone 5 ∷ []) behind two_entries) ≡ 2)
unfolding guard_of lookup
commit-alone_example = commit-alone (tombstone 5) [] behind two_entries refl

-- The second create reaches the store before the first.
abbrev second_first : List WalEntry → List WalEntry
second_first [] = []
second_first (e ∷ []) = e ∷ []
second_first (e ∷ f ∷ es) = f ∷ e ∷ es

second_first-All : (P : WalEntry → Type 0) (es : List WalEntry) → All P (second_first es) → All P es
second_first-All P [] h = h
second_first-All P (e ∷ []) h = h
second_first-All P (e ∷ f ∷ es) h = (h.1.0, (h.0, h.1.1))

abbrev quiet : Rivals
quiet n s = s

quiet-KeepsLog : KeepsLog quiet
quiet-KeepsLog n s k ops h = h

commit_many-ManyAcked_example :
    ManyAcked
      (assign (first_seq new_writer two_entries) ((tombstone 5 ∷ []) ∷ (tombstone 6 ∷ []) ∷ []))
      (commit_many second_first quiet quiet quiet
        ((tombstone 5 ∷ []) ∷ [] ∷ (tombstone 6 ∷ []) ∷ [])
        new_writer
        two_entries)
commit_many-ManyAcked_example =
    commit_many-ManyAcked second_first second_first-All quiet quiet quiet quiet-KeepsLog
      quiet-KeepsLog quiet-KeepsLog ((tombstone 5 ∷ []) ∷ [] ∷ (tombstone 6 ∷ []) ∷ []) new_writer
      two_entries

scan-eq-scan_up_to_example : scan 0 (some 2) two_entries ≡ scan_up_to 0 2 two_entries
unfolding lookup
scan-eq-scan_up_to_example = scan-eq-scan_up_to 0 2 two_entries (refl, (refl, tt))

-- An eighth nine turns over into a ninth digit.
parse_wal_seq-wal_path_example :
    (parse_wal_seq (wal_path (codes "bank/a") 99999999) ≡ some 99999999)
    × (bytes_lt (wal_path (codes "bank/a") 99999999) (wal_path (codes "bank/a") 100000000) ≡ true)
parse_wal_seq-wal_path_example =
    parse_wal_seq-wal_path (codes "bank/a") 99999999 100000000 (omega arith) (omega arith)

commit-visible_example :
    seen 1 (commit alone (tombstone 5 ∷ []) new_writer two_entries) ≡ some (tombstone 5 ∷ [])
unfolding guard_of
commit-visible_example =
    commit-visible (tombstone 5) [] new_writer two_entries folded_one refl refl refl (omega arith)

commit_after_gc_lost_example :
    Landed
      (tombstone 5 ∷ [])
      2
      (gc_wal (λ seq. true) all_folded)
      (commit alone (tombstone 5 ∷ []) behind (gc_wal (λ seq. true) all_folded))
    × (seen 2 (commit alone (tombstone 5 ∷ []) behind (gc_wal (λ seq. true) all_folded)) ≡ none)
unfolding guard_of
commit_after_gc_lost_example =
    commit_after_gc_lost (λ seq. true) (tombstone 5) [] behind all_folded folded_two 2 refl refl
      refl (omega arith) (omega arith) refl

scan_up_to-gc_wal_example :
    scan_up_to 1 2 (gc_wal (λ seq. true) two_entries) ≡ scan_up_to 1 2 two_entries
scan_up_to-gc_wal_example =
    scan_up_to-gc_wal (λ seq. true) two_entries folded_one 1 2 refl (omega arith)

enqueue_while_held_lost_example :
    ((enqueue undisturbed (codes "ns") (λ n. 120) one_held).1 ≡ one_held)
    × (find_job
          (codes "ns")
          (read_jobs (complete undisturbed (codes "ns") (codes "w1") false one_held).1)
        ≡ none)
unfolding find_job read_jobs bytes_eq
enqueue_while_held_lost_example =
    enqueue_while_held_lost (codes "ns") (codes "w1") (λ n. 120) held_job one_held refl refl

-- worker 2 finds the heartbeat stale
claim_job-Course_example :
    Course undisturbed
      (codes "w2")
      500
      (λ n. 900)
      16
      one_held
      (claim_job undisturbed (codes "w2") 500 (λ n. 900) one_held)
claim_job-Course_example = claim_job-Course undisturbed (codes "w2") 500 (λ n. 900) one_held

abbrev no_files : GenerationFiles
no_files = record {
  centroids = [];
  pk = [];
  clusters = [];
  vectors = [];
  radj_data = [];
  radj_idx = [];
  fts_split = [];
  stats = [];
  pk_data = [];
  tag_summary = [];
  entity_idx = [];
  entity_data = [];
  time_idx = [];
  time_data = [];
  created_idx = [];
  created_data = [];
  payload_idx = [];
  payload_data = [];
  rerank_idx = [];
  rerank_data = [];
}

-- a segment that the last swap dropped
abbrev dropped_segment : SegmentFiles
dropped_segment = record {
  indexes = (1, record no_files { pk = codes "bank/seg-1/pk" }) ∷ [];
  tombstones = codes "bank/seg-1/deletes";
}

abbrev listing : List Object
listing = (codes "bank/seg-1/deletes", 3) ∷ (codes "bank/seg-0/pk", 3) ∷ []
