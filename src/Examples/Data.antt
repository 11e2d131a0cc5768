-- ===== src/Examples/Data.antt =====
-- Inputs for the examples: memories, slices of a log, manifests, stores and a queue.
use memlake.Prelude.{ℕ, ◌≡◌, refl, none, some, List, [], ◌∷◌, ◌+◌, ◌++◌, arith}
use memlake.Prelude.Assoc.{Assoc, lookup, insert, remove, retain_values}
use memlake.Prelude.Bytes.{Bytes, codes, bytes_eq, bytes_lt}
use memlake.Prelude.Sort.{insert_sorted, sort_by, dedup}
use memlake.Prelude.Int.{pos, ◌+ℤ◌}
use memlake.Core.Tags
use memlake.Core.Tags.{contains_tag, overlaps, contains_all}
use memlake.Core.Memory.{
  MemoryId, Timestamps, StoredMemory, Memory, sort_ids, sort_metadata, into_stored,
}
use memlake.Core.Manifest.{Manifest, empty_manifest}
use memlake.Core.Predicate.{
  Predicate, tags_mode_from_u8, window_ok, metadata_ok, tags_ok, predicate_matches,
}
use memlake.Core.Wal.{
  Op, set_text, touch, upsert, tombstone, patch, tombstone_where, WalEntry, clamp_u32, merge_pairs,
  set_pair, apply_delta, apply_deltas,
}
use memlake.Wal.Tail.{
  kills, killed_by, apply_patches, stored_at, fold_op, fold_ops, fold_entry, fold_from,
  fold_entries,
}
use memlake.Wal.Tail.Replay.{replay, replay_ops, replay_op}
use memlake.Wal.Namespace.{Store, wal_head}
use memlake.Wal.Commit.{Writer, Rivals, World}
use memlake.Wal.Commit.Acked.{KeepsLog, IsHonest}
use memlake.Wal.Scan.Visible.{alone}
use memlake.Wal.Queue.{claimed, Job, Queue}
use memlake.Index.Segments.{
  kill_ids, kill_from, seg_predicates, stale, collect_items, collect, live_items,
}
use memlake.Index.Fold.{index, index_items, prune_links, remove_ids, insert_all, patch_values}
use memlake.Index.Fold.Rebuild.{index-IsWellFormed}
use memlake.Index.Fold.Flush.{live_view, IsWellFormed, flush_slice}
use memlake.Index.Fold.History.{flush-IsWellFormed}

unfoldable pub program : Unit {0}
unfolding lookup insert remove retain_values bytes_eq bytes_lt insert_sorted sort_by dedup ◌+ℤ◌
    contains_tag overlaps contains_all Tags.matches sort_ids sort_metadata into_stored
    tags_mode_from_u8 window_ok metadata_ok tags_ok predicate_matches clamp_u32 merge_pairs set_pair
    apply_delta apply_deltas kills killed_by apply_patches stored_at fold_op fold_ops fold_entry
    fold_from fold_entries replay replay_ops replay_op kill_ids kill_from seg_predicates stale
    collect_items collect live_items index index_items prune_links remove_ids insert_all
    patch_values
program = tt

abbrev pub no_times : Timestamps
no_times = record {
  event_date = none;
  occurred_start = none;
  occurred_end = none;
  mentioned_at = none;
  updated_at = none;
}

abbrev pub item : MemoryId → Bytes → List Bytes → Memory
item id text tags = record {
  id = id;
  vector = [];
  text = text;
  index_text = [];
  memory_type = 1;
  tags = tags;
  timestamps = no_times;
  proof_count = 1;
  entity_ids = [];
  causal_out = [];
  semantic_out = [];
  metadata = [];
}

abbrev pub red : Bytes
red = codes "red"

abbrev pub blue : Bytes
blue = codes "blue"

-- entries 1 and 2 write the memories 7 and 8
abbrev pub first_slice : List WalEntry
first_slice =
    record { seq = 1; ops = upsert (item 7 (codes "a") (red ∷ [])) ∷ [] }
    ∷ record { seq = 2; ops = upsert (item 8 (codes "b") (blue ∷ [])) ∷ [] }
    ∷ []

abbrev pub built : Manifest
built = index empty_manifest 2 (fold_entries first_slice)

-- entries 3 and 4 patch memory 7, delete memory 8 and write memory 9
abbrev pub next_slice : List WalEntry
next_slice =
    record { seq = 3; ops = patch 7 (set_text (codes "c") ∷ []) ∷ tombstone 8 ∷ [] }
    ∷ record { seq = 4; ops = upsert (item 9 (codes "d") []) ∷ [] }
    ∷ []

abbrev pub last_slice : List WalEntry
last_slice = record { seq = 5; ops = patch 9 (touch (pos 50) ∷ []) ∷ tombstone 7 ∷ [] } ∷ []

abbrev pub red_ones : Predicate
red_ones = record {
  memory_types = [];
  metadata_equals = [];
  tags = red ∷ [];
  tags_mode = 2;
  updated_from = none;
  updated_to = none;
}

pub built-IsWellFormed : IsWellFormed built
built-IsWellFormed = index-IsWellFormed empty_manifest 2 first_slice

abbrev pub seven : StoredMemory
seven = stored_at 1 (item 7 (codes "a") (red ∷ []))

pub live_seven : live_view built.segments 7 ≡ some seven
unfolding program
live_seven = refl

abbrev pub delete_red : List WalEntry
delete_red = record { seq = 3; ops = tombstone_where red_ones ∷ tombstone 8 ∷ [] } ∷ []

-- two segments, the newer one of a flush
abbrev pub flushed : Manifest
flushed = flush_slice built 4 next_slice

-- a log of two entries, its pointer, and the manifest that has folded the first of them
abbrev pub folded_one : Manifest
folded_one = record empty_manifest { wal_index_cursor = 1; wal_head = 1 }

abbrev pub two_entries : Store
two_entries = record {
  wal = (1, tombstone 7 ∷ []) ∷ (2, tombstone 8 ∷ []) ∷ [];
  pointer = some (record { head = 2; etag = 4 });
  manifest = some folded_one;
  next_etag = 5;
}

-- Another writer takes the next sequence at each of its turns.
abbrev pub rival : Rivals
rival n s = record s { wal = s.wal ++ (wal_head s + 1, tombstone 9 ∷ []) ∷ [] }

pub lookup-append :
    (k : ℕ) (xs ys : Assoc (List Op)) (v : List Op)
    → lookup k xs ≡ some v
    → lookup k (xs ++ ys) ≡ some v
unfolding lookup
lookup-append k [] ys v h = ground arith
lookup-append k ((j, u) ∷ xs) ys v h = ground (arith, lookup-append k xs ys v)

pub rival-KeepsLog : KeepsLog rival
rival-KeepsLog n s k ops h = lookup-append k s.wal _ ops h

-- it writes before each claim of ours
abbrev pub contended : World
contended = record alone { claim_after = rival; bump_before = rival }

pub contended-IsHonest : IsHonest contended
contended-IsHonest = record {
  claim_before = λ n s k ops h. h;
  claim_after = rival-KeepsLog;
  bump_before = rival-KeepsLog;
  bump_after = λ n s k ops h. h;
}

-- a writer that believes sequence 2 to be free
abbrev pub behind : Writer
behind = record { next_seq = some 2; head_etag = some 3 }

-- Both entries are folded, and the manifest before the last one had folded them too.
abbrev pub folded_two : Manifest
folded_two = record empty_manifest { wal_index_cursor = 2; wal_head = 2; prev_wal_index_cursor = 2 }

abbrev pub all_folded : Store
all_folded = record two_entries { manifest = some folded_two }

-- one namespace in the queue, held by worker 1
abbrev pub held_job : Job
held_job = record {
  state = claimed;
  claimed_by = some (codes "w1");
  heartbeat_ms = 100;
  enqueued_ms = 90;
}

abbrev pub one_held : Queue
one_held = record {
  file = some (record { parsed = some ((codes "ns", held_job) ∷ []); etag = 3 });
  next_etag = 4;
}

-- a cluster of three, the second one red and touched at 50
abbrev pub touched_red : StoredMemory
touched_red = record seven { timestamps = record no_times { updated_at = some (pos 50) } }

pub flushed-IsWellFormed : IsWellFormed flushed
unfolding index
flushed-IsWellFormed = flush-IsWellFormed built 4 next_slice built-IsWellFormed refl (omega arith)
