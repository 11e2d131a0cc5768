-- ===== src/Lib.antt =====
-- memlake: a memory store for agents on object storage (crates/). Writes go to a log, a sequence
-- of immutable entries; an indexer folds slices of the log into segments and publishes a manifest
-- that lists them; a query node opens the manifest and the unfolded tail of the log and answers
-- from both.
--
-- Prelude: the names that the modules share, association maps, bytes, integers, sorting.
-- Core (crates/mlake-core/src): Core.Tags is tags.rs, Core.Memory is memory.rs with the ids of
-- id.rs, Core.Predicate is predicate.rs, Core.Wal is wal.rs, Core.Manifest is manifest.rs with
-- tombstones.rs, and Core.Names has the names of log objects (manifest.rs, and
-- crates/mlake-wal/src/lib.rs). Functions keep their names; `matches` of a predicate is
-- `predicate_matches`, and of a tree `tree_matches`.
-- Wal.Tail (crates/mlake-wal/src/tail.rs): `fold_entries` and the `TailScan` that it gives. Its
-- children say what shape a scan has, what it holds of one id, and how that compares with
-- `replay`, the sequential meaning of the log at one id, which each op changes in turn.
-- Wal.Namespace, Wal.Commit, Wal.Scan (lib.rs, commit.rs and tail.rs of crates/mlake-wal/src, with
-- the conditional writes of crates/mlake-store/src/store.rs): the objects of a namespace as a
-- record, `commit` with its claim loop and the bump of the head pointer, `commit_many`, and the
-- tails that the indexer and a reader fold. A `World` says what other processes do between the
-- calls of a commit.
-- Wal.Queue (crates/mlake-wal/src/index_queue.rs): the indexer's queue, an object swapped by its
-- tag.
-- Index (crates/mlake-index/src): Index.Segments has the segments with their overlays, and the
-- loop over them that finds the live items; Index.Fold has `index` and `flush`, Index.Compact has
-- `minor_compact` and the choice of `fold` (indexer.rs); Index.Node has the snapshot of a query
-- node and `get_many` (query_node.rs); Index.Reads compares point reads with `replay`; Index.Gc
-- has the reclaiming of the log and of segment files (gc.rs); Index.Summary has the cluster
-- summaries (generation.rs) and the pruning by them.
-- Index.Table, Index.Pk, Index.Postings, Index.Edges (crates/mlake-index/src/sstable.rs): the
-- tables of sorted records in blocks, with their bytes; the table of clusters by id; the tables of
-- ids by entity and by time; the bytes of edges.
-- Index.Spill (crates/mlake-index/src/spill.rs): the external sort.
-- Examples: the theorems at concrete inputs.
--
-- How state is represented. An id of 16 bytes is the number that it spells; a string is the list
-- of its bytes; a float is its bit pattern, since here floats are only copied. A hash map is an
-- association list in which the first entry of a key counts; results about maps speak of lookups,
-- so that they do not depend on an order. A segment holds its items themselves; its files are
-- modelled apart, the tables by their bytes and the paths where they are collected. The manifest's
-- hash of the tokenizer is left out. A fold is a function from the manifest, the head of the log,
-- the scan of the slice and the snapshot opened at the same head to the manifest that it
-- publishes; the conditional swap of the manifest is left out. Numbers are unbounded: sequences
-- and counts are far below 2 ^ 64, and the one clamp that the code writes out, that of the proof
-- count, is in the model. Reading a directory of blocks reserves 32 bytes for each; `parse_within`
-- takes the most that a reservation gets, and `parse` sets it to the most that a vector can have.
-- The claim loop, the bump of the pointer and the queue's loops run on the code's own 32 and 16
-- attempts; the scans of a block run on as many rounds as it has bytes, the walk forward on as
-- many as the table has blocks, the drain of a sort on as many as it has records, each with a
-- theorem that this is enough; every other loop goes over a list or a range of sequences.
--
-- `live_view` is what a manifest's segments hold of an id. A manifest is well-formed
-- (`IsWellFormed`) when its segments have at most one live copy of an id, end by the cursor, and
-- carry no predicate deletes. `no_wheres` says of a slice that it has no predicate delete.
--
-- Not modelled: store failures other than a lost condition, the retrieval arms (vector, text,
-- graph, temporal), the formats of clusters and payloads, the caches, the server. They are input
-- and output, or floating point, or plainly left out.
pub mod Prelude
pub mod Core
pub mod Wal
pub mod Index
pub mod Examples
