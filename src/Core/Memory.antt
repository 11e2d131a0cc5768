-- ===== src/Core/Memory.antt =====
-- crates/mlake-core/src/memory.rs and id.rs: the memory item. An id of 16 bytes is the number that
-- it spells big-endian (the order of the arrays is that of the numbers), and an `f32` is its bit
-- pattern: here vectors are only copied.
use memlake.Prelude.{ℕ, Option, none, some, List, ltb, is_empty, if◌then◌else◌}
use memlake.Prelude.Bytes.{Bytes, bytes_lt}
use memlake.Prelude.Int.{ℤ}
use memlake.Prelude.Sort.{sort_by, dedup}

abbrev pub MemoryId : Type 0
MemoryId = ℕ

abbrev pub EntityId : Type 0
EntityId = ℕ

pub data LinkType : Type 0 where
  causes caused_by enables prevents : LinkType

-- `first.or(second)`
abbrev pub or_else {ℓ} : {A : Type ℓ} → Option A → Option A → Option A
or_else (some a) o = some a
or_else none o = o

pub record Timestamps : Type 0 where
  pub event_date : Option ℤ
  pub occurred_start : Option ℤ
  pub occurred_end : Option ℤ
  pub mentioned_at : Option ℤ
  pub updated_at : Option ℤ

unfoldable pub effective_ts : Timestamps → Option ℤ
effective_ts ts = or_else (or_else ts.occurred_start ts.mentioned_at) ts.occurred_end

pub record SemanticEdge : Type 0 where
  pub target : MemoryId
  pub weight : ℕ

pub record CausalEdge : Type 0 where
  pub target : MemoryId
  pub link_type : LinkType
  pub weight : ℕ

pub record StoredMemory : Type 0 where
  pub id : MemoryId
  pub vector : List ℕ
  pub text : Bytes
  pub index_text : Bytes
  pub memory_type : ℕ
  pub tags : List Bytes
  pub timestamps : Timestamps
  pub proof_count : ℕ
  pub entity_ids : List EntityId
  pub semantic_out : List SemanticEdge
  pub causal_out : List CausalEdge
  pub metadata : List (Bytes × Bytes)
  pub write_seq : ℕ

pub record Memory : Type 0 where
  pub id : MemoryId
  pub vector : List ℕ
  pub text : Bytes
  pub index_text : Bytes
  pub memory_type : ℕ
  pub tags : List Bytes
  pub timestamps : Timestamps
  pub proof_count : ℕ
  pub entity_ids : List EntityId
  pub causal_out : List CausalEdge
  pub semantic_out : List SemanticEdge
  pub metadata : List (Bytes × Bytes)

-- `sort_unstable` and `dedup` of ids
unfoldable pub sort_ids : List ℕ → List ℕ
unfolding sort_by dedup
sort_ids ids = dedup (sort_by ltb ids)

-- `sort_by(|a, b| a.0.cmp(&b.0))`
unfoldable pub sort_metadata : List (Bytes × Bytes) → List (Bytes × Bytes)
unfolding sort_by bytes_lt
sort_metadata = sort_by (λ a b. bytes_lt a.0 b.0)

unfoldable pub into_stored : Memory → StoredMemory
unfolding sort_ids sort_metadata
into_stored m = record {
  id = m.id;
  vector = m.vector;
  text = m.text;
  index_text = m.index_text;
  memory_type = m.memory_type;
  tags = m.tags;
  timestamps = m.timestamps;
  proof_count = m.proof_count;
  entity_ids = sort_ids m.entity_ids;
  semantic_out = m.semantic_out;
  causal_out = m.causal_out;
  metadata = sort_metadata m.metadata;
  write_seq = 0;
}

unfoldable pub fts_text : StoredMemory → Bytes
fts_text m = if is_empty m.index_text then m.text else m.index_text
