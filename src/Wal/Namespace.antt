-- ===== src/Wal/Namespace.antt =====
-- crates/mlake-wal/src/lib.rs and the conditional writes of crates/mlake-store/src/store.rs: the
-- objects of a namespace that the commit protocol works on. A log object is named by its sequence
-- and holds the ops of its entry; under `wal/` there are only such names, of which Core.Names has the
-- bytes: their order is that of the sequences, and each parses to its sequence. The head pointer has
-- the sequence that its text spells and the tag of its version. Each write of the pointer makes a tag
-- that was never used before.
pub mod Heads
use memlake.Prelude.{ℕ, suc, Bool, false, Option, none, some, List, [], ◌∷◌, ltb, ◌==◌}
use memlake.Prelude.Sort.{sort_by}
use memlake.Prelude.Assoc.{Assoc}
use memlake.Core.Wal.{Op}
use memlake.Core.Manifest.{Manifest}

pub record Pointer : Type 0 where
  pub head : ℕ
  pub etag : ℕ

pub record Store : Type 0 where
  pub wal : Assoc (List Op)
  pub pointer : Option Pointer
  pub manifest : Option Manifest
  pub next_etag : ℕ

-- the sequences of the log's names
unfoldable pub seqs {ℓ} : {V : Type ℓ} → Assoc V → List ℕ
seqs [] = []
seqs ((seq, v) ∷ m) = seq ∷ seqs m

-- `paths.last()` and its sequence, 0 for an empty listing
unfoldable pub last_or_zero : List ℕ → ℕ
last_or_zero [] = 0
last_or_zero (seq ∷ []) = seq
last_or_zero (seq ∷ next ∷ later) = last_or_zero (next ∷ later)

-- the last sequence of the listing, which comes in the order of the names
unfoldable pub highest {ℓ} : {V : Type ℓ} → Assoc V → ℕ
highest m = last_or_zero (sort_by ltb (seqs m))

unfoldable pub wal_head : Store → ℕ
unfolding highest
wal_head s = highest s.wal

unfoldable pub resolve_head : Store → ℕ
unfolding wal_head
resolve_head s = elim s.pointer [ none ↦ wal_head s | some p ↦ p.head ]

-- the pointer's new version
unfoldable pub write_pointer : ℕ → Store → Store
write_pointer seq s = record s {
  pointer = some (record { head = seq; etag = s.next_etag });
  next_etag = suc s.next_etag;
}

-- whether a swap of the pointer from a tag goes through
unfoldable pub holds_etag : ℕ → Store → Bool
holds_etag etag s = elim s.pointer [ none ↦ false | some p ↦ p.etag == etag ]
