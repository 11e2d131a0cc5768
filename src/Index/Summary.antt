-- ===== src/Index/Summary.antt =====
-- The summary of a cluster by which a query prunes it: its build (crates/mlake-index/src/indexer.rs),
-- its tests (generation.rs) and the filter that applies them (query_node.rs).
pub mod Pruning
use memlake.Prelude.{
  ℕ, ◌-◌, ◌^◌, Bool, true, false, not, ◌&&◌, ◌||◌, Option, none, some, List, [], ◌∷◌, is_empty,
  if◌then◌else◌,
}
use memlake.Prelude.Bytes.{Bytes, bytes_lt}
use memlake.Prelude.Int.{ℤ, pos, negsuc, ltb_ℤ}
use memlake.Prelude.Sort.{insert_sorted}
use memlake.Core.Memory.{StoredMemory}
use memlake.Core.Tags.{TagFilter, contains_tag, is_noop, cluster_admits}

pub record ClusterTagSummary : Type 0 where
  pub tags : List Bytes
  pub has_untagged : Bool
  pub updated_range : Option (ℤ × ℤ)

-- `insert` of a `BTreeSet`
unfoldable pub set_insert : Bytes → List Bytes → List Bytes
unfolding contains_tag insert_sorted
set_insert t tags = if contains_tag tags t then tags else insert_sorted bytes_lt t tags

unfoldable pub set_extend : List Bytes → List Bytes → List Bytes
unfolding set_insert
set_extend [] tags = tags
set_extend (t ∷ ts) tags = set_extend ts (set_insert t tags)

-- the loop over a cluster
unfoldable pub tags_from : List Bytes → List StoredMemory → List Bytes
unfolding set_extend
tags_from tags [] = tags
tags_from tags (m ∷ ms) = tags_from (set_extend m.tags tags) ms

unfoldable pub untagged_from : Bool → List StoredMemory → Bool
untagged_from flag [] = flag
untagged_from flag (m ∷ ms) = untagged_from (if is_empty m.tags then true else flag) ms

-- `i64::MAX` and `i64::MIN`
abbrev pub i64_max : ℤ
i64_max = pos (2 ^ 63 - 1)

abbrev pub i64_min : ℤ
i64_min = negsuc (2 ^ 63 - 1)

abbrev pub min_ℤ : ℤ → ℤ → ℤ
min_ℤ a b = if ltb_ℤ b a then b else a

abbrev pub max_ℤ : ℤ → ℤ → ℤ
max_ℤ a b = if ltb_ℤ a b then b else a

abbrev pub lower : ℤ → Option ℤ → ℤ
lower lo none = lo
lower lo (some u) = min_ℤ lo u

abbrev pub upper : ℤ → Option ℤ → ℤ
upper hi none = hi
upper hi (some u) = max_ℤ hi u

-- the loop of `range_of`: a member without a write time leaves the range as it is
unfoldable pub range_from : ℤ → ℤ → List StoredMemory → ℤ × ℤ
range_from lo hi [] = (lo, hi)
range_from lo hi (m ∷ ms) =
    range_from (lower lo m.timestamps.updated_at) (upper hi m.timestamps.updated_at) ms

unfoldable pub summarize : List StoredMemory → ClusterTagSummary
unfolding tags_from untagged_from range_from
summarize cluster = record {
  tags = tags_from [] cluster;
  has_untagged = untagged_from false cluster;
  updated_range = some (range_from i64_max i64_min cluster);
}

abbrev pub above : Option ℤ → ℤ → Bool
above none u = true
above (some f) u = ltb_ℤ f u

abbrev pub below : Option ℤ → ℤ → Bool
below none u = true
below (some t) u = ltb_ℤ u t

abbrev pub unbounded : Option ℤ → Option ℤ → Bool
unbounded none none = true
unbounded _ _ = false

abbrev pub range_admits : Option ℤ → Option ℤ → Option (ℤ × ℤ) → Bool
range_admits from to none = true
range_admits from to (some (lo, hi)) = if ltb_ℤ hi lo then false else above from hi && below to lo

-- `ClusterTagSummary::admits_window`
unfoldable pub admits_window : ClusterTagSummary → Option ℤ → Option ℤ → Bool
admits_window s from to = if unbounded from to then true else range_admits from to s.updated_range

abbrev pub known_admits : Option ℤ → Option ℤ → Option ℤ → Bool
known_admits from to none = false
known_admits from to (some u) = above from u && below to u

-- `UpdatedWindow::admits`
unfoldable pub window_admits : Option ℤ → Option ℤ → Option ℤ → Bool
window_admits from to updated_at =
    if unbounded from to then true else known_admits from to updated_at

-- the filter of `select_clusters`
unfoldable pub admits_cluster : TagFilter → Option ℤ → Option ℤ → ClusterTagSummary → Bool
unfolding is_noop cluster_admits admits_window
admits_cluster filter from to s =
    (is_noop filter || cluster_admits filter s.tags s.has_untagged) && admits_window s from to
