-- ===== src/Core/Tags.antt =====
-- crates/mlake-core/src/tags.rs: tag filters and the boolean trees over them.
pub mod Laws
use memlake.Prelude.{Bool, true, false, not, ◌&&◌, ◌||◌, List, [], ◌∷◌, any, all, is_empty}
use memlake.Prelude.Bytes.{Bytes, bytes_eq}

pub data TagsMatch : Type 0 where
  any_mode all_mode any_strict all_strict exact : TagsMatch

abbrev pub is_exact : TagsMatch → Bool
is_exact exact = true
is_exact _ = false

-- `TagFilter` holds `Vec<TagPredicate>` and a leaf holds a `TagFilter`, so the lists stand in the
-- block.
mutual
  pub data TagFilter : Type 0 where
    tag_filter : List Bytes → TagsMatch → TagPredicates → TagFilter

  pub data TagPredicate : Type 0 where
    leaf : TagFilter → TagPredicate
    all_of : TagPredicates → TagPredicate
    any_of : TagPredicates → TagPredicate
    negate : TagPredicate → TagPredicate

  pub data TagPredicates : Type 0 where
    nil : TagPredicates
    cons : TagPredicate → TagPredicates → TagPredicates

abbrev pub no_groups : TagPredicates → Bool
no_groups nil = true
no_groups (cons g gs) = false

-- `TagFilter::new`
abbrev pub new_filter : List Bytes → TagsMatch → TagFilter
new_filter tags mode = tag_filter tags mode nil

unfoldable pub contains_tag : List Bytes → Bytes → Bool
contains_tag tags t = any (λ x. bytes_eq x t) tags

unfoldable pub overlaps : List Bytes → List Bytes → Bool
overlaps memory_tags req = any (λ t. contains_tag memory_tags t) req

unfoldable pub contains_all : List Bytes → List Bytes → Bool
contains_all memory_tags req = all (λ t. contains_tag memory_tags t) req

-- Two `BTreeSet`s are equal when each holds the elements of the other.
unfoldable pub set_eq : List Bytes → List Bytes → Bool
set_eq memory_tags req = contains_all memory_tags req && contains_all req memory_tags

unfoldable pub matches : TagFilter → List Bytes → Bool
matches (tag_filter [] exact groups) memory_tags = is_empty memory_tags
matches (tag_filter [] mode groups) memory_tags = true
matches (tag_filter req any_mode groups) memory_tags =
    is_empty memory_tags || overlaps memory_tags req
matches (tag_filter req all_mode groups) memory_tags =
    is_empty memory_tags || contains_all memory_tags req
matches (tag_filter req any_strict groups) memory_tags =
    not (is_empty memory_tags) && overlaps memory_tags req
matches (tag_filter req all_strict groups) memory_tags =
    not (is_empty memory_tags) && contains_all memory_tags req
matches (tag_filter req exact groups) memory_tags =
    not (is_empty memory_tags) && set_eq memory_tags req

unfoldable pub leaf_matches : TagFilter → List Bytes → Bool
leaf_matches (tag_filter [] exact groups) memory_tags = is_empty memory_tags
leaf_matches (tag_filter req any_mode groups) memory_tags =
    is_empty memory_tags || overlaps memory_tags req
leaf_matches (tag_filter req all_mode groups) memory_tags =
    is_empty memory_tags || contains_all memory_tags req
leaf_matches (tag_filter req any_strict groups) memory_tags =
    not (is_empty memory_tags) && overlaps memory_tags req
leaf_matches (tag_filter req all_strict groups) memory_tags =
    not (is_empty memory_tags) && contains_all memory_tags req
leaf_matches (tag_filter req exact groups) memory_tags =
    not (is_empty memory_tags) && set_eq memory_tags req

unfoldable pub is_noop : TagFilter → Bool
is_noop (tag_filter tags mode groups) = is_empty tags && not (is_exact mode)

unfoldable pub admits_all : TagFilter → Bool
unfolding is_noop
admits_all (tag_filter tags mode groups) = is_noop (tag_filter tags mode groups) && no_groups groups

unfoldable pub cluster_admits : TagFilter → List Bytes → Bool → Bool
cluster_admits (tag_filter [] exact groups) cluster_tags has_untagged = has_untagged
cluster_admits (tag_filter [] mode groups) cluster_tags has_untagged = true
cluster_admits (tag_filter req any_mode groups) cluster_tags has_untagged =
    has_untagged || overlaps cluster_tags req
cluster_admits (tag_filter req all_mode groups) cluster_tags has_untagged =
    has_untagged || contains_all cluster_tags req
cluster_admits (tag_filter req any_strict groups) cluster_tags has_untagged =
    overlaps cluster_tags req
cluster_admits (tag_filter req all_strict groups) cluster_tags has_untagged =
    contains_all cluster_tags req
cluster_admits (tag_filter req exact groups) cluster_tags has_untagged =
    contains_all cluster_tags req

-- `TagPredicate::matches`
unfoldable mutual
  unfolding leaf_matches

  pub tree_matches : TagPredicate → List Bytes → Bool
  tree_matches (leaf f) memory_tags = leaf_matches f memory_tags
  tree_matches (all_of children) memory_tags = all_match children memory_tags
  tree_matches (any_of children) memory_tags = any_match children memory_tags
  tree_matches (negate child) memory_tags = not (tree_matches child memory_tags)

  pub all_match : TagPredicates → List Bytes → Bool
  all_match nil memory_tags = true
  all_match (cons c cs) memory_tags = tree_matches c memory_tags && all_match cs memory_tags

  pub any_match : TagPredicates → List Bytes → Bool
  any_match nil memory_tags = false
  any_match (cons c cs) memory_tags = tree_matches c memory_tags || any_match cs memory_tags

unfoldable pub groups_match : TagFilter → List Bytes → Bool
groups_match (tag_filter tags mode groups) memory_tags = all_match groups memory_tags
