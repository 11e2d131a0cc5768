-- ===== src/Core/Tags/Laws.antt =====
-- How the tests of a filter relate: the flat condition, the no-op test and the leaf of a tree.
use memlake.Prelude.{◌≡◌, refl, true, false, List, [], ◌∷◌, arith, is_empty}
use memlake.Prelude.Bytes.{Bytes}
use memlake.Core.Tags.{
  TagsMatch, any_mode, all_mode, any_strict, all_strict, exact, tag_filter, TagPredicates, overlaps,
  contains_all, matches, leaf_matches,
}

-- A leaf with tags is the flat condition. Without tags, an all leaf accepts every memory, an any
-- leaf and an exact leaf the untagged ones, and an any-strict leaf none.
pub leaf_matches-eq-matches :
    (t : Bytes) (req : List Bytes) (mode : TagsMatch) (groups : TagPredicates)
    (memory_tags : List Bytes)
    → (leaf_matches (tag_filter (t ∷ req) mode groups) memory_tags
        ≡ matches (tag_filter (t ∷ req) mode groups) memory_tags)
      × (leaf_matches (tag_filter [] all_mode groups) memory_tags ≡ true)
      × (leaf_matches (tag_filter [] any_mode groups) memory_tags ≡ is_empty memory_tags)
      × (leaf_matches (tag_filter [] any_strict groups) memory_tags ≡ false)
      × (leaf_matches (tag_filter [] exact groups) memory_tags ≡ is_empty memory_tags)
unfolding leaf_matches matches overlaps contains_all
leaf_matches-eq-matches t req any_mode groups memory_tags =
    (refl, ground arith, ground arith, ground arith, refl)
leaf_matches-eq-matches t req all_mode groups memory_tags =
    (refl, ground arith, ground arith, ground arith, refl)
leaf_matches-eq-matches t req any_strict groups memory_tags =
    (refl, ground arith, ground arith, ground arith, refl)
leaf_matches-eq-matches t req all_strict groups memory_tags =
    (refl, ground arith, ground arith, ground arith, refl)
leaf_matches-eq-matches t req exact groups memory_tags =
    (refl, ground arith, ground arith, ground arith, refl)
