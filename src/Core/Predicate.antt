-- ===== src/Core/Predicate.antt =====
-- crates/mlake-core/src/predicate.rs: the predicate of a bulk delete.
use memlake.Prelude.{
  ℕ, Bool, true, false, not, ◌&&◌, ◌||◌, Option, none, some, List, [], ◌∷◌, ◌==◌, any, all,
  contains, is_empty, if◌then◌else◌,
}
use memlake.Prelude.Bytes.{Bytes, bytes_eq}
use memlake.Prelude.Int.{ℤ, leb_ℤ}
use memlake.Core.Memory.{StoredMemory}
use memlake.Core.Tags
use memlake.Core.Tags.{TagsMatch, any_mode, all_mode, any_strict, all_strict, exact, new_filter}

pub record Predicate : Type 0 where
  pub memory_types : List ℕ
  pub metadata_equals : List (Bytes × Bytes)
  pub tags : List Bytes
  pub tags_mode : ℕ
  pub updated_from : Option ℤ
  pub updated_to : Option ℤ

unfoldable pub tags_mode_from_u8 : ℕ → TagsMatch
tags_mode_from_u8 n =
    if n == 1
    then all_mode
    else if n == 2
    then any_strict
    else if n == 3
    then all_strict
    else if n == 4
    then exact
    else any_mode

unfoldable pub tags_mode_to_u8 : TagsMatch → ℕ
tags_mode_to_u8 any_mode = 0
tags_mode_to_u8 all_mode = 1
tags_mode_to_u8 any_strict = 2
tags_mode_to_u8 all_strict = 3
tags_mode_to_u8 exact = 4

abbrev pub is_none {ℓ} : {A : Type ℓ} → Option A → Bool
is_none none = true
is_none (some a) = false

unfoldable pub is_empty_predicate : Predicate → Bool
is_empty_predicate p =
    is_empty p.memory_types
    && (is_empty p.metadata_equals
        && (is_empty p.tags && (is_none p.updated_from && is_none p.updated_to)))

abbrev pub type_ok : List ℕ → ℕ → Bool
type_ok types t = is_empty types || contains types t

abbrev pub after_from : Option ℤ → ℤ → Bool
after_from none updated = true
after_from (some from) updated = not (leb_ℤ updated from)

abbrev pub before_to : Option ℤ → ℤ → Bool
before_to none updated = true
before_to (some to) updated = not (leb_ℤ to updated)

-- the window on `updated_at`; with no bound it passes whatever the write time is
unfoldable pub window_ok : Option ℤ → Option ℤ → Option ℤ → Bool
window_ok none none updated_at = true
window_ok from to none = false
window_ok from to (some updated) = after_from from updated && before_to to updated

unfoldable pub metadata_ok : List (Bytes × Bytes) → List (Bytes × Bytes) → Bool
metadata_ok metadata_equals metadata =
    all (λ kv. any (λ mkv. bytes_eq mkv.0 kv.0 && bytes_eq mkv.1 kv.1) metadata) metadata_equals

unfoldable pub tags_ok : List Bytes → ℕ → List Bytes → Bool
unfolding tags_mode_from_u8 Tags.matches
tags_ok [] mode memory_tags = true
tags_ok (t ∷ req) mode memory_tags =
    Tags.matches (new_filter (t ∷ req) (tags_mode_from_u8 mode)) memory_tags

-- The early returns, in the order of the source.
unfoldable pub predicate_matches : Predicate → StoredMemory → Bool
unfolding tags_ok window_ok metadata_ok
predicate_matches p m =
    if not (type_ok p.memory_types m.memory_type)
    then false
    else if not (tags_ok p.tags p.tags_mode m.tags)
    then false
    else if not (window_ok p.updated_from p.updated_to m.timestamps.updated_at)
    then false
    else metadata_ok p.metadata_equals m.metadata
