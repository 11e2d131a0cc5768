-- ===== src/Index/Summary/Pruning.antt =====
-- No cluster is pruned that has a member that passes.
use memlake.Prelude.{
  ◌≡◌, refl, inl, inr, Bool, true, false, Option, none, some, List, [], ◌∷◌, ◌++◌, arith, is_empty,
  if◌then◌else◌, Bool-cases,
}
use memlake.Prelude.Bytes.{Bytes, bytes_eq, bytes_lt, bytes_eq_iff}
use memlake.Prelude.Int.{ℤ, leb_ℤ}
use memlake.Prelude.Sort.{any-insert_sorted}
use memlake.Core.Memory.{StoredMemory}
use memlake.Core.Tags
use memlake.Core.Tags.{
  TagsMatch, any_mode, all_mode, any_strict, all_strict, exact, TagFilter, tag_filter, contains_tag,
  overlaps, contains_all, set_eq, is_noop, cluster_admits,
}
use memlake.Index.Summary.{
  ClusterTagSummary, set_insert, set_extend, tags_from, untagged_from, range_from, summarize,
  admits_window, window_admits, admits_cluster, i64_max, i64_min, lower, upper,
}

contains_tag-set_insert :
    (t u : Bytes) (tags : List Bytes)
    → contains_tag tags u ≡ true
    → contains_tag (set_insert t tags) u ≡ true
unfolding set_insert contains_tag
contains_tag-set_insert t u tags h =
    ground (arith, h, any-insert_sorted bytes_lt (λ x. bytes_eq x u) t tags)

contains_tag-set_insert_self :
    (t u : Bytes) (tags : List Bytes)
    → bytes_eq t u ≡ true
    → contains_tag (set_insert t tags) u ≡ true
unfolding set_insert contains_tag
contains_tag-set_insert_self t u tags e =
    ground (arith, e, (bytes_eq_iff t u).0 e, any-insert_sorted bytes_lt (λ x. bytes_eq x u) t tags)

contains_tag-set_extend :
    (ts tags : List Bytes) (u : Bytes)
    → contains_tag tags u ≡ true
    → contains_tag (set_extend ts tags) u ≡ true
unfolding set_extend
contains_tag-set_extend [] tags u h = h
contains_tag-set_extend (t ∷ ts) tags u h =
    contains_tag-set_extend ts (set_insert t tags) u (contains_tag-set_insert t u tags h)

contains_tag-set_extend_own :
    (ts tags : List Bytes) (u : Bytes)
    → contains_tag ts u ≡ true
    → contains_tag (set_extend ts tags) u ≡ true
unfolding set_extend contains_tag
contains_tag-set_extend_own [] tags u h = ground arith
contains_tag-set_extend_own (t ∷ ts) tags u h = elim (Bool-cases (bytes_eq t u)) [
  | inl same ↦
      contains_tag-set_extend ts (set_insert t tags) u (contains_tag-set_insert_self t u tags same)
  | inr other ↦ contains_tag-set_extend_own ts (set_insert t tags) u (ground (arith, h, other))
]

contains_tag-tags_from :
    (tags : List Bytes) (ms : List StoredMemory) (u : Bytes)
    → contains_tag tags u ≡ true
    → contains_tag (tags_from tags ms) u ≡ true
unfolding tags_from
contains_tag-tags_from tags [] u h = h
contains_tag-tags_from tags (m ∷ ms) u h =
    contains_tag-tags_from (set_extend m.tags tags) ms u (contains_tag-set_extend m.tags tags u h)

-- The summary has every tag of every member.
member_tags :
    (tags : List Bytes) (xs : List StoredMemory) (m : StoredMemory) (ys : List StoredMemory)
    (u : Bytes)
    → contains_tag m.tags u ≡ true
    → contains_tag (tags_from tags (xs ++ m ∷ ys)) u ≡ true
unfolding tags_from
member_tags tags [] m ys u h =
    contains_tag-tags_from (set_extend m.tags tags) ys u
      (contains_tag-set_extend_own m.tags tags u h)
member_tags tags (x ∷ xs) m ys u h = member_tags (set_extend x.tags tags) xs m ys u h

untagged_from-true : (ms : List StoredMemory) → untagged_from true ms ≡ true
unfolding untagged_from
untagged_from-true [] = refl
untagged_from-true (m ∷ ms) = ground (arith, untagged_from-true ms)

member_untagged :
    (flag : Bool) (xs : List StoredMemory) (m : StoredMemory) (ys : List StoredMemory)
    → is_empty m.tags ≡ true
    → untagged_from flag (xs ++ m ∷ ys) ≡ true
unfolding untagged_from
member_untagged flag [] m ys h = ground (arith, h, untagged_from-true ys)
member_untagged flag (x ∷ xs) m ys h =
    member_untagged (if is_empty x.tags then true else flag) xs m ys h

-- A range that has `u` keeps it.
abbrev InRange : ℤ → ℤ × ℤ → Type 0
InRange u r = (leb_ℤ r.0 u ≡ true) × (leb_ℤ u r.1 ≡ true)

InRange-widen :
    (u lo hi : ℤ) (o : Option ℤ) → InRange u (lo, hi) → InRange u (lower lo o, upper hi o)
InRange-widen u lo hi none h = h
InRange-widen u lo hi (some v) h = (ground (arith, h), ground (arith, h))

InRange-widen_own : (u lo hi : ℤ) (o : Option ℤ) → o ≡ some u → InRange u (lower lo o, upper hi o)
InRange-widen_own u lo hi o e = rw e (ground arith, ground arith)

range_from-InRange :
    (u lo hi : ℤ) (ms : List StoredMemory) → InRange u (lo, hi) → InRange u (range_from lo hi ms)
unfolding range_from
range_from-InRange u lo hi [] h = h
range_from-InRange u lo hi (m ∷ ms) h =
    range_from-InRange u (lower lo m.timestamps.updated_at) (upper hi m.timestamps.updated_at) ms
      (InRange-widen u lo hi m.timestamps.updated_at h)

member_range :
    (u lo hi : ℤ) (xs : List StoredMemory) (m : StoredMemory) (ys : List StoredMemory)
    → m.timestamps.updated_at ≡ some u
    → InRange u (range_from lo hi (xs ++ m ∷ ys))
unfolding range_from
member_range u lo hi [] m ys e =
    range_from-InRange u (lower lo m.timestamps.updated_at) (upper hi m.timestamps.updated_at) ys
      (InRange-widen_own u lo hi m.timestamps.updated_at e)
member_range u lo hi (x ∷ xs) m ys e =
    member_range u (lower lo x.timestamps.updated_at) (upper hi x.timestamps.updated_at) xs m ys e

-- Larger sets of tags meet and cover what smaller ones do.
overlaps_mono :
    (small large req : List Bytes)
    → ((u : Bytes) → contains_tag small u ≡ true → contains_tag large u ≡ true)
    → overlaps small req ≡ true
    → overlaps large req ≡ true
unfolding overlaps
overlaps_mono small large [] sub h = h
overlaps_mono small large (t ∷ req) sub h = elim (Bool-cases (contains_tag small t)) [
  | inl has ↦ rw (sub t has) refl
  | inr lacks ↦ ground (arith, lacks, h, overlaps_mono small large req sub)
]

contains_all_mono :
    (small large req : List Bytes)
    → ((u : Bytes) → contains_tag small u ≡ true → contains_tag large u ≡ true)
    → contains_all small req ≡ true
    → contains_all large req ≡ true
unfolding contains_all
contains_all_mono small large [] sub h = refl
contains_all_mono small large (t ∷ req) sub h =
    ground (arith, h, sub t, contains_all_mono small large req sub)

module _ (cluster_tags : List Bytes) (has_untagged : Bool) (m : StoredMemory)
    (has_tags : (u : Bytes) → contains_tag m.tags u ≡ true → contains_tag cluster_tags u ≡ true)
    (flags : is_empty m.tags ≡ true → has_untagged ≡ true) where
  cluster_admits-member :
      (filter : TagFilter)
      → Tags.matches filter m.tags ≡ true
      → cluster_admits filter cluster_tags has_untagged ≡ true
  unfolding Tags.matches cluster_admits set_eq
  cluster_admits-member (tag_filter [] exact groups) h = flags h
  cluster_admits-member (tag_filter [] any_mode groups) h = refl
  cluster_admits-member (tag_filter [] all_mode groups) h = refl
  cluster_admits-member (tag_filter [] any_strict groups) h = refl
  cluster_admits-member (tag_filter [] all_strict groups) h = refl
  cluster_admits-member (tag_filter (t ∷ req) any_mode groups) h =
      ground (arith, h, flags, overlaps_mono m.tags cluster_tags (t ∷ req) has_tags)
  cluster_admits-member (tag_filter (t ∷ req) all_mode groups) h =
      ground (arith, h, flags, contains_all_mono m.tags cluster_tags (t ∷ req) has_tags)
  cluster_admits-member (tag_filter (t ∷ req) any_strict groups) h =
      ground (arith, h, overlaps_mono m.tags cluster_tags (t ∷ req) has_tags)
  cluster_admits-member (tag_filter (t ∷ req) all_strict groups) h =
      ground (arith, h, contains_all_mono m.tags cluster_tags (t ∷ req) has_tags)
  cluster_admits-member (tag_filter (t ∷ req) exact groups) h =
      ground (arith, h, contains_all_mono m.tags cluster_tags (t ∷ req) has_tags)

window-member :
    (from to : Option ℤ) (s : ClusterTagSummary) (r : ℤ × ℤ) (updated_at : Option ℤ)
    → s.updated_range ≡ some r
    → ((u : ℤ) → updated_at ≡ some u → InRange u r)
    → window_admits from to updated_at ≡ true
    → admits_window s from to ≡ true
unfolding window_admits admits_window
window-member none none s r updated_at e within h = refl
window-member (some f) to s r none e within h = ground arith
window-member none (some t) s r none e within h = ground arith
window-member (some f) none s r (some u) e within h = ground (arith, e, within u refl, h)
window-member (some f) (some t) s r (some u) e within h = ground (arith, e, within u refl, h)
window-member none (some t) s r (some u) e within h = ground (arith, e, within u refl, h)

-- Pruning is safe: a cluster with a member that passes the filter's flat condition and the window on
-- its write time is not pruned by the summary that the build writes for it.
pub admits_cluster-member :
    (filter : TagFilter) (from to : Option ℤ) (xs : List StoredMemory) (m : StoredMemory)
    (ys : List StoredMemory)
    → Tags.matches filter m.tags ≡ true
    → window_admits from to m.timestamps.updated_at ≡ true
    → admits_cluster filter from to (summarize (xs ++ m ∷ ys)) ≡ true
unfolding admits_cluster summarize
admits_cluster-member filter from to xs m ys ht hw =
    let s = summarize (xs ++ m ∷ ys) in
    let tags : cluster_admits filter s.tags s.has_untagged ≡ true =
      cluster_admits-member s.tags s.has_untagged m (member_tags [] xs m ys)
        (member_untagged false xs m ys) filter ht in
    let window : admits_window s from to ≡ true =
      window-member from to s (range_from i64_max i64_min (xs ++ m ∷ ys)) m.timestamps.updated_at
        refl (λ u e. member_range u i64_max i64_min xs m ys e) hw in
    ground (arith, tags, window)
