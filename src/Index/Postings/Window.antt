-- ===== src/Index/Postings/Window.antt =====
-- What `in_window` reads of the time table of some pairs.
use memlake.Prelude.{
  ℕ, ◌*◌, ◌<◌, take, get_elem?, ◌≡◌, refl, sym, ap, ◌∙◌, ◌&&◌, List, [], ◌∷◌, length, if◌then◌else◌,
  All, map,
}
use mathlib.Core.Path.{subst}
use memlake.Prelude.Int.{ℤ, leb_ℤ}
use memlake.Prelude.Results.{ok, map_ok, map_ok-map_ok}
use memlake.Prelude.Sort.{sort_by, All-sort_by}
use memlake.Index.Table.{scan_range, build_table, parse}
use memlake.Index.Table.Records.{between, Ascending}
use memlake.Index.Table.Sizes.{IsTable}
use memlake.Index.Table.Scans.{scan_range-build_table}
use memlake.Index.Postings.{
  block_target_bytes, entity_before, entity_records, ts_key, ts_key_end, time_before, time_records,
  build_times, all_ids, spread_sample, in_window,
}
use memlake.Index.Postings.Groups.{IsId, groups_of, entity_records-Ascending}
use memlake.Index.Postings.Sample.{window_at, get_elem?-spread_sample, spread_sample-first}
use memlake.Index.Postings.Between.{ids_between, all_ids-between, group-HasIds, ids_of_groups-group}
use memlake.Index.Postings.Entities.{IsStorable}
use memlake.Index.Postings.Times.{
  IsI64, IsTimed, keyed, sort_by-keyed, time_records-entity_records, between-ts_key,
}

-- the ids of the pairs in a window of time
unfoldable pub ids_within : ℤ → ℤ → List (ℤ × ℕ) → List ℕ
ids_within from to [] = []
ids_within from to ((t, id) ∷ ps) =
    if leb_ℤ from t && leb_ℤ t to then id ∷ ids_within from to ps else ids_within from to ps

ids_between-keyed :
    (from to : ℤ) (ps : List (ℤ × ℕ))
    → IsI64 from
    → IsI64 to
    → All IsTimed ps
    → ids_between (ts_key from) (ts_key_end to) (map keyed ps) ≡ ids_within from to ps
unfolding ids_between ids_within
ids_between-keyed from to [] hf ht h = refl
ids_between-keyed from to ((t, id) ∷ ps) hf ht h =
    rw (between-ts_key from to t hf ht h.0, ids_between-keyed from to ps hf ht h.1) refl

All_keyed :
    (ps : List (ℤ × ℕ))
    → All (λ (p : ℤ × ℕ). IsId p.1) ps
    → All (λ (p : ℕ × ℕ). IsId p.1) (map keyed ps)
All_keyed [] h = tt
All_keyed (p ∷ ps) h = (h.0, All_keyed ps h.1)

entity_ids-between :
    (lo hi : ℕ) (ps : List (ℕ × ℕ))
    → All (λ (p : ℕ × ℕ). IsId p.1) ps
    → all_ids (between lo hi (entity_records ps)) ≡ ids_between lo hi (sort_by entity_before ps)
unfolding entity_records
entity_ids-between lo hi ps fit =
    let sorted = sort_by entity_before ps in
    all_ids-between lo hi (groups_of sorted)
      (group-HasIds sorted (All-sort_by entity_before (λ (p : ℕ × ℕ). IsId p.1) ps fit))
    ∙ ids_of_groups-group lo hi sorted

time_ids-between :
    (from to : ℤ) (pairs : List (ℤ × ℕ))
    → All IsTimed pairs
    → All (λ (p : ℤ × ℕ). IsId p.1) pairs
    → IsI64 from
    → IsI64 to
    → all_ids (between (ts_key from) (ts_key_end to) (time_records pairs))
      ≡ ids_within from to (sort_by time_before pairs)
time_ids-between from to pairs timed fit hf ht =
    ap (λ rs. all_ids (between (ts_key from) (ts_key_end to) rs))
      (time_records-entity_records pairs timed)
    ∙ entity_ids-between (ts_key from) (ts_key_end to) (map keyed pairs) (All_keyed pairs fit)
    ∙ ap (ids_between (ts_key from) (ts_key_end to)) (sym (sort_by-keyed pairs timed))
    ∙ ids_between-keyed from to (sort_by time_before pairs) hf ht
        (All-sort_by time_before IsTimed pairs timed)

pub times-IsTable :
    (pairs : List (ℤ × ℕ))
    → IsStorable (time_records pairs)
    → All IsTimed pairs
    → IsTable block_target_bytes (time_records pairs)
times-IsTable pairs h timed = record {
  fit = h.fit;
  small = h.small;
  ascending =
      subst Ascending (sym (time_records-entity_records pairs timed))
        (entity_records-Ascending (map keyed pairs));
  total = h.total;
  few = h.few;
}

module _ (pairs : List (ℤ × ℕ)) (from to : ℤ) (cap : ℕ) (h : IsStorable (time_records pairs))
    (timed : All IsTimed pairs) (fit : All (λ (p : ℤ × ℕ). IsId p.1) pairs) (hf : IsI64 from)
    (ht : IsI64 to) where
  abbrev window : List ℕ
  window = ids_within from to (sort_by time_before pairs)

  in_window-spread_sample :
      map_ok
        (λ index. in_window index (build_times pairs).1 from to cap)
        (parse (build_times pairs).0)
      ≡ ok (spread_sample cap window)
  unfolding build_times in_window
  in_window-spread_sample =
      let recs = time_records pairs in
      let data_bytes = (build_table block_target_bytes recs).1 in
      map_ok-map_ok (λ rs. spread_sample cap (all_ids rs))
        (λ index. scan_range index data_bytes (ts_key from) (ts_key_end to))
        (parse (build_table block_target_bytes recs).0)
      ∙ ap (map_ok (λ rs. spread_sample cap (all_ids rs))) (
          scan_range-build_table block_target_bytes recs (ts_key from) (ts_key_end to)
            (times-IsTable pairs h timed))
      ∙ ap (λ ids. ok (spread_sample cap ids)) (time_ids-between from to pairs timed fit hf ht)

-- What the time table of some pairs gives for a window, at each place `i`. With no cap, or with no more
-- pairs in the window than the cap: the id of its pair `i` in the order of time, both ends included.
-- With more than a cap above 0: the id of its pair `i * (n / cap)` out of `n`, for `i` below the
-- cap, and nothing from there on.
pub in_window-build_times :
    (pairs : List (ℤ × ℕ)) (from to : ℤ) (cap i : ℕ)
    → IsStorable (time_records pairs)
    → All IsTimed pairs
    → All (λ (p : ℤ × ℕ). IsId p.1) pairs
    → IsI64 from
    → IsI64 to
    → map_ok
        (λ index. get_elem? (in_window index (build_times pairs).1 from to cap) i)
        (parse (build_times pairs).0)
      ≡ ok (window_at cap (ids_within from to (sort_by time_before pairs)) i)
in_window-build_times pairs from to cap i h timed fit hf ht =
    map_ok-map_ok (λ ids. get_elem? ids i)
      (λ index. in_window index (build_times pairs).1 from to cap) (parse (build_times pairs).0)
    ∙ ap (map_ok (λ ids. get_elem? ids i))
        (in_window-spread_sample pairs from to cap h timed fit hf ht)
    ∙ ap ok (get_elem?-spread_sample cap (ids_within from to (sort_by time_before pairs)) i)

-- With more ids in a window than the cap, and fewer than twice as many, the capped answer is the ids
-- of the oldest pairs of the window: no later one is in the sample.
pub in_window_oldest :
    (pairs : List (ℤ × ℕ)) (from to : ℤ) (cap : ℕ)
    → IsStorable (time_records pairs)
    → All IsTimed pairs
    → All (λ (p : ℤ × ℕ). IsId p.1) pairs
    → IsI64 from
    → IsI64 to
    → cap < length (ids_within from to (sort_by time_before pairs))
    → length (ids_within from to (sort_by time_before pairs)) < 2 * cap
    → map_ok
        (λ index. in_window index (build_times pairs).1 from to cap)
        (parse (build_times pairs).0)
      ≡ ok (take cap (ids_within from to (sort_by time_before pairs)))
in_window_oldest pairs from to cap h timed fit hf ht more less =
    in_window-spread_sample pairs from to cap h timed fit hf ht
    ∙ ap ok (spread_sample-first cap (ids_within from to (sort_by time_before pairs)) more less)
