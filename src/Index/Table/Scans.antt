-- ===== src/Index/Table/Scans.antt =====
-- The scans of a built table: all records in a range of keys, and the first so many from a key on.
use memlake.Prelude.{
  ℕ, ◌-◌, ◌≤◌, ◌<◌, ◌≡◌, refl, sym, ap, ◌∙◌, true, false, ◌||◌, List, [], ◌∷◌, ltb, leb, length,
  take, drop, arith, is_empty, All, Bool-cases, inl, inr,
}
use mathlib.Core.Path.{subst}
use memlake.Prelude.Results.{ok, map_ok}
use memlake.Index.Table.{Record, scan_range, scan_each, range_scan, parse, build_table}
use memlake.Index.Table.Records.{
  IsFit, Ascending, encode_all, between, between-above, scan_block_range-encode_all,
  length-le-encode_all,
}
use memlake.Index.Table.Built.{join, refs}
use memlake.Index.Table.Sizes.{IsTable, built_table-reads}
use memlake.Index.Table.Windows.{starts, partition_point-refs, between-append, scan_each-window}
use memlake.Index.Table.Ranges.{between_window, behind_end, starts-le}

between_nil : (lo hi : ℕ) → between lo hi [] ≡ []
unfolding between
between_nil lo hi = refl

between_empty : (lo hi : ℕ) (rs : List Record) → hi < lo → between lo hi rs ≡ []
unfolding between
between_empty lo hi [] h = refl
between_empty lo hi (r ∷ rs) h = ground (arith, between_empty lo hi rs h)

no_runs : (cs : List (List Record)) → is_empty (refs 0 cs) ≡ true → join cs ≡ []
unfolding refs join
no_runs [] h = refl
no_runs (c ∷ cs) h = ground (arith, h)

-- No run that starts by `hi` reaches behind the one to start at, so nothing lies between.
between_no_window :
    (lo hi : ℕ) (cs : List (List Record))
    → All (λ c. is_empty c ≡ false) cs
    → Ascending (join cs)
    → lo ≤ hi
    → starts hi cs ≤ starts lo cs - 1
    → between lo hi (join cs) ≡ []
between_no_window lo hi cs full asc le none_there =
    let none_start : starts hi cs ≡ 0 = omega (arith, starts-le lo hi cs le, none_there) in
    between-above lo hi hi (join cs) (omega arith) (
      subst (λ k. All (λ (e : Record). hi < e.0) (join (drop k cs))) none_start
        (behind_end hi cs full asc))

range_scan-window :
    (lo hi n m : ℕ) (cs : List (List Record))
    → All IsFit (join cs)
    → Ascending (join cs)
    → scan_each (range_scan lo hi) (encode_all (join cs)) (take m (drop n (refs 0 cs)))
      ≡ between lo hi (join (take m (drop n cs)))
range_scan-window lo hi n m cs fit asc =
    scan_each-window (range_scan lo hi) (between lo hi)
      (λ c fits up.
        scan_block_range-encode_all (length (encode_all c)) c lo hi (length-le-encode_all c) fits
          up)
      (between_nil lo hi) (between-append lo hi) n m cs fit asc

scan_range-refs :
    (n lo hi : ℕ) (cs : List (List Record))
    → All (λ c. is_empty c ≡ false) cs
    → All IsFit (join cs)
    → Ascending (join cs)
    → scan_range (record { blocks = refs 0 cs; count = n }) (encode_all (join cs)) lo hi
      ≡ between lo hi (join cs)
unfolding scan_range
scan_range-refs n lo hi cs full fit asc =
    rw (partition_point-refs lo 0 cs, partition_point-refs hi 0 cs)
      (elim (Bool-cases (is_empty (refs 0 cs) || ltb hi lo)) [
        | inl nothing ↦ ground (
          arith,
          nothing,
          λ (h : hi < lo). between_empty lo hi (join cs) h,
          λ (h : is_empty (refs 0 cs) ≡ true). ap (between lo hi) (no_runs cs h),
          between_nil lo hi,
        )
        | inr some_keys ↦ elim (Bool-cases (leb (starts hi cs) (starts lo cs - 1))) [
          | inl missed ↦ ground (
            arith,
            some_keys,
            missed,
            between_no_window lo hi cs full asc (ground (arith, some_keys))
                (ground (arith, missed)),
          )
          | inr met ↦
              rw (some_keys, met)
                (range_scan-window lo hi (starts lo cs - 1) (starts hi cs - (starts lo cs - 1)) cs
                    fit asc
                  ∙ between_window lo hi cs full asc (ground (arith, met)))
        ]
      ])

-- The range scan of a built table gives the records whose keys lie from `lo` to `hi`, in the order of
-- their keys.
pub scan_range-build_table :
    (block_target : ℕ) (rs : List Record) (lo hi : ℕ)
    → IsTable block_target rs
    → map_ok
        (λ index. scan_range index (build_table block_target rs).1 lo hi)
        (parse (build_table block_target rs).0)
      ≡ ok (between lo hi rs)
scan_range-build_table block_target rs lo hi h =
    let (done, parsed, bytes, split, full) = built_table-reads block_target rs h in
    ap (map_ok (λ index. scan_range index (build_table block_target rs).1 lo hi)) parsed
    ∙ ap ok (
        ap (λ t. scan_range (record { blocks = refs 0 done; count = length rs }) t lo hi) bytes
        ∙ scan_range-refs (length rs) lo hi done full (subst (All IsFit) (sym split) h.fit)
            (subst Ascending (sym split) h.ascending)
        ∙ ap (between lo hi) split)
