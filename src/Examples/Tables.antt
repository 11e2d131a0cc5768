-- ===== src/Examples/Tables.antt =====
-- The theorems on block tables, posting tables and edges at concrete inputs.
use memlake.Prelude.{
  ℕ, zero, suc, ◌≡◌, refl, some, List, [], ◌∷◌, ◌++◌, arith, length, get_elem?, All,
}
use memlake.Prelude.Bytes.{Bytes}
use memlake.Prelude.Int.{ℤ, negsuc, pos}
use memlake.Prelude.Assoc.{lookup}
use memlake.Prelude.Words.{le_bytes, of_le_bytes, be_bytes}
use memlake.Prelude.Results.{◌>>=◌, ok, err, map_ok}
use memlake.Index.Table.{
  Record, encode_record, index_truncated, no_capacity, max_capacity, parse_within, parse,
  build_table, get, get_many, scan_range, scan_forward,
}
use memlake.Index.Table.Records.{encode_all, between, from_key}
use memlake.Index.Table.Parsed.{parse_refused}
use memlake.Index.Table.Sizes.{IsTable}
use memlake.Index.Table.Get.{get-build_table}
use memlake.Index.Table.Many.{get_many-build_table}
use memlake.Index.Table.Scans.{scan_range-build_table}
use memlake.Index.Table.Forward.{scan_forward-build_table}
use memlake.Index.Postings.{
  entity_records, build_entities, candidates_batch, time_records, build_times, in_window, group,
  encode_ids, ts_key,
}
use memlake.Prelude.Sort.{sort_by, insert_sorted}
use memlake.Index.Postings.Times.{IsTimed}
use memlake.Index.Postings.Groups.{ids_of_key}
use memlake.Index.Postings.Entities.{IsStorable, candidates_batch-build}
use memlake.Index.Postings.Window.{in_window-build_times, in_window_oldest, ids_within}
use memlake.Index.Postings.Sample.{window_at}
use memlake.Index.Spill.{new_sort, add_pairs, finish_sort, drain}
use memlake.Index.Spill.Runs.{external_sort-sorts}

abbrev three : List Record
three = (2, 7 ∷ 7 ∷ []) ∷ (5, 1 ∷ []) ∷ (9, 3 ∷ 4 ∷ []) ∷ []

three-IsTable : IsTable 30 three
unfolding encode_all encode_record be_bytes le_bytes
three-IsTable = record {
  fit =
      ((omega arith, omega arith), ((omega arith, omega arith), ((omega arith, omega arith), tt)));
  small = (omega arith, (omega arith, (omega arith, tt)));
  ascending = ((omega arith, (omega arith, tt)), ((omega arith, tt), (tt, tt)));
  total = omega arith;
  few = omega arith;
}

get-build_table_example :
    map_ok (λ index. get index (build_table 30 three).1 5) (parse (build_table 30 three).0)
    ≡ ok (some (1 ∷ []))
unfolding lookup
get-build_table_example = get-build_table 30 three 5 three-IsTable

get_many-build_table_example :
    map_ok
      (λ index. lookup 9 (get_many index (build_table 30 three).1 (9 ∷ 4 ∷ 2 ∷ [])))
      (parse (build_table 30 three).0)
    ≡ ok (some (3 ∷ 4 ∷ []))
unfolding lookup
get_many-build_table_example = get_many-build_table 30 three (9 ∷ 4 ∷ 2 ∷ []) 9 three-IsTable

scan_range-build_table_example :
    map_ok (λ index. scan_range index (build_table 30 three).1 3 9) (parse (build_table 30 three).0)
    ≡ ok ((5, 1 ∷ []) ∷ (9, 3 ∷ 4 ∷ []) ∷ [])
unfolding between
scan_range-build_table_example = scan_range-build_table 30 three 3 9 three-IsTable

scan_forward-build_table_example :
    map_ok
      (λ index. scan_forward index (build_table 30 three).1 3 1)
      (parse (build_table 30 three).0)
    ≡ ok ((5, 1 ∷ []) ∷ [])
unfolding from_key
scan_forward-build_table_example = scan_forward-build_table 30 three 3 1 three-IsTable

-- A head that announces two blocks, and not one byte of them.
abbrev cut_index : Bytes
cut_index = le_bytes 8 5 ++ le_bytes 8 2

parse_refused_example : parse_within 63 cut_index ≡ err no_capacity
unfolding le_bytes of_le_bytes
parse_refused_example = parse_refused 63 cut_index (omega arith)

cut_index_truncated : parse cut_index ≡ err index_truncated
unfolding le_bytes of_le_bytes
cut_index_truncated = parse_refused max_capacity cut_index (omega arith)

abbrev entity_pairs : List (ℕ × ℕ)
entity_pairs = (4, 20) ∷ (3, 11) ∷ (4, 10) ∷ []

entity_pairs-IsStorable : IsStorable (entity_records entity_pairs)
unfolding entity_records sort_by insert_sorted group encode_ids encode_all encode_record be_bytes
    le_bytes
entity_pairs-IsStorable = record {
  fit = ((omega arith, omega arith), ((omega arith, omega arith), tt));
  small = (omega arith, (omega arith, tt));
  total = omega arith;
  few = omega arith;
}

candidates_batch-build_example :
    map_ok
      (λ index. lookup 4 (candidates_batch index (build_entities entity_pairs).1 (4 ∷ []) 5))
      (parse (build_entities entity_pairs).0)
    ≡ ok (some (10 ∷ 20 ∷ []))
unfolding ids_of_key sort_by insert_sorted
candidates_batch-build_example =
    candidates_batch-build entity_pairs entity_pairs-IsStorable
      (omega arith, (omega arith, (omega arith, tt))) (4 ∷ []) 5 4

-- Two memories of one instant, and one from before 1970.
abbrev timed_pairs : List (ℤ × ℕ)
timed_pairs = (pos 5, 2) ∷ (negsuc 6, 9) ∷ (pos 5, 1) ∷ []

timed_pairs-IsStorable : IsStorable (time_records timed_pairs)
unfolding time_records ts_key sort_by insert_sorted group encode_ids encode_all encode_record
    be_bytes le_bytes
timed_pairs-IsStorable = record {
  fit = ((omega arith, omega arith), ((omega arith, omega arith), tt));
  small = (omega arith, (omega arith, tt));
  total = omega arith;
  few = omega arith;
}

timed_pairs-IsTimed : All IsTimed timed_pairs
timed_pairs-IsTimed =
    ((omega arith, omega arith), ((omega arith, omega arith), ((omega arith, omega arith), tt)))

-- Two ids of a window that holds three.
in_window-build_times_example :
    map_ok
      (λ index. get_elem? (in_window index (build_times timed_pairs).1 (negsuc 6) (pos 5) 2) 1)
      (parse (build_times timed_pairs).0)
    ≡ ok (some 1)
unfolding window_at ids_within sort_by insert_sorted
in_window-build_times_example =
    in_window-build_times timed_pairs (negsuc 6) (pos 5) 2 1 timed_pairs-IsStorable
      timed_pairs-IsTimed (omega arith, (omega arith, (omega arith, tt))) (omega arith, omega arith)
      (omega arith, omega arith)

in_window_oldest_example :
    map_ok
      (λ index. in_window index (build_times timed_pairs).1 (negsuc 6) (pos 5) 2)
      (parse (build_times timed_pairs).0)
    ≡ ok (9 ∷ 1 ∷ [])
unfolding ids_within sort_by insert_sorted
in_window_oldest_example =
    in_window_oldest timed_pairs (negsuc 6) (pos 5) 2 timed_pairs-IsStorable timed_pairs-IsTimed
      (omega arith, (omega arith, (omega arith, tt))) (omega arith, omega arith)
      (omega arith, omega arith) (omega arith) (omega arith)

unfoldable zeros : ℕ → Bytes
zeros zero = []
zeros (suc n) = 0 ∷ zeros n

length-zeros : (n : ℕ) → length (zeros n) ≡ n
unfolding zeros
length-zeros zero = refl
length-zeros (suc n) = omega (arith, length-zeros n)

-- The first value fills the buffer, so that the records lie in two runs.
abbrev long_pairs : List Record
long_pairs = (9, zeros 5000) ∷ (4, 1 ∷ []) ∷ (9, 2 ∷ []) ∷ []

external_sort-sorts_example :
    finish_sort (add_pairs long_pairs (new_sort 100)) >>= drain 3
    ≡ ok ((4, 1 ∷ []) ∷ (9, zeros 5000) ∷ (9, 2 ∷ []) ∷ [])
unfolding sort_by insert_sorted
external_sort-sorts_example = external_sort-sorts 100 long_pairs (
  (omega arith, omega (arith, length-zeros 5000)),
  ((omega arith, omega arith), ((omega arith, omega arith), tt)),
)
