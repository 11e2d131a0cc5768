-- ===== src/Examples/Values.antt =====
-- The theorems on filters, summaries and deltas at concrete inputs.
use memlake.Prelude.{◌<◌, ◌≡◌, refl, true, false, none, some, [], ◌∷◌, ◌++◌, arith}
use memlake.Prelude.Bytes.{codes}
use memlake.Prelude.Int.{negsuc, pos}
use memlake.Core.Tags
use memlake.Core.Tags.{contains_tag, overlaps, contains_all}
use memlake.Core.Tags.Laws.{leaf_matches-eq-matches}
use memlake.Core.Wal.{proof_count, fold_proof_count, touch, apply_deltas}
use memlake.Wal.Tail.{stored_at}
use memlake.Index.Summary.{window_admits, summarize, admits_cluster}
use memlake.Index.Summary.Pruning.{admits_cluster-member}
use memlake.Core.Wal.Counts.{count-eq-fold_proof_count, count_loses_decrement}
use memlake.Examples.Data.{program, item, red, blue, seven, touched_red}

leaf_matches-eq-matches_example :
    (Tags.leaf_matches (Tags.tag_filter (red ∷ blue ∷ []) Tags.all_mode Tags.nil) (red ∷ [])
      ≡ Tags.matches (Tags.tag_filter (red ∷ blue ∷ []) Tags.all_mode Tags.nil) (red ∷ []))
    × (Tags.leaf_matches (Tags.tag_filter [] Tags.all_mode Tags.nil) (red ∷ []) ≡ true)
    × (Tags.leaf_matches (Tags.tag_filter [] Tags.any_mode Tags.nil) (red ∷ []) ≡ false)
    × (Tags.leaf_matches (Tags.tag_filter [] Tags.any_strict Tags.nil) (red ∷ []) ≡ false)
    × (Tags.leaf_matches (Tags.tag_filter [] Tags.exact Tags.nil) (red ∷ []) ≡ false)
leaf_matches-eq-matches_example =
    leaf_matches-eq-matches red (blue ∷ []) Tags.all_mode Tags.nil (red ∷ [])

admits_cluster-member_example :
    admits_cluster (Tags.tag_filter (red ∷ []) Tags.any_strict Tags.nil) (some (pos 40)) none (
      summarize (
        (stored_at 2 (item 8 (codes "b") (blue ∷ [])) ∷ [])
        ++ touched_red ∷ stored_at 4 (item 9 (codes "d") []) ∷ []))
    ≡ true
unfolding program window_admits
admits_cluster-member_example =
    admits_cluster-member (Tags.tag_filter (red ∷ []) Tags.any_strict Tags.nil) (some (pos 40)) none
      (stored_at 2 (item 8 (codes "b") (blue ∷ [])) ∷ []) touched_red
      (stored_at 4 (item 9 (codes "d") []) ∷ []) refl refl

count-eq-fold_proof_count_example :
    (apply_deltas seven
      (proof_count (pos 4) ∷ touch (pos 3) ∷ proof_count (negsuc 2) ∷ [])).proof_count
    ≡ fold_proof_count 1 (proof_count (pos 4) ∷ touch (pos 3) ∷ proof_count (negsuc 2) ∷ [])
unfolding program
count-eq-fold_proof_count_example =
    count-eq-fold_proof_count seven
      (proof_count (pos 4) ∷ touch (pos 3) ∷ proof_count (negsuc 2) ∷ []) (omega arith)
      (refl, (refl, tt))

count_loses_decrement_example :
    ((apply_deltas seven (proof_count (negsuc 4) ∷ proof_count (pos 3) ∷ [])).proof_count ≡ 3)
    × (fold_proof_count 1 (proof_count (negsuc 4) ∷ proof_count (pos 3) ∷ []) < 3)
unfolding program
count_loses_decrement_example =
    count_loses_decrement seven 4 3 (omega arith) (omega arith) (omega arith)
