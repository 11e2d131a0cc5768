-- ===== src/Index/Pk/Lookup.antt =====
-- What a lookup finds in the table that was built of some entries.
use memlake.Prelude.{ℕ, ◌≡◌, ◌<◌, ◌^◌, refl, ap, ◌∙◌, List, [], ◌∷◌, arith, All, map}
use memlake.Prelude.Assoc.{lookup}
use memlake.Prelude.Words.{le_bytes, of_le_bytes, length-le_bytes, of_le_bytes-le_bytes, take_all}
use memlake.Prelude.Results.{ok, map_ok, map_some, map_ok-map_ok}
use memlake.Prelude.Sort.{sort_by, insert_sorted, All-sort_by}
use memlake.Index.Table.{get, parse}
use memlake.Index.Table.Sizes.{IsTable}
use memlake.Index.Table.Get.{get-build_table}
use memlake.Index.Postings.{block_target_bytes}
use memlake.Index.Pk.{id_before, pk_records, build_pk, cluster_of, lookup_cluster}

abbrev pub IsCluster : ℕ × ℕ → Type 0
IsCluster e = e.1 < 256 ^ 4

lookup-insert_sorted :
    (id : ℕ) (e : ℕ × ℕ) (es : List (ℕ × ℕ))
    → lookup id (insert_sorted id_before e es) ≡ lookup id (e ∷ es)
unfolding lookup insert_sorted
lookup-insert_sorted id e [] = refl
lookup-insert_sorted id e (f ∷ es) = ground (arith, lookup-insert_sorted id e es)

lookup_cons :
    (id : ℕ) (e : ℕ × ℕ) (xs ys : List (ℕ × ℕ))
    → lookup id xs ≡ lookup id ys
    → lookup id (e ∷ xs) ≡ lookup id (e ∷ ys)
unfolding lookup
lookup_cons id e xs ys h = ground (arith, h)

lookup-sort_by : (id : ℕ) (es : List (ℕ × ℕ)) → lookup id (sort_by id_before es) ≡ lookup id es
unfolding sort_by
lookup-sort_by id [] = refl
lookup-sort_by id (e ∷ es) =
    lookup-insert_sorted id e (sort_by id_before es)
    ∙ lookup_cons id e (sort_by id_before es) es (lookup-sort_by id es)

cluster_of-le_bytes : (c : ℕ) → c < 256 ^ 4 → cluster_of (le_bytes 4 c) ≡ c
cluster_of-le_bytes c fits =
    ap of_le_bytes (take_all 4 (le_bytes 4 c) (length-le_bytes 4 c)) ∙ of_le_bytes-le_bytes 4 c fits

lookup_cluster-map :
    (id : ℕ) (es : List (ℕ × ℕ))
    → All IsCluster es
    → map_some cluster_of (lookup id (map (λ e. (e.0, le_bytes 4 e.1)) es)) ≡ lookup id es
unfolding lookup
lookup_cluster-map id [] fit = refl
lookup_cluster-map id (e ∷ es) fit =
    ground (arith, cluster_of-le_bytes e.1 fit.0, lookup_cluster-map id es fit.1)

-- A lookup in the table of some entries, opened as a reader opens it, gives the cluster of the first
-- entry with the id, and nothing for an id without an entry.
pub lookup_cluster-build_pk :
    (entries : List (ℕ × ℕ)) (id : ℕ)
    → IsTable block_target_bytes (pk_records entries)
    → All IsCluster entries
    → map_ok (λ index. lookup_cluster index (build_pk entries).1 id) (parse (build_pk entries).0)
      ≡ ok (lookup id entries)
unfolding build_pk lookup_cluster pk_records
lookup_cluster-build_pk entries id h fit =
    map_ok-map_ok (map_some cluster_of) (λ index. get index (build_pk entries).1 id)
      (parse (build_pk entries).0)
    ∙ ap (map_ok (map_some cluster_of))
        (get-build_table block_target_bytes (pk_records entries) id h)
    ∙ ap ok (
        lookup_cluster-map id (sort_by id_before entries)
          (All-sort_by id_before IsCluster entries fit)
        ∙ lookup-sort_by id entries)
