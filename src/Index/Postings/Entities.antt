-- ===== src/Index/Postings/Entities.antt =====
-- What `candidates_batch` and `counts` read of the entity table of some pairs.
use memlake.Prelude.{
  ℕ, suc, ◌*◌, ◌^◌, ◌/◌, ◌<◌, ◌≡◌, refl, ap, ◌∙◌, Bool, true, false, Option, none, some, List, [],
  ◌∷◌, ◌==◌, length, take, arith, if◌then◌else◌, All, map, contains, Bool-cases, inl, inr,
}
use memlake.Prelude.Bytes.{Bytes}
use memlake.Prelude.Assoc.{lookup}
use memlake.Prelude.Results.{Result, ok, err, map_ok, map_some}
use memlake.Prelude.Sort.{sort_by, insert_sorted, All-sort_by}
use memlake.Index.Table.{Record, SsTableIndex, TableError, get_many, build_table, parse}
use memlake.Index.Table.Records.{IsFit, encode_all}
use memlake.Index.Table.Sizes.{IsTable, IsSmall}
use memlake.Index.Table.Many.{get_many-build_table}
use memlake.Index.Postings.{
  block_target_bytes, decode_ids, encode_ids, entity_before, entity_records, build_entities,
  candidates_batch, counts,
}
use memlake.Index.Postings.Groups.{
  IsId, decode_ids-encode_ids, length-encode_ids, found, ids_of_key, entity_records-Ascending,
  lookup-entity_records,
}

-- Keys and ids of 16 bytes, and records that fit the widths of a table.
pub record IsStorable (rs : List Record) : Type 0 where
  pub fit : All IsFit rs
  pub small : All (IsSmall block_target_bytes) rs
  pub total : length (encode_all rs) < 256 ^ 8
  pub few : 32 * length rs < 2 ^ 63

lookup-decoded {ℓ} :
    {V : Type ℓ} (k : ℕ) (f : Bytes → V) (es : List Record)
    → lookup k (map (λ e. (e.0, f e.1)) es) ≡ map_some f (lookup k es)
unfolding lookup
lookup-decoded k f [] = refl
lookup-decoded k f (e ∷ es) = ground (arith, lookup-decoded k f es)

ids_of_key-IsId :
    (k : ℕ) (ps : List (ℕ × ℕ)) → All (λ (p : ℕ × ℕ). IsId p.1) ps → All IsId (ids_of_key k ps)
unfolding ids_of_key
ids_of_key-IsId k [] h = tt
ids_of_key-IsId k ((j, id) ∷ ps) h = elim (Bool-cases (j == k)) [
  | inl same ↦ rw (same) (h.0, ids_of_key-IsId k ps h.1)
  | inr other ↦ rw (other) (ids_of_key-IsId k ps h.1)
]

decoded {ℓ} :
    {V : Type ℓ} (data_bytes : Bytes) (keys : List ℕ) (k : ℕ) (f : Bytes → V)
    (parsed : Result TableError SsTableIndex) (asked : Bool) (o : Option Bytes)
    → map_ok (λ index. lookup k (get_many index data_bytes keys)) parsed
      ≡ ok (if asked then o else none)
    → map_ok (λ index. lookup k (map (λ e. (e.0, f e.1)) (get_many index data_bytes keys))) parsed
      ≡ ok (if asked then map_some f o else none)
decoded data_bytes keys k f (err e) asked o h = ground (arith, h)
decoded data_bytes keys k f (ok index) true o h =
    ap ok (lookup-decoded k f (get_many index data_bytes keys)) ∙ ap (map_ok (map_some f)) h
decoded data_bytes keys k f (ok index) false o h =
    ap ok (lookup-decoded k f (get_many index data_bytes keys)) ∙ ap (map_ok (map_some f)) h

decode_found :
    (cap : ℕ) (ids : List ℕ)
    → All IsId ids
    → map_some (decode_ids cap) (map_some encode_ids (found ids)) ≡ map_some (take cap) (found ids)
decode_found cap [] fit = refl
decode_found cap (id ∷ ids) fit = ap some (decode_ids-encode_ids cap (id ∷ ids) fit)

count_found :
    (ids : List ℕ)
    → map_some (λ bytes. length bytes / 16) (map_some encode_ids (found ids))
      ≡ map_some length (found ids)
count_found [] = refl
count_found (id ∷ ids) =
    let sixteen : length (encode_ids (id ∷ ids)) / 16 ≡ suc (length ids) =
      omega (arith, length-encode_ids (id ∷ ids)) in
    ap some sixteen

same_count :
    (xs ys : List ℕ)
    → length xs ≡ length ys
    → map_some length (found xs) ≡ map_some length (found ys)
same_count [] [] h = refl
same_count [] (y ∷ ys) h = absurd (omega arith)
same_count (x ∷ xs) [] h = absurd (omega arith)
same_count (x ∷ xs) (y ∷ ys) h = ap some h

length-ids_inserted :
    (k : ℕ) (p : ℕ × ℕ) (ps : List (ℕ × ℕ))
    → length (ids_of_key k (insert_sorted entity_before p ps)) ≡ length (ids_of_key k (p ∷ ps))
unfolding insert_sorted ids_of_key
length-ids_inserted k p [] = refl
length-ids_inserted k p (q ∷ qs) = ground (arith, length-ids_inserted k p qs)

length-ids_cons :
    (k : ℕ) (p : ℕ × ℕ) (ps qs : List (ℕ × ℕ))
    → length (ids_of_key k ps) ≡ length (ids_of_key k qs)
    → length (ids_of_key k (p ∷ ps)) ≡ length (ids_of_key k (p ∷ qs))
unfolding ids_of_key
length-ids_cons k (j, id) ps qs h = ground (arith, h)

length-ids_sorted :
    (k : ℕ) (ps : List (ℕ × ℕ))
    → length (ids_of_key k (sort_by entity_before ps)) ≡ length (ids_of_key k ps)
unfolding sort_by
length-ids_sorted k [] = refl
length-ids_sorted k (p ∷ ps) =
    length-ids_inserted k p (sort_by entity_before ps)
    ∙ length-ids_cons k p (sort_by entity_before ps) ps (length-ids_sorted k ps)

module _ (pairs : List (ℕ × ℕ)) (h : IsStorable (entity_records pairs))
    (ids_fit : All (λ (p : ℕ × ℕ). IsId p.1) pairs) where
  pub entities-IsTable : IsTable block_target_bytes (entity_records pairs)
  entities-IsTable = record {
    fit = h.fit;
    small = h.small;
    ascending = entity_records-Ascending pairs;
    total = h.total;
    few = h.few;
  }

  decoded_many {ℓ} :
      {V : Type ℓ} (entity : ℕ) (f : Bytes → V) (entities : List ℕ)
      → map_ok
          (λ index.
            lookup entity
              (map (λ e. (e.0, f e.1)) (get_many index (build_entities pairs).1 entities)))
          (parse (build_entities pairs).0)
        ≡ ok (
            if contains entities entity
            then map_some f
                (map_some encode_ids (found (ids_of_key entity (sort_by entity_before pairs))))
            else none)
  unfolding build_entities
  decoded_many entity f entities =
      decoded (build_table block_target_bytes (entity_records pairs)).1 entities entity f
        (parse (build_table block_target_bytes (entity_records pairs)).0) (contains entities entity)
        (lookup entity (entity_records pairs))
        (get_many-build_table block_target_bytes (entity_records pairs) entities entity
          entities-IsTable)
      ∙ ap (λ o. ok (if contains entities entity then map_some f o else none))
          (lookup-entity_records entity pairs)

  -- The batch gives each entity asked for that has memories the first `cap` of them, in the order of
  -- their ids, and no entry for another entity.
  pub candidates_batch-build :
      (entities : List ℕ) (cap entity : ℕ)
      → map_ok
          (λ index. lookup entity (candidates_batch index (build_entities pairs).1 entities cap))
          (parse (build_entities pairs).0)
        ≡ ok (
            if contains entities entity
            then map_some (take cap) (found (ids_of_key entity (sort_by entity_before pairs)))
            else none)
  unfolding candidates_batch build_entities
  candidates_batch-build entities cap entity =
      let ids = ids_of_key entity (sort_by entity_before pairs) in
      let fits =
        ids_of_key-IsId entity (sort_by entity_before pairs)
          (All-sort_by entity_before (λ (p : ℕ × ℕ). IsId p.1) pairs ids_fit) in
      decoded_many entity (decode_ids cap) entities
      ∙ ap (λ o. ok (if contains entities entity then o else none)) (decode_found cap ids fits)

  -- `counts` of some entities gives each of them that has memories their number.
  pub counts-build :
      (entities : List ℕ) (entity : ℕ)
      → map_ok
          (λ index. lookup entity (counts index (build_entities pairs).1 (some entities)))
          (parse (build_entities pairs).0)
        ≡ ok (
            if contains entities entity
            then map_some length (found (ids_of_key entity pairs))
            else none)
  unfolding counts build_entities
  counts-build entities entity =
      let ids = ids_of_key entity (sort_by entity_before pairs) in
      decoded_many entity (λ bytes. length bytes / 16) entities
      ∙ ap (λ o. ok (if contains entities entity then o else none))
          (count_found ids
            ∙ same_count ids (ids_of_key entity pairs) (length-ids_sorted entity pairs))
