-- ===== src/Index/Gc/Named.antt =====
-- Which files a segment names, field by field, against the paths that the code lists.
use memlake.Prelude.{
  ℕ, zero, suc, ◌≡◌, refl, ap, ◌∙◌, true, false, not, some, List, [], ◌∷◌, ◌++◌, is_empty, retain,
  any-append, get_elem?, arith, Bool-cases, inl, inr,
}
use memlake.Prelude.Assoc.{Assoc}
use memlake.Prelude.Bytes.{Bytes, bytes_eq, bytes_eq_refl, bytes_eq_iff}
use memlake.Index.Gc.Files.{
  GenerationFiles, SegmentFiles, all_paths, index_paths, segment_paths, has_path,
}

-- A path stands in one of the fields of the files of a type.
pub data IsFileOf (f : GenerationFiles) : Bytes → Type 0 where
  in_pk : IsFileOf f f.pk
  in_pk_data : IsFileOf f f.pk_data
  in_centroids : IsFileOf f f.centroids
  in_radj_data : IsFileOf f f.radj_data
  in_radj_idx : IsFileOf f f.radj_idx
  in_fts_split : IsFileOf f f.fts_split
  in_stats : IsFileOf f f.stats
  in_tag_summary : IsFileOf f f.tag_summary
  in_entity_idx : IsFileOf f f.entity_idx
  in_entity_data : IsFileOf f f.entity_data
  in_time_idx : IsFileOf f f.time_idx
  in_time_data : IsFileOf f f.time_data
  in_created_idx : IsFileOf f f.created_idx
  in_created_data : IsFileOf f f.created_data
  in_payload_idx : IsFileOf f f.payload_idx
  in_payload_data : IsFileOf f f.payload_data
  in_rerank_idx : IsFileOf f f.rerank_idx
  in_rerank_data : IsFileOf f f.rerank_data
  in_clusters : (path : Bytes) → has_path path f.clusters ≡ true → IsFileOf f path
  in_vectors : (path : Bytes) → has_path path f.vectors ≡ true → IsFileOf f path

-- A path is the segment's overlay, or a file of one of its types.
pub data IsNamedBy (seg : SegmentFiles) : Bytes → Type 0 where
  overlay : IsNamedBy seg seg.tombstones
  in_index :
      (xs ys : Assoc GenerationFiles) (ft : ℕ) (files : GenerationFiles) (path : Bytes)
      → seg.indexes ≡ xs ++ (ft, files) ∷ ys
      → IsFileOf files path
      → IsNamedBy seg path

has_path-nonempty :
    (path : Bytes) (paths : List Bytes)
    → is_empty path ≡ false
    → has_path path paths ≡ true
    → has_path path (retain (λ s. not (is_empty s)) paths) ≡ true
has_path-nonempty path [] full h = h
has_path-nonempty path (p ∷ paths) full h = elim (Bool-cases (bytes_eq p path)) [
  | inl same ↦
      let here : is_empty p ≡ false = ap is_empty ((bytes_eq_iff p path).0 same) ∙ full in
      rw (here) (ground (arith, same))
  | inr other ↦
      let rest : has_path path (retain (λ s. not (is_empty s)) paths) ≡ true =
        has_path-nonempty path paths full (ground (arith, other)) in
      ground (arith, rest)
]

has_path-get_elem? :
    (path : Bytes) (paths : List Bytes) (i : ℕ)
    → get_elem? paths i ≡ some path
    → has_path path paths ≡ true
has_path-get_elem? path [] i h = cc
has_path-get_elem? path (p ∷ paths) zero h =
    let same : p ≡ path = cc in
    let here : bytes_eq p path ≡ true = (bytes_eq_iff p path).1 same in ground (arith, here)
has_path-get_elem? path (p ∷ paths) (suc i) h = ground (arith, has_path-get_elem? path paths i h)

has_path-left :
    (path : Bytes) (xs ys : List Bytes) → has_path path xs ≡ true → has_path path (xs ++ ys) ≡ true
has_path-left path xs ys h = any-append (λ p. bytes_eq p path) xs ys ∙ ground (arith, h)

has_path-right :
    (path : Bytes) (xs ys : List Bytes) → has_path path ys ≡ true → has_path path (xs ++ ys) ≡ true
has_path-right path xs ys h = any-append (λ p. bytes_eq p path) xs ys ∙ ground (arith, h)

module _ (f : GenerationFiles) where
  abbrev named_fields : List Bytes
  named_fields =
      f.pk ∷ f.pk_data ∷ f.centroids ∷ f.radj_data ∷ f.radj_idx ∷ f.fts_split ∷ f.stats
      ∷ f.tag_summary ∷ f.entity_idx ∷ f.entity_data ∷ f.time_idx ∷ f.time_data ∷ f.created_idx
      ∷ f.created_data ∷ f.payload_idx ∷ f.payload_data ∷ f.rerank_idx ∷ f.rerank_data ∷ []

  in_field :
      (i : ℕ) (path : Bytes)
      → get_elem? named_fields i ≡ some path
      → is_empty path ≡ false
      → has_path path (all_paths f) ≡ true
  unfolding all_paths
  in_field i path at full =
      has_path-nonempty path (named_fields ++ (f.clusters ++ f.vectors)) full (
        has_path-left path named_fields (f.clusters ++ f.vectors)
          (has_path-get_elem? path named_fields i at))

  in_lists :
      (path : Bytes)
      → has_path path (f.clusters ++ f.vectors) ≡ true
      → is_empty path ≡ false
      → has_path path (all_paths f) ≡ true
  unfolding all_paths
  in_lists path at full =
      has_path-nonempty path (named_fields ++ (f.clusters ++ f.vectors)) full
        (has_path-right path named_fields (f.clusters ++ f.vectors) at)

all_paths-IsFileOf :
    (f : GenerationFiles) (path : Bytes)
    → IsFileOf f path
    → is_empty path ≡ false
    → has_path path (all_paths f) ≡ true
all_paths-IsFileOf f _ in_pk full = in_field f 0 f.pk refl full
all_paths-IsFileOf f _ in_pk_data full = in_field f 1 f.pk_data refl full
all_paths-IsFileOf f _ in_centroids full = in_field f 2 f.centroids refl full
all_paths-IsFileOf f _ in_radj_data full = in_field f 3 f.radj_data refl full
all_paths-IsFileOf f _ in_radj_idx full = in_field f 4 f.radj_idx refl full
all_paths-IsFileOf f _ in_fts_split full = in_field f 5 f.fts_split refl full
all_paths-IsFileOf f _ in_stats full = in_field f 6 f.stats refl full
all_paths-IsFileOf f _ in_tag_summary full = in_field f 7 f.tag_summary refl full
all_paths-IsFileOf f _ in_entity_idx full = in_field f 8 f.entity_idx refl full
all_paths-IsFileOf f _ in_entity_data full = in_field f 9 f.entity_data refl full
all_paths-IsFileOf f _ in_time_idx full = in_field f 10 f.time_idx refl full
all_paths-IsFileOf f _ in_time_data full = in_field f 11 f.time_data refl full
all_paths-IsFileOf f _ in_created_idx full = in_field f 12 f.created_idx refl full
all_paths-IsFileOf f _ in_created_data full = in_field f 13 f.created_data refl full
all_paths-IsFileOf f _ in_payload_idx full = in_field f 14 f.payload_idx refl full
all_paths-IsFileOf f _ in_payload_data full = in_field f 15 f.payload_data refl full
all_paths-IsFileOf f _ in_rerank_idx full = in_field f 16 f.rerank_idx refl full
all_paths-IsFileOf f _ in_rerank_data full = in_field f 17 f.rerank_data refl full
all_paths-IsFileOf f _ (in_clusters path h) full =
    in_lists f path (has_path-left path f.clusters f.vectors h) full
all_paths-IsFileOf f _ (in_vectors path h) full =
    in_lists f path (has_path-right path f.clusters f.vectors h) full

index_paths-all_paths :
    (path : Bytes) (xs ys : Assoc GenerationFiles) (ft : ℕ) (files : GenerationFiles)
    → has_path path (all_paths files) ≡ true
    → has_path path (index_paths (xs ++ (ft, files) ∷ ys)) ≡ true
unfolding index_paths
index_paths-all_paths path [] ys ft files h =
    has_path-left path (all_paths files) (index_paths ys) h
index_paths-all_paths path ((t, g) ∷ xs) ys ft files h =
    has_path-right path (all_paths g) (index_paths (xs ++ (ft, files) ∷ ys))
      (index_paths-all_paths path xs ys ft files h)

-- The paths of a segment have every file that it names.
pub segment_paths-IsNamedBy :
    (seg : SegmentFiles) (path : Bytes)
    → IsNamedBy seg path
    → is_empty path ≡ false
    → has_path path (segment_paths seg) ≡ true
unfolding segment_paths
segment_paths-IsNamedBy seg _ overlay full =
    let here : has_path seg.tombstones (seg.tombstones ∷ []) ≡ true =
      ground (arith, bytes_eq_refl seg.tombstones) in
    has_path-nonempty seg.tombstones (index_paths seg.indexes ++ seg.tombstones ∷ []) full
      (has_path-right seg.tombstones (index_paths seg.indexes) (seg.tombstones ∷ []) here)
segment_paths-IsNamedBy seg _ (in_index xs ys ft files path at file) full =
    has_path-nonempty path (index_paths seg.indexes ++ seg.tombstones ∷ []) full (
      has_path-left path (index_paths seg.indexes) (seg.tombstones ∷ []) (
        ap (λ t. has_path path (index_paths t)) at
        ∙ index_paths-all_paths path xs ys ft files (all_paths-IsFileOf files path file full)))
