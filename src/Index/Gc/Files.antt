-- ===== src/Index/Gc/Files.antt =====
-- crates/mlake-index/src/gc.rs and crates/mlake-core/src/manifest.rs: the part of `gc_with_min_age` that
-- reclaims segment files, and the paths that a manifest references. A listing has each object's path
-- and the time it was written; a segment has the paths of its files by type.
use memlake.Prelude.{
  ℕ, Bool, true, false, not, ◌&&◌, ◌||◌, List, [], ◌∷◌, ◌++◌, ltb, ◌==◌, any, retain, is_empty,
}
use memlake.Prelude.Assoc.{Assoc}
use memlake.Prelude.Bytes.{Bytes, codes, bytes_eq}

pub record GenerationFiles : Type 0 where
  pub centroids : Bytes
  pub pk : Bytes
  pub clusters : List Bytes
  pub vectors : List Bytes
  pub radj_data : Bytes
  pub radj_idx : Bytes
  pub fts_split : Bytes
  pub stats : Bytes
  pub pk_data : Bytes
  pub tag_summary : Bytes
  pub entity_idx : Bytes
  pub entity_data : Bytes
  pub time_idx : Bytes
  pub time_data : Bytes
  pub created_idx : Bytes
  pub created_data : Bytes
  pub payload_idx : Bytes
  pub payload_data : Bytes
  pub rerank_idx : Bytes
  pub rerank_data : Bytes

-- `GenerationFiles::all_paths`
unfoldable pub all_paths : GenerationFiles → List Bytes
all_paths f =
    retain (λ s. not (is_empty s))
      ((f.pk ∷ f.pk_data ∷ f.centroids ∷ f.radj_data ∷ f.radj_idx ∷ f.fts_split ∷ f.stats
          ∷ f.tag_summary ∷ f.entity_idx ∷ f.entity_data ∷ f.time_idx ∷ f.time_data ∷ f.created_idx
          ∷ f.created_data ∷ f.payload_idx ∷ f.payload_data ∷ f.rerank_idx ∷ f.rerank_data ∷ [])
        ++ (f.clusters ++ f.vectors))

-- a segment as the manifest has it, with its files by type and the path of its overlay
pub record SegmentFiles : Type 0 where
  pub indexes : Assoc GenerationFiles
  pub tombstones : Bytes

unfoldable pub index_paths : Assoc GenerationFiles → List Bytes
index_paths [] = []
index_paths ((ft, files) ∷ indexes) = all_paths files ++ index_paths indexes

-- `Segment::all_paths`
unfoldable pub segment_paths : SegmentFiles → List Bytes
unfolding index_paths
segment_paths seg = retain (λ s. not (is_empty s)) (index_paths seg.indexes ++ seg.tombstones ∷ [])

unfoldable pub paths_of : List SegmentFiles → List Bytes
paths_of [] = []
paths_of (seg ∷ segs) = segment_paths seg ++ paths_of segs

-- `Manifest::all_referenced_paths`
unfoldable pub all_referenced_paths : List SegmentFiles → List SegmentFiles → List Bytes
all_referenced_paths segments prev_segments = paths_of (segments ++ prev_segments)

unfoldable pub starts_with : Bytes → Bytes → Bool
starts_with [] bytes = true
starts_with (p ∷ ps) [] = false
starts_with (p ∷ ps) (c ∷ cs) = (p == c) && starts_with ps cs

-- `contains` of a piece of text
unfoldable pub has_piece : Bytes → Bytes → Bool
unfolding starts_with
has_piece piece [] = starts_with piece []
has_piece piece (c ∷ cs) = let rest = has_piece piece cs in starts_with piece (c ∷ cs) || rest

abbrev pub has_path : Bytes → List Bytes → Bool
has_path path paths = any (λ p. bytes_eq p path) paths

abbrev pub Object : Type 0
Object = Bytes × ℕ

-- whether the loop comes to the delete: none of its three tests stops it
unfoldable pub reclaims : Bytes → List Bytes → ℕ → Object → Bool
reclaims name referenced cutoff o =
    not (not (starts_with (name ++ codes "/") o.0) || not (has_piece (codes "/seg-") o.0))
    && (not (has_path o.0 referenced) && not (ltb cutoff o.1))

-- the objects left of a listing
unfoldable pub gc_files :
    Bytes → List SegmentFiles → List SegmentFiles → ℕ → List Object → List Object
gc_files name segments prev_segments cutoff objects =
    retain (λ o. not (reclaims name (all_referenced_paths segments prev_segments) cutoff o)) objects

abbrev pub is_listed : Object → List Object → Bool
is_listed x objects = any (λ o. bytes_eq o.0 x.0 && (o.1 == x.1)) objects
