-- ===== src/Index/Edges.antt =====
-- crates/mlake-index/src/sstable.rs and crates/mlake-graph/src/radj.rs: the incoming edges of a memory
-- as the 22 bytes each that the reverse adjacency stores. A weight stands as the bits of its `f32`.
use memlake.Prelude.{
  ℕ, zero, suc, ◌*◌, ◌^◌, ◌≤◌, ◌<◌, ◌≡◌, refl, ap, ◌∙◌, List, [], ◌∷◌, ◌++◌, ltb, ◌==◌, length,
  drop, arith, if◌then◌else◌, All, length-append,
}
use mathlib.Core.List.{append_assoc}
use memlake.Prelude.Bytes.{Bytes}
use memlake.Prelude.Words.{
  le_bytes, of_le_bytes, be_bytes, of_be_bytes, length-le_bytes, of_le_bytes-le_bytes,
  length-be_bytes, of_be_bytes-be_bytes, take_append, drop_append, drop_past,
}
use memlake.Index.Table.{slice}

pub data LinkTypeTag : Type 0 where
  causes caused_by enables prevents : LinkTypeTag

pub data EdgeKind : Type 0 where
  semantic : EdgeKind
  causal : LinkTypeTag → EdgeKind

pub record InEdge : Type 0 where
  pub source : ℕ
  pub kind : EdgeKind
  pub weight : ℕ

abbrev pub tag_byte : LinkTypeTag → ℕ
tag_byte causes = 0
tag_byte caused_by = 1
tag_byte enables = 2
tag_byte prevents = 3

abbrev pub kind_bytes : EdgeKind → Bytes
kind_bytes semantic = 0 ∷ 0 ∷ []
kind_bytes (causal lt) = 1 ∷ tag_byte lt ∷ []

unfoldable pub encode_edge : InEdge → Bytes
encode_edge e = be_bytes 16 e.source ++ (kind_bytes e.kind ++ le_bytes 4 e.weight)

unfoldable pub encode_edges : List InEdge → Bytes
encode_edges [] = []
encode_edges (e ∷ es) = encode_edge e ++ encode_edges es

abbrev pub edge_bytes : ℕ
edge_bytes = 22

abbrev pub tag_of : ℕ → LinkTypeTag
tag_of lt_byte =
    if lt_byte == 1
    then caused_by
    else if lt_byte == 2
    then enables
    else if lt_byte == 3
    then prevents
    else causes

-- `bytes[i]` of a slice that is long enough
abbrev pub byte_at : ℕ → Bytes → ℕ
byte_at i bytes = of_le_bytes (slice i 1 bytes)

unfoldable pub decode_edge : Bytes → InEdge
decode_edge bytes = record {
  source = of_be_bytes (slice 0 16 bytes);
  kind = if byte_at 16 bytes == 0 then semantic else causal (tag_of (byte_at 17 bytes));
  weight = of_le_bytes (slice 18 4 bytes);
}

-- the loop on the bytes from `p` on; each round takes 22 of them
unfoldable pub decode_from : ℕ → Bytes → List InEdge
decode_from zero bytes = []
decode_from (suc fuel) bytes =
    if ltb (length bytes) edge_bytes
    then []
    else decode_edge bytes ∷ decode_from fuel (drop edge_bytes bytes)

unfoldable pub decode_edges : Bytes → List InEdge
unfolding decode_from
decode_edges bytes = decode_from (length bytes) bytes

-- A source of 16 bytes and a weight of 4.
abbrev pub IsEdge : InEdge → Type 0
IsEdge e = (e.source < 256 ^ 16) × (e.weight < 256 ^ 4)

length-kind_bytes : (k : EdgeKind) → length (kind_bytes k) ≡ 2
length-kind_bytes semantic = refl
length-kind_bytes (causal lt) = refl

length-encode_edge : (e : InEdge) → length (encode_edge e) ≡ 22
unfolding encode_edge
length-encode_edge e =
    let s = be_bytes 16 e.source in
    let w = le_bytes 4 e.weight in
    omega (
      arith,
      length-append s (kind_bytes e.kind ++ w),
      length-append (kind_bytes e.kind) w,
      length-be_bytes 16 e.source,
      length-kind_bytes e.kind,
      length-le_bytes 4 e.weight,
    )

kind_read :
    (k : EdgeKind) (rest : Bytes)
    → (if byte_at 0 (kind_bytes k ++ rest) == 0
        then semantic
        else causal (tag_of (byte_at 1 (kind_bytes k ++ rest))))
      ≡ k
unfolding of_le_bytes
kind_read semantic rest = refl
kind_read (causal causes) rest = refl
kind_read (causal caused_by) rest = refl
kind_read (causal enables) rest = refl
kind_read (causal prevents) rest = refl

drop_kind : (k : EdgeKind) (rest : Bytes) → drop 2 (kind_bytes k ++ rest) ≡ rest
drop_kind semantic rest = refl
drop_kind (causal lt) rest = refl

decode_edge-encode_edge :
    (e : InEdge) (rest : Bytes) → IsEdge e → decode_edge (encode_edge e ++ rest) ≡ e
unfolding decode_edge encode_edge
decode_edge-encode_edge e rest fit =
    let s = be_bytes 16 e.source in
    let k = kind_bytes e.kind in
    let w = le_bytes 4 e.weight in
    let ls = length-be_bytes 16 e.source in
    let flat : (s ++ (k ++ w)) ++ rest ≡ s ++ (k ++ (w ++ rest)) =
      append_assoc s (k ++ w) rest ∙ ap (λ t. s ++ t) (append_assoc k w rest) in
    let source : of_be_bytes s ≡ e.source = of_be_bytes-be_bytes 16 e.source fit.0 in
    let weight : of_le_bytes w ≡ e.weight = of_le_bytes-le_bytes 4 e.weight fit.1 in
    rw
      (
        flat,
        take_append 16 s (k ++ (w ++ rest)) ls,
        drop_past 16 0 s (k ++ (w ++ rest)) ls,
        drop_past 16 1 s (k ++ (w ++ rest)) ls,
        drop_past 16 2 s (k ++ (w ++ rest)) ls,
        drop_kind e.kind (w ++ rest),
        take_append 4 w rest (length-le_bytes 4 e.weight),
        source,
        weight,
        kind_read e.kind (w ++ rest),
      )
      refl

decode_from-encode_edges :
    (fuel : ℕ) (es : List InEdge)
    → length es ≤ fuel
    → All IsEdge es
    → decode_from fuel (encode_edges es) ≡ es
unfolding decode_from encode_edges
decode_from-encode_edges zero [] le fit = refl
decode_from-encode_edges zero (e ∷ es) le fit = absurd (omega arith)
decode_from-encode_edges (suc fuel) [] le fit = refl
decode_from-encode_edges (suc fuel) (e ∷ es) le fit =
    let long : 22 ≤ length (encode_edge e ++ encode_edges es) =
      omega (arith, length-encode_edge e, length-append (encode_edge e) (encode_edges es)) in
    rw
      (
        decode_edge-encode_edge e (encode_edges es) fit.0,
        drop_append 22 (encode_edge e) (encode_edges es) (length-encode_edge e),
        decode_from-encode_edges fuel es (omega arith) fit.1,
      )
      (ground arith)

length-encode_edges : (es : List InEdge) → length (encode_edges es) ≡ 22 * length es
unfolding encode_edges
length-encode_edges [] = refl
length-encode_edges (e ∷ es) = omega (
  arith,
  length-encode_edges es,
  length-encode_edge e,
  length-append (encode_edge e) (encode_edges es),
)

-- The edges of a memory are read back as they were written, every kind and link type included.
pub decode_edges-encode_edges :
    (es : List InEdge) → All IsEdge es → decode_edges (encode_edges es) ≡ es
unfolding decode_edges
decode_edges-encode_edges es fit =
    decode_from-encode_edges (length (encode_edges es)) es (omega (arith, length-encode_edges es))
      fit
