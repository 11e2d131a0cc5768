-- ===== src/Index/Postings/Between.antt =====
-- The ids of pairs and of their groups in a range of keys.
use memlake.Prelude.{
  ℕ, ◌≡◌, refl, ◌∙◌, ◌&&◌, List, [], ◌∷◌, ◌++◌, leb, length, arith, if◌then◌else◌, All, map,
  Bool-cases, inl, inr,
}
use memlake.Prelude.Words.{take_long}
use memlake.Index.Table.Records.{between}
use memlake.Index.Postings.{group, encode_ids, decode_ids, all_ids}
use memlake.Index.Postings.Groups.{
  IsId, decode_ids-encode_ids, length-encode_ids, eq_key, groups_of, encode_group,
}

-- the ids of the pairs in a range of keys
unfoldable pub ids_between : ℕ → ℕ → List (ℕ × ℕ) → List ℕ
ids_between lo hi [] = []
ids_between lo hi ((k, id) ∷ ps) =
    if leb lo k && leb k hi then id ∷ ids_between lo hi ps else ids_between lo hi ps

unfoldable pub ids_of_groups : ℕ → ℕ → List (ℕ × List ℕ) → List ℕ
ids_of_groups lo hi [] = []
ids_of_groups lo hi ((k, ids) ∷ gs) =
    if leb lo k && leb k hi then ids ++ ids_of_groups lo hi gs else ids_of_groups lo hi gs

pub decode_all :
    (ids : List ℕ) → All IsId ids → decode_ids (length (encode_ids ids)) (encode_ids ids) ≡ ids
decode_all ids fit =
    decode_ids-encode_ids (length (encode_ids ids)) ids fit
    ∙ take_long (length (encode_ids ids)) ids (omega (arith, length-encode_ids ids))

abbrev pub HasIds : ℕ × List ℕ → Type 0
HasIds g = All IsId g.1

pub all_ids-between :
    (lo hi : ℕ) (gs : List (ℕ × List ℕ))
    → All HasIds gs
    → all_ids (between lo hi (map encode_group gs)) ≡ ids_of_groups lo hi gs
unfolding between all_ids ids_of_groups
all_ids-between lo hi [] fit = refl
all_ids-between lo hi ((k, ids) ∷ gs) fit = elim (Bool-cases (leb lo k && leb k hi)) [
  | inl inside ↦ rw (inside, decode_all ids fit.0, all_ids-between lo hi gs fit.1) refl
  | inr outside ↦ rw (outside) (all_ids-between lo hi gs fit.1)
]

pub group-HasIds :
    (ps : List (ℕ × ℕ)) → All (λ (p : ℕ × ℕ). IsId p.1) ps → All HasIds (groups_of ps)
unfolding group
group-HasIds [] h = tt
group-HasIds ((k, id) ∷ ps) h = at (groups_of ps) (group-HasIds ps h.1)
  where
    at :
        (gs : List (ℕ × List ℕ))
        → All HasIds gs
        → All HasIds (elim gs [
          | [] ↦ (k, id ∷ []) ∷ []
          | (j, ids) ∷ rest ↦
              if eq_key k j then (k, id ∷ ids) ∷ rest else (k, id ∷ []) ∷ (j, ids) ∷ rest
        ])
    at [] up = ((h.0, tt), tt)
    at ((j, ids) ∷ rest) up = elim (Bool-cases (eq_key k j)) [
      | inl same ↦ rw (same) ((h.0, up.0), up.1)
      | inr new ↦ rw (new) ((h.0, tt), up)
    ]

pub ids_of_groups-group :
    (lo hi : ℕ) (ps : List (ℕ × ℕ)) → ids_of_groups lo hi (groups_of ps) ≡ ids_between lo hi ps
unfolding group ids_of_groups ids_between
ids_of_groups-group lo hi [] = refl
ids_of_groups-group lo hi ((k, id) ∷ ps) =
    at (groups_of ps) (ids_between lo hi ps) (ids_of_groups-group lo hi ps)
  where
    at :
        (gs : List (ℕ × List ℕ)) (ids : List ℕ)
        → ids_of_groups lo hi gs ≡ ids
        → ids_of_groups lo hi (elim gs [
          | [] ↦ (k, id ∷ []) ∷ []
          | (j, js) ∷ rest ↦
              if eq_key k j then (k, id ∷ js) ∷ rest else (k, id ∷ []) ∷ (j, js) ∷ rest
        ])
          ≡ (if leb lo k && leb k hi then id ∷ ids else ids)
    at [] ids h = ground (arith, h)
    at ((j, js) ∷ rest) ids h = ground (arith, h)
