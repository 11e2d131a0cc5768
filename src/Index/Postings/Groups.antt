-- ===== src/Index/Postings/Groups.antt =====
-- Grouped pairs: their keys ascend, and a key's ids are those of its pairs.
use memlake.Prelude.{
  Bool-cases, inl, inr, ◌*◌, ℕ, zero, suc, ◌≤◌, ◌<◌, ◌^◌, ◌≡◌, refl, ap, ◌∙◌, Bool, Option, none,
  some, List, [], ◌∷◌, ◌++◌, ◌==◌, length, take, arith, if◌then◌else◌, All, map, length-append,
}
use memlake.Prelude.Bytes.{Bytes}
use memlake.Prelude.Results.{map_some}
use memlake.Prelude.Assoc.{lookup}
use memlake.Prelude.Words.{
  be_bytes, length-be_bytes, of_be_bytes-be_bytes, take_append, drop_append,
}
use memlake.Prelude.Sort.{sort_by, insert_sorted, All-insert_sorted}
use memlake.Index.Table.Records.{Ascending}
use memlake.Index.Postings.{group, encode_ids, decode_ids, entity_before, entity_records}

abbrev pub IsId : ℕ → Type 0
IsId id = id < 256 ^ 16

pub decode_ids-encode_ids :
    (cap : ℕ) (ids : List ℕ) → All IsId ids → decode_ids cap (encode_ids ids) ≡ take cap ids
unfolding decode_ids encode_ids
decode_ids-encode_ids zero ids fit = refl
decode_ids-encode_ids (suc cap) [] fit = refl
decode_ids-encode_ids (suc cap) (id ∷ ids) fit =
    let k = be_bytes 16 id in
    let lk = length-be_bytes 16 id in
    let long : 16 ≤ length (k ++ encode_ids ids) =
      omega (arith, lk, length-append k (encode_ids ids)) in
    rw
      (
        take_append 16 k (encode_ids ids) lk,
        drop_append 16 k (encode_ids ids) lk,
        of_be_bytes-be_bytes 16 id fit.0,
        decode_ids-encode_ids cap ids fit.1,
      )
      (ground arith)

pub length-encode_ids : (ids : List ℕ) → length (encode_ids ids) ≡ 16 * length ids
unfolding encode_ids
length-encode_ids [] = refl
length-encode_ids (id ∷ ids) = omega (
  arith,
  length-encode_ids ids,
  length-append (be_bytes 16 id) (encode_ids ids),
  length-be_bytes 16 id,
)

-- Keys never descend.
abbrev pub KeysUp : List (ℕ × ℕ) → Type 0
KeysUp [] = Unit
KeysUp (p ∷ ps) = All (λ (q : ℕ × ℕ). p.0 ≤ q.0) ps × KeysUp ps

All_from :
    (low k : ℕ) (ps : List (ℕ × ℕ))
    → low ≤ k
    → All (λ (q : ℕ × ℕ). k ≤ q.0) ps
    → All (λ (q : ℕ × ℕ). low ≤ q.0) ps
All_from low k [] le h = tt
All_from low k (p ∷ ps) le h = (omega (arith, h.0), All_from low k ps le h.1)

insert_sorted-KeysUp :
    (p : ℕ × ℕ) (ps : List (ℕ × ℕ)) → KeysUp ps → KeysUp (insert_sorted entity_before p ps)
unfolding insert_sorted
insert_sorted-KeysUp p [] h = (tt, tt)
insert_sorted-KeysUp p (q ∷ qs) h = elim (Bool-cases (entity_before q p)) [
  | inl later ↦ rw (later) (
    All-insert_sorted entity_before (λ (e : ℕ × ℕ). q.0 ≤ e.0) p qs (ground (arith, later)) h.0,
    insert_sorted-KeysUp p qs h.1,
  )
  | inr here ↦
      let le : p.0 ≤ q.0 = ground (arith, here) in rw (here) ((le, All_from p.0 q.0 qs le h.0), h)
]

pub sort_by-KeysUp : (ps : List (ℕ × ℕ)) → KeysUp (sort_by entity_before ps)
unfolding sort_by
sort_by-KeysUp [] = tt
sort_by-KeysUp (p ∷ ps) = insert_sorted-KeysUp p (sort_by entity_before ps) (sort_by-KeysUp ps)

abbrev pub encode_group : ℕ × List ℕ → ℕ × Bytes
encode_group g = (g.0, encode_ids g.1)

abbrev pub eq_key : ℕ → ℕ → Bool
eq_key a b = a == b

-- the ids that stand with a key, in turn
unfoldable pub ids_of_key : ℕ → List (ℕ × ℕ) → List ℕ
ids_of_key k [] = []
ids_of_key k ((j, id) ∷ ps) = if j == k then id ∷ ids_of_key k ps else ids_of_key k ps

abbrev pub found : List ℕ → Option (List ℕ)
found [] = none
found (x ∷ xs) = some (x ∷ xs)

abbrev pub groups_of : List (ℕ × ℕ) → List (ℕ × List ℕ)
groups_of ps = group eq_key ps

All_groups :
    (low : ℕ) (ps : List (ℕ × ℕ))
    → All (λ (q : ℕ × ℕ). low ≤ q.0) ps
    → All (λ (g : ℕ × List ℕ). low ≤ g.0) (groups_of ps)
unfolding group
All_groups low [] h = tt
All_groups low ((k, id) ∷ ps) h = at (groups_of ps) (All_groups low ps h.1)
  where
    at :
        (gs : List (ℕ × List ℕ))
        → All (λ (g : ℕ × List ℕ). low ≤ g.0) gs
        → All
            (λ (g : ℕ × List ℕ). low ≤ g.0)
            (elim gs [
              | [] ↦ (k, id ∷ []) ∷ []
              | (j, ids) ∷ rest ↦
                  if eq_key k j then (k, id ∷ ids) ∷ rest else (k, id ∷ []) ∷ (j, ids) ∷ rest
            ])
    at [] up = (h.0, tt)
    at ((j, ids) ∷ rest) up = elim (Bool-cases (eq_key k j)) [
      | inl same ↦ rw (same) (h.0, up.1)
      | inr new ↦ rw (new) (h.0, up)
    ]

abbrev pub GroupsUp : List (ℕ × List ℕ) → Type 0
GroupsUp [] = Unit
GroupsUp (g ∷ gs) = All (λ (h : ℕ × List ℕ). g.0 < h.0) gs × GroupsUp gs

All_groups_above :
    (low k : ℕ) (gs : List (ℕ × List ℕ))
    → low ≤ k
    → All (λ (g : ℕ × List ℕ). k < g.0) gs
    → All (λ (g : ℕ × List ℕ). low < g.0) gs
All_groups_above low k [] le h = tt
All_groups_above low k (g ∷ gs) le h = (omega (arith, h.0), All_groups_above low k gs le h.1)

pub group-GroupsUp : (ps : List (ℕ × ℕ)) → KeysUp ps → GroupsUp (groups_of ps)
unfolding group
group-GroupsUp [] h = tt
group-GroupsUp ((k, id) ∷ ps) h = at (groups_of ps) (group-GroupsUp ps h.1) (All_groups k ps h.0)
  where
    at :
        (gs : List (ℕ × List ℕ))
        → GroupsUp gs
        → All (λ (g : ℕ × List ℕ). k ≤ g.0) gs
        → GroupsUp (elim gs [
          | [] ↦ (k, id ∷ []) ∷ []
          | (j, ids) ∷ rest ↦
              if eq_key k j then (k, id ∷ ids) ∷ rest else (k, id ∷ []) ∷ (j, ids) ∷ rest
        ])
    at [] up low = (tt, tt)
    at ((j, ids) ∷ rest) up low = elim (Bool-cases (eq_key k j)) [
      | inl same ↦ rw (same) (All_groups_above k j rest (omega (arith, low.0)) up.0, up.1)
      | inr new ↦
          let lt : k < j = ground (arith, new, low.0) in
          rw (new) ((lt, All_groups_above k j rest (omega (arith, lt)) up.0), up)
    ]

lookup_groups_above :
    (k : ℕ) (gs : List (ℕ × List ℕ)) → All (λ (g : ℕ × List ℕ). k < g.0) gs → lookup k gs ≡ none
unfolding lookup
lookup_groups_above k [] h = refl
lookup_groups_above k ((j, ids) ∷ gs) h = ground (arith, lookup_groups_above k gs h.1, h.0)

-- A key's group holds the ids of its pairs, in turn.
pub lookup-group :
    (k : ℕ) (ps : List (ℕ × ℕ)) → KeysUp ps → lookup k (groups_of ps) ≡ found (ids_of_key k ps)
unfolding lookup ids_of_key group
lookup-group k [] h = refl
lookup-group k ((i, id) ∷ ps) h =
    at (groups_of ps) (ids_of_key k ps) (lookup-group k ps h.1) (All_groups i ps h.0)
      (group-GroupsUp ps h.1)
  where
    at :
        (gs : List (ℕ × List ℕ)) (ids : List ℕ)
        → lookup k gs ≡ found ids
        → All (λ (g : ℕ × List ℕ). i ≤ g.0) gs
        → GroupsUp gs
        → lookup k (elim gs [
          | [] ↦ (i, id ∷ []) ∷ []
          | (j, js) ∷ rest ↦
              if eq_key i j then (i, id ∷ js) ∷ rest else (i, id ∷ []) ∷ (j, js) ∷ rest
        ])
          ≡ found (if i == k then id ∷ ids else ids)
    at [] [] ih low up = ground arith
    at [] (x ∷ xs) ih low up = ground (arith, ih)
    at ((j, js) ∷ rest) [] ih low up = ground (arith, ih, low.0)
    at ((j, js) ∷ rest) (x ∷ xs) ih low up = ground (
      arith,
      ih,
      low.0,
      λ (lt : k < j). lookup_groups_above k rest (All_groups_above k j rest (omega arith) up.0),
    )

pub Ascending-groups : (gs : List (ℕ × List ℕ)) → GroupsUp gs → Ascending (map encode_group gs)
Ascending-groups [] h = tt
Ascending-groups (g ∷ gs) h = (above gs h.0, Ascending-groups gs h.1)
  where
    above :
        (hs : List (ℕ × List ℕ))
        → All (λ (e : ℕ × List ℕ). g.0 < e.0) hs
        → All (λ (e : ℕ × Bytes). g.0 < e.0) (map encode_group hs)
    above [] up = tt
    above (e ∷ hs) up = (up.0, above hs up.1)

lookup-encode_group :
    (k : ℕ) (gs : List (ℕ × List ℕ))
    → lookup k (map encode_group gs) ≡ map_some encode_ids (lookup k gs)
unfolding lookup
lookup-encode_group k [] = refl
lookup-encode_group k (g ∷ gs) = ground (arith, lookup-encode_group k gs)

-- The records of sorted pairs ascend, and hold a key's ids encoded.
pub entity_records-Ascending : (pairs : List (ℕ × ℕ)) → Ascending (entity_records pairs)
unfolding entity_records
entity_records-Ascending pairs =
    Ascending-groups (groups_of (sort_by entity_before pairs))
      (group-GroupsUp (sort_by entity_before pairs) (sort_by-KeysUp pairs))

pub lookup-entity_records :
    (k : ℕ) (pairs : List (ℕ × ℕ))
    → lookup k (entity_records pairs)
      ≡ map_some encode_ids (found (ids_of_key k (sort_by entity_before pairs)))
unfolding entity_records
lookup-entity_records k pairs =
    lookup-encode_group k (groups_of (sort_by entity_before pairs))
    ∙ ap (map_some encode_ids) (lookup-group k (sort_by entity_before pairs) (sort_by-KeysUp pairs))
