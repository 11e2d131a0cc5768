-- ===== src/Index/Postings/Times.antt =====
-- The keys of the time table keep the order of the timestamps.
use memlake.Prelude.{
  ℕ, ◌+◌, ◌-◌, ◌*◌, ◌^◌, ◌≤◌, ◌<◌, ◌≡◌, refl, sym, ap, ◌∙◌, Bool, true, false, ◌&&◌, ◌||◌, List, [],
  ◌∷◌, ltb, leb, ◌==◌, arith, if◌then◌else◌, All, map, Bool-cases, inl, inr,
}
use mathlib.Core.Path.{ap₂}
use memlake.Prelude.Int.{ℤ, pos, negsuc, pos_part, neg_part, ltb_ℤ, leb_ℤ}
use memlake.Prelude.Sort.{sort_by, insert_sorted, All-sort_by}
use memlake.Index.Postings.{
  group, encode_ids, entity_before, entity_records, ts_key, ts_key_end, ts_from_key, same_time,
  time_before, time_records,
}
use memlake.Index.Postings.Groups.{eq_key, encode_group}

-- an `i64`
abbrev pub IsI64 : ℤ → Type 0
IsI64 t = (pos_part t < 2 ^ 63) × (neg_part t ≤ 2 ^ 63)

ts_key_lem : (t : ℤ) → IsI64 t → ts_key t ≡ (pos_part t + 2 ^ 63 - neg_part t) * 2 ^ 64
unfolding ts_key
ts_key_lem (pos n) h = omega (arith, h.0)
ts_key_lem (negsuc n) h = omega (arith, h.1)

-- The key gives the timestamp back.
pub ts_from_key-ts_key : (t : ℤ) → IsI64 t → ts_from_key (ts_key t) ≡ t
unfolding ts_from_key ts_key
ts_from_key-ts_key (pos n) h = ground (arith, h.0)
ts_from_key-ts_key (negsuc n) h = ground (arith, h.1)

pub ltb-ts_key : (a b : ℤ) → IsI64 a → IsI64 b → ltb (ts_key a) (ts_key b) ≡ ltb_ℤ a b
ltb-ts_key a b ha hb = ground (arith, ts_key_lem a ha, ts_key_lem b hb, ha.1, hb.1)

pub eq-ts_key : (a b : ℤ) → IsI64 a → IsI64 b → (ts_key a == ts_key b) ≡ same_time a b
eq-ts_key a b ha hb = ground (arith, ts_key_lem a ha, ts_key_lem b hb, ha.1, hb.1)

-- A key lies between that of `from` and the end of that of `to` when its timestamp does.
pub between-ts_key :
    (from to t : ℤ)
    → IsI64 from
    → IsI64 to
    → IsI64 t
    → (leb (ts_key from) (ts_key t) && leb (ts_key t) (ts_key_end to))
      ≡ (leb_ℤ from t && leb_ℤ t to)
unfolding ts_key_end
between-ts_key from to t hf ht h =
    ground (arith, ts_key_lem from hf, ts_key_lem to ht, ts_key_lem t h, hf.1, ht.1, h.1)

abbrev pub keyed : ℤ × ℕ → ℕ × ℕ
keyed p = (ts_key p.0, p.1)

abbrev pub IsTimed : ℤ × ℕ → Type 0
IsTimed p = IsI64 p.0

time_before-keyed :
    (a b : ℤ × ℕ) → IsTimed a → IsTimed b → entity_before (keyed a) (keyed b) ≡ time_before a b
time_before-keyed a b ha hb =
    ap₂ (λ s t. s || (t && ltb a.1 b.1)) (ltb-ts_key a.0 b.0 ha hb) (eq-ts_key a.0 b.0 ha hb)

insert_sorted-keyed :
    (p : ℤ × ℕ) (ps : List (ℤ × ℕ))
    → IsTimed p
    → All IsTimed ps
    → map keyed (insert_sorted time_before p ps)
      ≡ insert_sorted entity_before (keyed p) (map keyed ps)
unfolding insert_sorted
insert_sorted-keyed p [] hp h = refl
insert_sorted-keyed p (q ∷ qs) hp h =
    rw (time_before-keyed q p h.0 hp, sym (insert_sorted-keyed p qs hp h.1)) (at (time_before q p))
  where
    at :
        (t : Bool)
        → map keyed (if t then q ∷ insert_sorted time_before p qs else p ∷ q ∷ qs) ≡ (
            if t
            then keyed q ∷ map keyed (insert_sorted time_before p qs)
            else keyed p ∷ keyed q ∷ map keyed qs)
    at true = refl
    at false = refl

pub sort_by-keyed :
    (ps : List (ℤ × ℕ))
    → All IsTimed ps
    → map keyed (sort_by time_before ps) ≡ sort_by entity_before (map keyed ps)
unfolding sort_by
sort_by-keyed [] h = refl
sort_by-keyed (p ∷ ps) h =
    insert_sorted-keyed p (sort_by time_before ps) h.0 (All-sort_by time_before IsTimed ps h.1)
    ∙ ap (insert_sorted entity_before (keyed p)) (sort_by-keyed ps h.1)

abbrev keyed_group : ℤ × List ℕ → ℕ × List ℕ
keyed_group g = (ts_key g.0, g.1)

pub group-IsI64 :
    (ps : List (ℤ × ℕ)) → All IsTimed ps → All (λ (g : ℤ × List ℕ). IsI64 g.0) (group same_time ps)
unfolding group
group-IsI64 [] h = tt
group-IsI64 ((t, id) ∷ ps) h = at (group same_time ps) (group-IsI64 ps h.1)
  where
    at :
        (gs : List (ℤ × List ℕ))
        → All (λ (g : ℤ × List ℕ). IsI64 g.0) gs
        → All
            (λ (g : ℤ × List ℕ). IsI64 g.0)
            (elim gs [
              | [] ↦ (t, id ∷ []) ∷ []
              | (j, ids) ∷ rest ↦
                  if same_time t j then (t, id ∷ ids) ∷ rest else (t, id ∷ []) ∷ (j, ids) ∷ rest
            ])
    at [] up = (h.0, tt)
    at ((j, ids) ∷ rest) up = elim (Bool-cases (same_time t j)) [
      | inl same ↦ rw (same) (h.0, up.1)
      | inr new ↦ rw (new) (h.0, up)
    ]

group-keyed :
    (ps : List (ℤ × ℕ))
    → All IsTimed ps
    → map keyed_group (group same_time ps) ≡ group eq_key (map keyed ps)
unfolding group
group-keyed [] h = refl
group-keyed ((t, id) ∷ ps) h =
    at (group same_time ps) (group-IsI64 ps h.1)
    ∙ ap
        (λ gs. elim gs [
          | [] ↦ (ts_key t, id ∷ []) ∷ []
          | (j, ids) ∷ rest ↦
              if eq_key (ts_key t) j
              then (ts_key t, id ∷ ids) ∷ rest
              else (ts_key t, id ∷ []) ∷ (j, ids) ∷ rest
        ])
        (group-keyed ps h.1)
  where
    at :
        (gs : List (ℤ × List ℕ))
        → All (λ (g : ℤ × List ℕ). IsI64 g.0) gs
        → map keyed_group (elim gs [
          | [] ↦ (t, id ∷ []) ∷ []
          | (j, ids) ∷ rest ↦
              if same_time t j then (t, id ∷ ids) ∷ rest else (t, id ∷ []) ∷ (j, ids) ∷ rest
        ])
          ≡ (elim (map keyed_group gs) [
            | [] ↦ (ts_key t, id ∷ []) ∷ []
            | (j, ids) ∷ rest ↦
                if eq_key (ts_key t) j
                then (ts_key t, id ∷ ids) ∷ rest
                else (ts_key t, id ∷ []) ∷ (j, ids) ∷ rest
          ])
    at [] up = refl
    at ((j, ids) ∷ rest) up = elim (Bool-cases (same_time t j)) [
      | inl same ↦ rw (eq-ts_key t j h.0 up.0, same) refl
      | inr new ↦ rw (eq-ts_key t j h.0 up.0, new) refl
    ]

-- The time table has the records of an entity table whose entities are the keys of the timestamps.
pub time_records-entity_records :
    (pairs : List (ℤ × ℕ))
    → All IsTimed pairs
    → time_records pairs ≡ entity_records (map keyed pairs)
unfolding time_records entity_records
time_records-entity_records pairs h =
    sym (map_map (group same_time (sort_by time_before pairs)))
    ∙ ap (map encode_group) (
        group-keyed (sort_by time_before pairs) (All-sort_by time_before IsTimed pairs h)
        ∙ ap (group eq_key) (sort_by-keyed pairs h))
  where
    map_map :
        (gs : List (ℤ × List ℕ))
        → map encode_group (map keyed_group gs) ≡ map (λ g. (ts_key g.0, encode_ids g.1)) gs
    map_map [] = refl
    map_map (g ∷ gs) = ap (λ t. (ts_key g.0, encode_ids g.1) ∷ t) (map_map gs)
