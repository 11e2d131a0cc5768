-- ===== src/Index/Table/Forward.antt =====
-- The forward walk of a built table: the first so many records from a key on.
use memlake.Prelude.{
  ℕ, zero, suc, ◌+◌, ◌-◌, ◌≤◌, ◌≡◌, refl, sym, ap, ◌∙◌, true, false, List, [], ◌∷◌, ◌++◌, leb,
  length, take, drop, arith, is_empty, All, Bool-cases, inl, inr, ◌==◌,
}
use mathlib.Core.Path.{subst}
use mathlib.Core.List.{append-nil, append_assoc}
use memlake.Prelude.Results.{ok, map_ok}
use memlake.Prelude.Words.{drop_nil}
use memlake.Index.Table.{
  Record, scan_each, forward_scan, forward_from, scan_forward, parse, build_table,
}
use memlake.Index.Table.Records.{
  IsFit, Ascending, encode_all, from_key, scan_block_from-encode_all, length-le-encode_all,
}
use memlake.Index.Table.Built.{join, refs}
use memlake.Index.Table.Sizes.{IsTable, built_table-reads}
use memlake.Index.Table.Windows.{
  starts, partition_point-refs, scan_each-window, from_key-append, from_key_below, join-take-drop,
}
use memlake.Index.Table.Ranges.{before_start}

from_key_nil : (lo : ℕ) → from_key lo [] ≡ []
unfolding from_key
from_key_nil lo = refl

forward_scan-window :
    (lo n m : ℕ) (cs : List (List Record))
    → All IsFit (join cs)
    → Ascending (join cs)
    → scan_each (forward_scan lo) (encode_all (join cs)) (take m (drop n (refs 0 cs)))
      ≡ from_key lo (join (take m (drop n cs)))
forward_scan-window lo n m cs fit asc =
    scan_each-window (forward_scan lo) (from_key lo)
      (λ c fits up.
        scan_block_from-encode_all (length (encode_all c)) c lo (length-le-encode_all c) fits)
      (from_key_nil lo) (from_key-append lo) n m cs fit asc

take_nil {ℓ} : {A : Type ℓ} (n : ℕ) → take {A = A} n [] ≡ []
take_nil zero = refl
take_nil (suc n) = refl

drop-drop {ℓ} : {A : Type ℓ} (m n : ℕ) (xs : List A) → drop m (drop n xs) ≡ drop (n + m) xs
drop-drop m zero xs = ap (λ k. drop k xs) (omega arith)
drop-drop m (suc n) [] = drop_nil m ∙ sym (drop_nil (suc n + m))
drop-drop m (suc n) (x ∷ xs) =
    let shift : suc (n + m) ≡ suc n + m = omega arith in
    drop-drop m n xs ∙ ap (λ k. drop k (x ∷ xs)) shift

drop_short {ℓ} : {A : Type ℓ} (n : ℕ) (xs : List A) → length xs ≤ n → drop n xs ≡ []
drop_short zero [] h = refl
drop_short zero (x ∷ xs) h = absurd (omega arith)
drop_short (suc n) [] h = refl
drop_short (suc n) (x ∷ xs) h = drop_short n xs (omega arith)

drop_done :
    (n offset : ℕ) (cs : List (List Record))
    → is_empty (drop n (refs offset cs)) ≡ true
    → drop n cs ≡ []
unfolding refs
drop_done zero offset [] h = refl
drop_done zero offset (c ∷ cs) h = ground (arith, h)
drop_done (suc n) offset [] h = refl
drop_done (suc n) offset (c ∷ cs) h = drop_done n (offset + length (encode_all c)) cs h

length-refs : (offset : ℕ) (cs : List (List Record)) → length (refs offset cs) ≡ length cs
unfolding refs
length-refs offset [] = refl
length-refs offset (c ∷ cs) = omega (arith, length-refs (offset + length (encode_all c)) cs)

take_within {ℓ} :
    {A : Type ℓ} (cap : ℕ) (xs ys : List A) → cap ≤ length xs → take cap xs ≡ take cap (xs ++ ys)
take_within zero xs ys h = refl
take_within (suc cap) [] ys h = absurd (omega arith)
take_within (suc cap) (x ∷ xs) ys h = ap (◌∷◌ x) (take_within cap xs ys (omega arith))

none_left :
    (lo cap n : ℕ) (cs : List (List Record)) (out : List Record)
    → drop n cs ≡ []
    → take cap out ≡ take cap (out ++ from_key lo (join (drop n cs)))
none_left lo cap n cs out h = ap (take cap) (
    sym (append-nil out)
    ∙ ap (λ t. out ++ t) (sym (ap (λ t. from_key lo (join t)) h ∙ unfold join in from_key_nil lo)))

module _ (lo cap : ℕ) (cs : List (List Record)) (fit : All IsFit (join cs))
    (asc : Ascending (join cs)) where
  forward_from-refs :
      (fuel n : ℕ) (out : List Record)
      → length cs ≤ fuel + n
      → take cap (forward_from fuel (encode_all (join cs)) lo cap (drop n (refs 0 cs)) out)
        ≡ take cap (out ++ from_key lo (join (drop n cs)))
  unfolding forward_from
  forward_from-refs zero n out enough = none_left lo cap n cs out (drop_short n cs (omega arith))
  forward_from-refs (suc fuel) n out enough = elim (Bool-cases (is_empty (drop n (refs 0 cs)))) [
    | inl done ↦ rw (done) (none_left lo cap n cs out (drop_done n 0 cs done))
    | inr more ↦ elim (Bool-cases (leb cap (length out))) [
      | inl full ↦ rw (more, full) (take_within cap out _ (ground (arith, full)))
      | inr room ↦
          rw (more, room, drop-drop 4 n (refs 0 cs), forward_scan-window lo n 4 cs fit asc)
            (forward_from-refs fuel (n + 4) (out ++ from_key lo (join (take 4 (drop n cs))))
                (omega arith)
              ∙ ap (take cap) (
                  append_assoc out (from_key lo (join (take 4 (drop n cs))))
                    (from_key lo (join (drop (n + 4) cs)))
                  ∙ ap (λ t. out ++ t)
                      (ap (λ t. from_key lo (join (take 4 (drop n cs))) ++ from_key lo (join t))
                          (sym (drop-drop 4 n cs))
                        ∙ sym (
                            from_key-append lo (join (take 4 (drop n cs)))
                              (join (drop 4 (drop n cs))))
                        ∙ ap (from_key lo) (sym (join-take-drop 4 (drop n cs))))))
    ]
  ]

  scan_forward-refs :
      (n : ℕ)
      → All (λ c. is_empty c ≡ false) cs
      → scan_forward (record { blocks = refs 0 cs; count = n }) (encode_all (join cs)) lo cap
        ≡ take cap (from_key lo (join cs))
  unfolding scan_forward
  scan_forward-refs n full =
      let start = starts lo cs - 1 in
      let from_start : from_key lo (join (drop start cs)) ≡ from_key lo (join cs) = sym (
        ap (from_key lo) (join-take-drop start cs)
        ∙ from_key-append lo (join (take start cs)) (join (drop start cs))
        ∙ ap (λ t. t ++ from_key lo (join (drop start cs)))
            (from_key_below lo (join (take start cs)) (before_start lo cs full asc))) in
      rw (partition_point-refs lo 0 cs) (elim (Bool-cases (is_empty (refs 0 cs))) [
        | inl done ↦
            rw (done) (sym (take_nil cap) ∙ none_left lo cap 0 cs [] (drop_done 0 0 cs done))
        | inr more ↦ elim (Bool-cases (cap == 0)) [
          | inl nothing ↦
              let no_room : 0 ≡ cap = ground (arith, nothing) in
              rw (more, nothing) (subst (λ k. [] ≡ take k (from_key lo (join cs))) no_room refl)
          | inr some_room ↦
              rw (more, some_room)
                (forward_from-refs (length (refs 0 cs)) start [] (omega (arith, length-refs 0 cs))
                  ∙ ap (take cap) from_start)
        ]
      ])

-- The forward walk of a built table gives the first `cap` of the records whose keys are at or above
-- `lo`, in the order of their keys; it never stops short of them.
pub scan_forward-build_table :
    (block_target : ℕ) (rs : List Record) (lo cap : ℕ)
    → IsTable block_target rs
    → map_ok
        (λ index. scan_forward index (build_table block_target rs).1 lo cap)
        (parse (build_table block_target rs).0)
      ≡ ok (take cap (from_key lo rs))
scan_forward-build_table block_target rs lo cap h =
    let (done, parsed, bytes, split, full) = built_table-reads block_target rs h in
    ap (map_ok (λ index. scan_forward index (build_table block_target rs).1 lo cap)) parsed
    ∙ ap ok (
        ap (λ t. scan_forward (record { blocks = refs 0 done; count = length rs }) t lo cap) bytes
        ∙ scan_forward-refs lo cap done (subst (All IsFit) (sym split) h.fit)
            (subst Ascending (sym split) h.ascending) (length rs) full
        ∙ ap (λ t. take cap (from_key lo t)) split)
