-- ===== src/Index/Table/Windows.antt =====
-- A window of a table's directory, and the scans of its blocks.
use memlake.Prelude.{
  ℕ, zero, suc, ◌+◌, ◌<◌, ◌≡◌, refl, sym, ap, ◌∙◌, List, [], ◌∷◌, ◌++◌, leb, length, take, drop,
  arith, if◌then◌else◌, All, All-left, All-right, length-append,
}
use mathlib.Core.List.{append_assoc}
use mathlib.Core.Path.{ap₂, subst}
use memlake.Prelude.Bytes.{Bytes}
use memlake.Index.Table.{Record, get_range, key_or_zero, partition_point, starts_by, scan_each}
use memlake.Index.Table.Records.{IsFit, Ascending, encode_all, encode_all-append, between, from_key}
use memlake.Index.Table.Built.{join, head_key, block_ref, refs}
use memlake.Index.Table.Lookup.{get_range-block_ref, shift_bytes, Ascending-left, Ascending-right}

pub between-append :
    (lo hi : ℕ) (xs ys : List Record)
    → between lo hi (xs ++ ys) ≡ between lo hi xs ++ between lo hi ys
unfolding between
between-append lo hi [] ys = refl
between-append lo hi (x ∷ xs) ys = ground (arith, between-append lo hi xs ys)

pub from_key-append :
    (lo : ℕ) (xs ys : List Record) → from_key lo (xs ++ ys) ≡ from_key lo xs ++ from_key lo ys
unfolding from_key
from_key-append lo [] ys = refl
from_key-append lo (x ∷ xs) ys = ground (arith, from_key-append lo xs ys)

abbrev pub AllBelow : ℕ → List Record → Type 0
AllBelow lo rs = All (λ (e : Record). e.0 < lo) rs

pub between_below : (lo hi : ℕ) (rs : List Record) → AllBelow lo rs → between lo hi rs ≡ []
unfolding between
between_below lo hi [] h = refl
between_below lo hi (r ∷ rs) h = ground (arith, between_below lo hi rs h.1)

pub from_key_below : (lo : ℕ) (rs : List Record) → AllBelow lo rs → from_key lo rs ≡ []
unfolding from_key
from_key_below lo [] h = refl
from_key_below lo (r ∷ rs) h = ground (arith, from_key_below lo rs h.1)

take-refs :
    (n offset : ℕ) (cs : List (List Record)) → take n (refs offset cs) ≡ refs offset (take n cs)
unfolding refs
take-refs zero offset cs = refl
take-refs (suc n) offset [] = refl
take-refs (suc n) offset (c ∷ cs) =
    ap (λ t. block_ref offset c ∷ t) (take-refs n (offset + length (encode_all c)) cs)

drop-refs :
    (n offset : ℕ) (cs : List (List Record))
    → drop n (refs offset cs) ≡ refs (offset + length (encode_all (join (take n cs)))) (drop n cs)
unfolding refs join encode_all
drop-refs zero offset cs = ap (λ t. refs t cs) (omega arith)
drop-refs (suc n) offset [] = refl
drop-refs (suc n) offset (c ∷ cs) =
    drop-refs n (offset + length (encode_all c)) cs
    ∙ ap (λ t. refs t (drop n cs))
        (omega (
          arith,
          ap length (encode_all-append c (join (take n cs))),
          length-append (encode_all c) (encode_all (join (take n cs))),
        ))

pub join-take-drop :
    (n : ℕ) (cs : List (List Record)) → join cs ≡ join (take n cs) ++ join (drop n cs)
unfolding join
join-take-drop zero cs = refl
join-take-drop (suc n) [] = refl
join-take-drop (suc n) (c ∷ cs) =
    ap (λ t. c ++ t) (join-take-drop n cs)
    ∙ sym (append_assoc c (join (take n cs)) (join (drop n cs)))

-- A scan of a block that picks some of its records, run by run.
module _ (scan : Bytes → List Record) (pick : List Record → List Record)
    (scan_picks : (c : List Record) → All IsFit c → Ascending c → scan (encode_all c) ≡ pick c)
    (pick_nil : pick [] ≡ [])
    (pick_append : (xs ys : List Record) → pick (xs ++ ys) ≡ pick xs ++ pick ys) where
  scan_each-refs :
      (pre post : Bytes) (cs : List (List Record)) (offset : ℕ)
      → length pre ≡ offset
      → All IsFit (join cs)
      → Ascending (join cs)
      → scan_each scan (pre ++ (encode_all (join cs) ++ post)) (refs offset cs) ≡ pick (join cs)
  unfolding refs join scan_each
  scan_each-refs pre post [] offset h fit asc = sym pick_nil
  scan_each-refs pre post (c ∷ cs) offset h fit asc =
      let data_bytes = pre ++ (encode_all (c ++ join cs) ++ post) in
      let cut = shift_bytes pre post c (join cs) in
      let block : get_range data_bytes (block_ref offset c) ≡ encode_all c =
        ap (λ t. get_range t (block_ref offset c))
          (cut ∙ append_assoc pre (encode_all c) (encode_all (join cs) ++ post))
        ∙ get_range-block_ref pre (encode_all (join cs) ++ post) c offset h in
      ap₂ (◌++◌)
        (ap scan block
          ∙ scan_picks c (All-left IsFit c (join cs) fit) (Ascending-left c (join cs) asc))
        (ap (λ t. scan_each scan t (refs (offset + length (encode_all c)) cs)) cut
          ∙ scan_each-refs (pre ++ encode_all c) post cs (offset + length (encode_all c))
              (omega (arith, h, length-append pre (encode_all c))) (All-right IsFit c (join cs) fit)
              (Ascending-right c (join cs) asc))
      ∙ sym (pick_append c (join cs))

  -- the scan of `m` blocks from the `n`th on
  pub scan_each-window :
      (n m : ℕ) (cs : List (List Record))
      → All IsFit (join cs)
      → Ascending (join cs)
      → scan_each scan (encode_all (join cs)) (take m (drop n (refs 0 cs)))
        ≡ pick (join (take m (drop n cs)))
  scan_each-window n m cs fit asc =
      let front = join (take n cs) in
      let mid = join (take m (drop n cs)) in
      let rest = join (drop m (drop n cs)) in
      let split : join cs ≡ front ++ (mid ++ rest) =
        join-take-drop n cs ∙ ap (λ t. front ++ t) (join-take-drop m (drop n cs)) in
      let behind = Ascending-right front (mid ++ rest) (subst Ascending split asc) in
      let fit_behind = All-right IsFit front (mid ++ rest) (subst (All IsFit) split fit) in
      ap₂ (λ t bs. scan_each scan t bs)
        (ap encode_all split
          ∙ encode_all-append front (mid ++ rest)
          ∙ ap (λ t. encode_all front ++ t) (encode_all-append mid rest))
        (ap (take m) (drop-refs n 0 cs) ∙ take-refs m (0 + length (encode_all front)) (drop n cs))
      ∙ scan_each-refs (encode_all front) (encode_all rest) (take m (drop n cs))
          (0 + length (encode_all front)) (omega arith) (All-left IsFit mid rest fit_behind)
          (Ascending-left mid rest behind)

-- how many runs in front start by a key
unfoldable pub starts : ℕ → List (List Record) → ℕ
starts key [] = 0
starts key (c ∷ cs) = if leb (key_or_zero (head_key c)) key then suc (starts key cs) else 0

pub partition_point-refs :
    (key offset : ℕ) (cs : List (List Record))
    → partition_point (starts_by key) (refs offset cs) ≡ starts key cs
unfolding partition_point refs starts
partition_point-refs key offset [] = refl
partition_point-refs key offset (c ∷ cs) =
    ap (λ t. if leb (key_or_zero (head_key c)) key then suc t else 0)
      (partition_point-refs key (offset + length (encode_all c)) cs)
