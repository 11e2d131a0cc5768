-- ===== src/Index/Table/Lookup.antt =====
-- The block that a lookup reads is the one that could hold its key.
use memlake.Prelude.{
  All-left, All-right, Bool-cases, Option-cases, inl, inr, ℕ, zero, suc, ◌+◌, ◌≤◌, ◌<◌, ◌≡◌, refl,
  sym, ap, ◌∙◌, Bool, true, false, Option, none, some, List, [], ◌∷◌, ◌++◌, leb, length, take,
  arith, if◌then◌else◌, is_empty, All, length-append, get_elem?,
}
use memlake.Prelude.Results.{map_some}
use memlake.Core.Memory.{or_else}
use mathlib.Core.List.{append_assoc}
use memlake.Prelude.Bytes.{Bytes}
use memlake.Prelude.Assoc.{lookup}
use memlake.Prelude.Words.{take_append, drop_append}
use memlake.Index.Table.{
  Record, BlockRef, key_or_zero, partition_point, starts_by, block_for, get_range,
}
use memlake.Index.Table.Records.{encode_all, encode_all-append, Ascending, lookup-above}
use memlake.Index.Table.Built.{join, head_key, block_ref, refs}

-- the last of the runs that starts with a key of at most `key`, when the keys in front do too
unfoldable pub chunk_for : ℕ → List (List Record) → Option (List Record)
chunk_for key [] = none
chunk_for key (c ∷ cs) =
    if leb (key_or_zero (head_key c)) key then or_else (chunk_for key cs) (some c) else none

partition_point-le : (p : BlockRef → Bool) (bs : List BlockRef) → partition_point p bs ≤ length bs
unfolding partition_point
partition_point-le p [] = omega arith
partition_point-le p (b ∷ bs) = ground (arith, partition_point-le p bs)

get_elem?-within :
    (bs : List BlockRef) (i : ℕ) → i < length bs → (b : BlockRef) × (get_elem? bs i ≡ some b)
get_elem?-within [] i h = absurd (omega arith)
get_elem?-within (b ∷ bs) zero h = (b, refl)
get_elem?-within (b ∷ bs) (suc i) h = get_elem?-within bs i (omega arith)

block_for-cons :
    (key : ℕ) (b : BlockRef) (bs : List BlockRef)
    → block_for key (b ∷ bs)
      ≡ (if starts_by key b then or_else (block_for key bs) (some b) else none)
unfolding block_for partition_point
block_for-cons key b bs =
    at (starts_by key b) (partition_point (starts_by key) bs)
      (partition_point-le (starts_by key) bs)
  where
    at :
        (t : Bool) (i : ℕ)
        → i ≤ length bs
        → (elim (if t then suc i else 0) [ zero ↦ none | suc j ↦ get_elem? (b ∷ bs) j ])
          ≡ (if t then or_else (elim i [ zero ↦ none | suc j ↦ get_elem? bs j ]) (some b) else none)
    at false i le = refl
    at true zero le = refl
    at true (suc i) le =
        let (x, found) = get_elem?-within bs i (omega arith) in
        found ∙ sym (ap (λ o. or_else o (some b)) found)

-- The same choice among blocks and among the runs they hold.
map_some_choice {ℓ κ μ} :
    {A : Type ℓ} {B : Type κ} {C : Type μ} (f : A → C) (g : B → C) (t : Bool) (o : Option A)
    (p : Option B) (a : A) (b : B)
    → map_some f o ≡ map_some g p
    → f a ≡ g b
    → map_some f (if t then or_else o (some a) else none)
      ≡ map_some g (if t then or_else p (some b) else none)
map_some_choice f g false o p a b ho ha = refl
map_some_choice f g true none none a b ho ha = ap some ha
map_some_choice f g true none (some y) a b ho ha = ground (arith, ho)
map_some_choice f g true (some x) none a b ho ha = ground (arith, ho)
map_some_choice f g true (some x) (some y) a b ho ha = ho

pub get_range-block_ref :
    (pre post : Bytes) (c : List Record) (offset : ℕ)
    → length pre ≡ offset
    → get_range (pre ++ (encode_all c ++ post)) (block_ref offset c) ≡ encode_all c
get_range-block_ref pre post c offset h =
    ap (take (length (encode_all c))) (drop_append offset pre (encode_all c ++ post) h)
    ∙ take_append (length (encode_all c)) (encode_all c) post refl

-- The bytes of a first run and of those behind it, cut behind the first.
pub shift_bytes :
    (pre post : Bytes) (c rs : List Record)
    → pre ++ (encode_all (c ++ rs) ++ post) ≡ (pre ++ encode_all c) ++ (encode_all rs ++ post)
shift_bytes pre post c rs =
    ap (λ t. pre ++ (t ++ post)) (encode_all-append c rs)
    ∙ ap (λ t. pre ++ t) (append_assoc (encode_all c) (encode_all rs) post)
    ∙ sym (append_assoc pre (encode_all c) (encode_all rs ++ post))

-- The directory of runs that stand one after another behind `pre` picks the run's bytes.
pub read_chunk :
    (key : ℕ) (pre post : Bytes) (cs : List (List Record)) (offset : ℕ)
    → length pre ≡ offset
    → map_some (get_range (pre ++ (encode_all (join cs) ++ post))) (block_for key (refs offset cs))
      ≡ map_some encode_all (chunk_for key cs)
unfolding refs chunk_for join
read_chunk key pre post [] offset h = unfold block_for partition_point in refl
read_chunk key pre post (c ∷ cs) offset h =
    let next = offset + length (encode_all c) in
    rw (block_for-cons key (block_ref offset c) (refs next cs)) (
      map_some_choice (get_range (pre ++ (encode_all (c ++ join cs) ++ post))) encode_all
        (starts_by key (block_ref offset c)) (block_for key (refs next cs)) (chunk_for key cs)
        (block_ref offset c) c
        (rw (shift_bytes pre post c (join cs)) (
          read_chunk key (pre ++ encode_all c) post cs next
            (omega (arith, h, length-append pre (encode_all c)))))
        (rw
          (
            shift_bytes pre post c (join cs),
            append_assoc pre (encode_all c) (encode_all (join cs) ++ post),
          )
          (get_range-block_ref pre (encode_all (join cs) ++ post) c offset h)))

pub lookup-append :
    (key : ℕ) (xs ys : List Record)
    → lookup key (xs ++ ys) ≡ or_else (lookup key xs) (lookup key ys)
unfolding lookup
lookup-append key [] ys = refl
lookup-append key ((k, v) ∷ xs) ys = ground (arith, lookup-append key xs ys)

pub Ascending-left : (xs ys : List Record) → Ascending (xs ++ ys) → Ascending xs
Ascending-left [] ys asc = tt
Ascending-left (x ∷ xs) ys asc =
    (All-left (λ (e : Record). x.0 < e.0) xs ys asc.0, Ascending-left xs ys asc.1)

pub Ascending-right : (xs ys : List Record) → Ascending (xs ++ ys) → Ascending ys
Ascending-right [] ys asc = asc
Ascending-right (x ∷ xs) ys asc = Ascending-right xs ys asc.1

pub All_above :
    (low high : ℕ) (rs : List Record)
    → low ≤ high
    → All (λ (e : Record). high < e.0) rs
    → All (λ (e : Record). low < e.0) rs
All_above low high [] le h = tt
All_above low high (r ∷ rs) le h = (omega (arith, h.0), All_above low high rs le h.1)

left_or {ℓ} : {A : Type ℓ} (o p : Option A) → none ≡ p → o ≡ or_else o p
left_or none p h = h
left_or (some x) p h = refl

-- Behind a run stand only keys above those in it.
pub lookup-below :
    (key : ℕ) (xs ys : List Record) (r : Record)
    → Ascending (xs ++ r ∷ ys)
    → r.0 ≤ key
    → lookup key xs ≡ none
unfolding lookup
lookup-below key [] ys r asc le = refl
lookup-below key ((k, v) ∷ xs) ys r asc le = ground (
  arith,
  lookup-below key xs ys r asc.1 le,
  (All-right (λ (e : Record). k < e.0) xs (r ∷ ys) asc.0).0,
)

no_key_before :
    (key : ℕ) (c d : List Record) (cs : List (List Record))
    → All (λ x. is_empty x ≡ false) cs
    → Ascending (c ++ join cs)
    → chunk_for key cs ≡ some d
    → lookup key c ≡ none
unfolding chunk_for join
no_key_before key c d [] full asc picked = ground (arith, picked)
no_key_before key c d ([] ∷ cs) full asc picked = ground (arith, full.0)
no_key_before key c d ((r ∷ rs) ∷ cs) full asc picked = elim (Bool-cases (leb r.0 key)) [
  | inl low ↦ lookup-below key c (rs ++ join cs) r asc (ground (arith, low))
  | inr high ↦ ground (arith, picked, high)
]

-- a lookup in the run picked
abbrev pub in_chunk : ℕ → Option (List Record) → Option Bytes
in_chunk key none = none
in_chunk key (some c) = lookup key c

pub chunk_for-lookup :
    (key : ℕ) (cs : List (List Record))
    → All (λ x. is_empty x ≡ false) cs
    → Ascending (join cs)
    → in_chunk key (chunk_for key cs) ≡ lookup key (join cs)
unfolding chunk_for join
chunk_for-lookup key [] full asc = unfold lookup in refl
chunk_for-lookup key ([] ∷ cs) full asc = ground (arith, full.0)
chunk_for-lookup key ((r ∷ rs) ∷ cs) full asc =
    let ih = chunk_for-lookup key cs full.1 (Ascending-right (r ∷ rs) (join cs) asc) in
    elim (Bool-cases (leb r.0 key)) [
      | inl low ↦ elim (Option-cases (chunk_for key cs)) [
        | inl nothing ↦
            rw (low, nothing)
              (left_or (lookup key (r ∷ rs)) (lookup key (join cs))
                  (ap (in_chunk key) (sym nothing) ∙ ih)
                ∙ sym (lookup-append key (r ∷ rs) (join cs)))
        | inr (d, picked) ↦
            rw (low, picked)
              (ap (in_chunk key) (sym picked)
                ∙ ih
                ∙ ap (λ o. or_else o (lookup key (join cs)))
                    (sym (no_key_before key (r ∷ rs) d cs full.1 asc picked))
                ∙ sym (lookup-append key (r ∷ rs) (join cs)))
      ]
      | inr high ↦ rw (high) (
          sym (
            lookup-above key key (r ∷ (rs ++ join cs)) (omega arith) (
              ground (arith, high),
              All_above key r.0 (rs ++ join cs) (ground (arith, high)) asc.0,
            )))
    ]
