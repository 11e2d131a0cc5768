-- ===== src/Index/Table/Many.antt =====
-- `get_many` reads each block once and still answers every key as `get` does.
use memlake.Prelude.{
  ℕ, ◌+◌, ◌-◌, ◌≡◌, refl, sym, ap, ◌∙◌, Bool, true, false, ◌||◌, Option, none, some, List, [], ◌∷◌,
  length, ◌==◌, All, All-append, if◌then◌else◌, contains, arith, Bool-cases, Option-cases, inl, inr,
  contains-append,
}
use mathlib.Core.Path.{ap₂, subst}
use memlake.Prelude.Bytes.{Bytes}
use memlake.Prelude.Assoc.{lookup}
use memlake.Prelude.Results.{Result, ok, err, map_ok}
use memlake.Index.Table.{
  Record, BlockRef, SsTableIndex, TableError, Range, range_of, range_before, same_range, slice,
  scan_block, block_for, get, push_key, block_keys, scan_keys, scan_groups, get_many, parse,
  build_table,
}
use memlake.Index.Table.Lookup.{lookup-append}
use memlake.Index.Table.Sizes.{IsTable}
use memlake.Index.Table.Get.{get-build_table}

scan_keys-lookup :
    (block : Bytes) (ks : List ℕ) (k : ℕ)
    → lookup k (scan_keys block ks)
      ≡ (if contains ks k then scan_block (length block) block k else none)
unfolding scan_keys lookup
scan_keys-lookup block [] k = refl
scan_keys-lookup block (j ∷ ks) k = ground (arith, scan_keys-lookup block ks k)

abbrev has_key : ℕ → List (Range × List ℕ) → Bool
has_key k [] = false
has_key k ((r, ks) ∷ groups) = contains ks k || has_key k groups

has_key-push_key :
    (r : Range) (j k : ℕ) (groups : List (Range × List ℕ))
    → has_key k (push_key r j groups) ≡ ((j == k) || has_key k groups)
unfolding push_key
has_key-push_key r j k [] = ground arith
has_key-push_key r j k ((s, ks) ∷ groups) =
    ground (arith, has_key-push_key r j k groups, contains-append ks (j ∷ []) k)

same_range_lem : (r s : Range) → same_range s r ≡ true → r ≡ s
same_range_lem r s h = ap₂ (λ a b. (a, b)) (ground (arith, h)) (ground (arith, h))

add_sub : (a b : ℕ) → (a + b) - a ≡ b
add_sub a b = omega arith

module _ (index : SsTableIndex) (data_bytes : Bytes) where
  -- The key of a group falls into the group's block.
  InBlock : Range → ℕ → Type 0
  InBlock r k = (b : BlockRef) × (block_for k index.blocks ≡ some b) × (range_of b ≡ r)

  IsGrouped : List (Range × List ℕ) → Type 0
  IsGrouped groups = All (λ (g : Range × List ℕ). All (InBlock g.0) g.1) groups

  push_key-IsGrouped :
      (r : Range) (k : ℕ) (groups : List (Range × List ℕ))
      → InBlock r k
      → IsGrouped groups
      → IsGrouped (push_key r k groups)
  unfolding IsGrouped push_key
  push_key-IsGrouped r k [] here h = ((here, tt), tt)
  push_key-IsGrouped r k ((s, ks) ∷ groups) here h = elim (Bool-cases (same_range s r)) [
    | inl same ↦ rw (same) (
      All-append (InBlock s) ks (k ∷ []) h.0
          (subst (λ t. InBlock t k) (same_range_lem r s same) here, tt),
      h.1,
    )
    | inr other ↦ elim (Bool-cases (range_before r s)) [
      | inl before ↦ rw (other, before) ((here, tt), h)
      | inr after ↦ rw (other, after) (h.0, push_key-IsGrouped r k groups here h.1)
    ]
  ]

  block_keys-IsGrouped :
      (keys : List ℕ) (groups : List (Range × List ℕ))
      → IsGrouped groups
      → IsGrouped (block_keys index keys groups)
  unfolding block_keys InBlock
  block_keys-IsGrouped [] groups h = h
  block_keys-IsGrouped (k ∷ keys) groups h = elim (Option-cases (block_for k index.blocks)) [
    | inl outside ↦ rw (outside, block_keys) (block_keys-IsGrouped keys groups h)
    | inr (b, found) ↦
        rw (found, block_keys)
          (block_keys-IsGrouped keys (push_key (range_of b) k groups)
            (push_key-IsGrouped (range_of b) k groups (b, found, refl) h))
  ]

  get-InBlock :
      (r : Range) (k : ℕ)
      → InBlock r k
      → scan_block (length (slice r.0 (r.1 - r.0) data_bytes)) (slice r.0 (r.1 - r.0) data_bytes) k
        ≡ get index data_bytes k
  unfolding InBlock get
  get-InBlock r k (b, found, same) = rw (sym same, add_sub b.offset b.len) (rw (found, get) refl)

  All_contains :
      (r : Range) (ks : List ℕ) (k : ℕ) → All (InBlock r) ks → contains ks k ≡ true → InBlock r k
  All_contains r [] k h mem = ground (arith, mem)
  All_contains r (j ∷ ks) k h mem = elim (Bool-cases (j == k)) [
    | inl here ↦ subst (InBlock r) (ground (arith, here)) h.0
    | inr other ↦ All_contains r ks k h.1 (ground (arith, mem, other))
  ]

  scan_groups-lookup :
      (groups : List (Range × List ℕ)) (k : ℕ)
      → IsGrouped groups
      → lookup k (scan_groups data_bytes groups)
        ≡ (if has_key k groups then get index data_bytes k else none)
  unfolding IsGrouped scan_groups
  scan_groups-lookup [] k h = unfold lookup in refl
  scan_groups-lookup ((r, ks) ∷ groups) k h =
      let block = slice r.0 (r.1 - r.0) data_bytes in
      lookup-append k (scan_keys block ks) (scan_groups data_bytes groups)
      ∙ elim (Bool-cases (contains ks k)) [
        | inl here ↦ ground (
          arith,
          here,
          scan_keys-lookup block ks k,
          get-InBlock r k (All_contains r ks k h.0 here),
          scan_groups-lookup groups k h.1,
        )
        | inr away ↦
            ground (arith, away, scan_keys-lookup block ks k, scan_groups-lookup groups k h.1)
      ]

  get-outside : (k : ℕ) → block_for k index.blocks ≡ none → get index data_bytes k ≡ none
  unfolding get
  get-outside k outside = rw (outside, get) refl

  unanswered : (j k : ℕ) → j ≡ k → block_for j index.blocks ≡ none → get index data_bytes k ≡ none
  unanswered j k e outside = get-outside k (ap (λ t. block_for t index.blocks) (sym e) ∙ outside)

  block_keys-lookup :
      (keys : List ℕ) (groups : List (Range × List ℕ)) (k : ℕ)
      → (if has_key k (block_keys index keys groups) then get index data_bytes k else none)
        ≡ (if contains keys k || has_key k groups then get index data_bytes k else none)
  unfolding block_keys
  block_keys-lookup [] groups k = refl
  block_keys-lookup (j ∷ keys) groups k = elim (Option-cases (block_for j index.blocks)) [
    | inl outside ↦
        rw (outside, block_keys)
          (ground (arith, block_keys-lookup keys groups k, λ (e : j ≡ k). unanswered j k e outside))
    | inr (b, found) ↦
        rw (found, block_keys)
          (ground (
            arith,
            block_keys-lookup keys (push_key (range_of b) j groups) k,
            has_key-push_key (range_of b) j k groups,
          ))
  ]

  -- `get_many` answers each key that it was asked, as `get` does, and no other.
  pub get_many-get :
      (keys : List ℕ) (k : ℕ)
      → lookup k (get_many index data_bytes keys)
        ≡ (if contains keys k then get index data_bytes k else none)
  unfolding get_many
  get_many-get keys k =
      scan_groups-lookup (block_keys index keys []) k
        (block_keys-IsGrouped keys [] (unfold IsGrouped in tt))
      ∙ block_keys-lookup keys [] k
      ∙ ground arith

get_many-parsed :
    (parsed : Result TableError SsTableIndex) (data_bytes : Bytes) (keys : List ℕ) (k : ℕ)
    (v : Option Bytes)
    → map_ok (λ index. get index data_bytes k) parsed ≡ ok v
    → map_ok (λ index. lookup k (get_many index data_bytes keys)) parsed
      ≡ ok (if contains keys k then v else none)
get_many-parsed (ok index) data_bytes keys k v h =
    ap ok (get_many-get index data_bytes keys k)
    ∙ ap (map_ok (λ o. if contains keys k then o else none)) h
get_many-parsed (err e) data_bytes keys k v h = ground (arith, h)

-- The batch read of a built table holds the value of each key asked for that the table has, and no
-- other key.
pub get_many-build_table :
    (block_target : ℕ) (rs : List Record) (keys : List ℕ) (k : ℕ)
    → IsTable block_target rs
    → map_ok
        (λ index. lookup k (get_many index (build_table block_target rs).1 keys))
        (parse (build_table block_target rs).0)
      ≡ ok (if contains keys k then lookup k rs else none)
get_many-build_table block_target rs keys k h =
    get_many-parsed (parse (build_table block_target rs).0) (build_table block_target rs).1 keys k
      (lookup k rs) (get-build_table block_target rs k h)
