-- ===== src/Index/Table/Get.antt =====
-- Point reads of a built table: `get` and `get_many`.
use memlake.Prelude.{
  ℕ, ◌≡◌, refl, sym, ap, ◌∙◌, Bool, true, leb, if◌then◌else◌, Option, none, some, List, [], ◌∷◌,
  length, All, All-left, All-right, false,
}
use mathlib.Core.List.{append-nil}
use mathlib.Core.Path.{subst}
use memlake.Prelude.Bytes.{Bytes}
use memlake.Core.Memory.{or_else}
use memlake.Prelude.Assoc.{lookup}
use memlake.Prelude.Results.{ok, map_ok, map_some}
use memlake.Index.Table.{
  Record, BlockRef, SsTableIndex, key_or_zero, get_range, scan_block, block_for, get, parse,
  build_table,
}
use memlake.Index.Table.Records.{
  IsFit, Ascending, encode_all, scan_block-encode_all, length-le-encode_all,
}
use memlake.Index.Table.Built.{join, head_key, refs}
use memlake.Index.Table.Lookup.{
  chunk_for, in_chunk, read_chunk, chunk_for-lookup, Ascending-left, Ascending-right,
}
use memlake.Index.Table.Sizes.{IsTable, built_table-reads}

-- a lookup in the bytes of a block
abbrev in_bytes : ℕ → Option Bytes → Option Bytes
in_bytes key none = none
in_bytes key (some block) = scan_block (length block) block key

get-in_bytes :
    (index : SsTableIndex) (data_bytes : Bytes) (key : ℕ)
    → get index data_bytes key
      ≡ in_bytes key (map_some (get_range data_bytes) (block_for key index.blocks))
unfolding get
get-in_bytes index data_bytes key = at (block_for key index.blocks)
  where
    at :
        (o : Option BlockRef)
        → (elim o [
          | none ↦ none
          | some b ↦ scan_block (length (get_range data_bytes b)) (get_range data_bytes b) key
        ])
          ≡ in_bytes key (map_some (get_range data_bytes) o)
    at none = refl
    at (some b) = refl

in_bytes-in_chunk :
    (key : ℕ) (cs : List (List Record))
    → All IsFit (join cs)
    → Ascending (join cs)
    → in_bytes key (map_some encode_all (chunk_for key cs)) ≡ in_chunk key (chunk_for key cs)
unfolding chunk_for join
in_bytes-in_chunk key [] fit asc = refl
in_bytes-in_chunk key (c ∷ cs) fit asc =
    let ih =
      in_bytes-in_chunk key cs (All-right IsFit c (join cs) fit)
        (Ascending-right c (join cs) asc) in
    let here =
      scan_block-encode_all (length (encode_all c)) c key (length-le-encode_all c)
        (All-left IsFit c (join cs) fit) (Ascending-left c (join cs) asc) in
    choice (leb (key_or_zero (head_key c)) key) (chunk_for key cs) here ih
  where
    choice :
        (t : Bool) (o : Option (List Record))
        → scan_block (length (encode_all c)) (encode_all c) key ≡ lookup key c
        → in_bytes key (map_some encode_all o) ≡ in_chunk key o
        → in_bytes key (map_some encode_all (if t then or_else o (some c) else none))
          ≡ in_chunk key (if t then or_else o (some c) else none)
    choice false o here ih = refl
    choice true none here ih = here
    choice true (some d) here ih = ih

-- A lookup in a built table, opened as a reader opens it, gives the value of the key among the
-- records the table was built of: nothing for a key that is not there.
pub get-build_table :
    (block_target : ℕ) (rs : List Record) (key : ℕ)
    → IsTable block_target rs
    → map_ok
        (λ index. get index (build_table block_target rs).1 key)
        (parse (build_table block_target rs).0)
      ≡ ok (lookup key rs)
get-build_table block_target rs key h =
    let (done, parsed, bytes, split, full) = built_table-reads block_target rs h in
    let asc = subst Ascending (sym split) h.ascending in
    let fit = subst (All IsFit) (sym split) h.fit in
    ap (map_ok (λ index. get index (build_table block_target rs).1 key)) parsed
    ∙ ap ok (
        get-in_bytes _ _ key
        ∙ ap (λ t. in_bytes key (map_some (get_range t) (block_for key (refs 0 done))))
            (bytes ∙ sym (append-nil (encode_all (join done))))
        ∙ ap (in_bytes key) (read_chunk key [] [] done 0 refl)
        ∙ in_bytes-in_chunk key done fit asc
        ∙ chunk_for-lookup key done full asc
        ∙ ap (lookup key) split)
