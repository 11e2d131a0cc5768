-- ===== src/Index/Table/Sizes.antt =====
-- What the directory of a built table holds fits the widths of its fields.
use memlake.Prelude.{
  ℕ, ◌+◌, ◌*◌, ◌≤◌, ◌<◌, ◌^◌, ◌≡◌, refl, sym, ap, ◌∙◌, true, false, List, [], ◌∷◌, leb, length, max,
  arith, is_empty, All, All-append, All-left, All-right, length-append, Bool-cases, inl, inr,
}
use mathlib.Core.Path.{subst}
use memlake.Prelude.Bytes.{Bytes}
use memlake.Index.Table.{
  Record, BlockRef, SsTableBuilder, new_builder, key_or_zero, flush_block, append_record, add,
  add_all, encode_record, build_table, parse,
}
use memlake.Index.Table.Records.{
  IsFit, Ascending, encode_all, encode_all-append, length-encode_record, length-le-encode_all,
}
use memlake.Prelude.Results.{ok}
use memlake.Index.Table.Built.{build_table-layout, join, head_key, refs}
use memlake.Index.Table.Parsed.{IsPlaced, parse-encode_refs}

-- A block that starts below its target and takes in the record still fits a length of 4 bytes.
abbrev pub IsSmall : ℕ → Record → Type 0
IsSmall block_target r = max block_target 1 + 20 + length r.1 ≤ 256 ^ 4

-- The records of a table: the keys ascend, keys, values, blocks and the whole fit their widths, and a
-- reservation of 32 bytes for each record fits an allocation.
pub record IsTable (block_target : ℕ) (rs : List Record) : Type 0 where
  pub fit : All IsFit rs
  pub small : All (IsSmall block_target) rs
  pub ascending : Ascending rs
  pub total : length (encode_all rs) < 256 ^ 8
  pub few : 32 * length rs < 2 ^ 63

abbrev pub HasLength : BlockRef → Type 0
HasLength b = b.len < 256 ^ 4

length-empty : (bs : Bytes) → is_empty bs ≡ true → length bs ≡ 0
length-empty [] h = refl
length-empty (x ∷ xs) h = ground (arith, h)

length-append_record :
    (r : Record) (b : SsTableBuilder)
    → length (append_record r b).cur ≡ length b.cur + 20 + length r.1
unfolding append_record
length-append_record r b =
    omega (arith, length-append b.cur (encode_record r), length-encode_record r)

module _ (target : ℕ) (positive : 1 ≤ target) where
  record IsBounded (b : SsTableBuilder) : Type 0 where
    blocks : All HasLength b.blocks
    open_block : length b.cur < target
    same : b.block_target ≡ target

  flush_block-IsBounded :
      (b : SsTableBuilder)
      → All HasLength b.blocks
      → length b.cur < 256 ^ 4
      → b.block_target ≡ target
      → IsBounded (flush_block b)
  unfolding flush_block
  flush_block-IsBounded b blocks short same = elim (Bool-cases (is_empty b.cur)) [
    | inl idle ↦ rw (idle) (record {
      blocks = blocks;
      open_block = omega (arith, positive, length-empty b.cur idle);
      same = same;
    })
    | inr busy ↦ rw (busy) (record {
      blocks = All-append HasLength b.blocks _ blocks (short, tt);
      open_block = omega (arith, positive);
      same = same;
    })
  ]

  add-IsBounded :
      (r : Record) (b : SsTableBuilder)
      → IsBounded b
      → target + 20 + length r.1 ≤ 256 ^ 4
      → IsBounded (add r b)
  unfolding add
  add-IsBounded r b h small =
      let grown = length-append_record r b in
      elim (Bool-cases (leb b.block_target (length (append_record r b).cur))) [
        | inl over ↦ rw (over) (
            flush_block-IsBounded (append_record r b) (unfold append_record in h.blocks)
              (omega (arith, grown, h.open_block)) (unfold append_record in h.same))
        | inr below ↦ rw (below) (record {
          blocks = unfold append_record in h.blocks;
          open_block = ground (arith, below, h.same);
          same = unfold append_record in h.same;
        })
      ]

  add_all-IsBounded :
      (rs : List Record) (b : SsTableBuilder)
      → IsBounded b
      → All (λ (r : Record). target + 20 + length r.1 ≤ 256 ^ 4) rs
      → IsBounded (add_all rs b)
  unfolding add_all
  add_all-IsBounded [] b h small = h
  add_all-IsBounded (r ∷ rs) b h small =
      add_all-IsBounded rs (add r b) (add-IsBounded r b h small.0) small.1

  last_flush-HasLength :
      (b : SsTableBuilder) → IsBounded b → target ≤ 256 ^ 4 → All HasLength (flush_block b).blocks
  last_flush-HasLength b h high =
      (flush_block-IsBounded b h.blocks (omega (arith, h.open_block)) h.same).blocks

-- The blocks of a table have lengths of 4 bytes.
pub built_blocks-HasLength :
    (block_target : ℕ) (r : Record) (rs : List Record)
    → All (IsSmall block_target) (r ∷ rs)
    → All HasLength (flush_block (add_all (r ∷ rs) (new_builder block_target))).blocks
unfolding new_builder
built_blocks-HasLength block_target r rs small =
    let positive : 1 ≤ max block_target 1 = omega arith in
    last_flush-HasLength (max block_target 1) positive (add_all (r ∷ rs) (new_builder block_target))
      (add_all-IsBounded (max block_target 1) positive (r ∷ rs) (new_builder block_target)
        (record { blocks = tt; open_block = omega arith; same = refl }) small)
      (omega (arith, small.0))

no_blocks : (block_target : ℕ) → (flush_block (add_all [] (new_builder block_target))).blocks ≡ []
unfolding new_builder add_all flush_block
no_blocks block_target = refl

all_blocks-HasLength :
    (block_target : ℕ) (rs : List Record)
    → All (IsSmall block_target) rs
    → All HasLength (flush_block (add_all rs (new_builder block_target))).blocks
all_blocks-HasLength block_target [] small = subst (All HasLength) (sym (no_blocks block_target)) tt
all_blocks-HasLength block_target (r ∷ rs) small = built_blocks-HasLength block_target r rs small

head_key-IsFit : (c : List Record) → All IsFit c → key_or_zero (head_key c) < 256 ^ 16
head_key-IsFit [] fit = omega arith
head_key-IsFit (r ∷ rs) fit = fit.0.0

refs-IsPlaced :
    (offset : ℕ) (cs : List (List Record))
    → offset + length (encode_all (join cs)) < 256 ^ 8
    → All IsFit (join cs)
    → All HasLength (refs offset cs)
    → All IsPlaced (refs offset cs)
unfolding refs join
refs-IsPlaced offset [] total fit short = tt
refs-IsPlaced offset (c ∷ cs) total fit short = (
  (head_key-IsFit c (All-left IsFit c (join cs) fit), omega arith, short.0),
  refs-IsPlaced (offset + length (encode_all c)) cs
      (omega (
        arith,
        ap length (encode_all-append c (join cs)),
        length-append (encode_all c) (encode_all (join cs)),
      ))
      (All-right IsFit c (join cs) fit) short.1,
)

length-refs-le :
    (offset : ℕ) (cs : List (List Record))
    → All (λ c. is_empty c ≡ false) cs
    → length (refs offset cs) ≤ length (join cs)
unfolding refs join
length-refs-le offset [] full = omega arith
length-refs-le offset ([] ∷ cs) full = ground (arith, full.0)
length-refs-le offset ((r ∷ rs) ∷ cs) full = omega (
  arith,
  length-refs-le (offset + length (encode_all (r ∷ rs))) cs full.1,
  length-append rs (join cs),
)

-- The two objects of a table as a reader takes them in: `parse` gives the count and the directory of
-- runs that are, one after another, the records.
pub built_table-reads :
    (block_target : ℕ) (rs : List Record)
    → IsTable block_target rs
    → (done : List (List Record)) × (parse (build_table block_target rs).0
        ≡ ok (record { blocks = refs 0 done; count = length rs }))
      × ((build_table block_target rs).1 ≡ encode_all (join done))
      × (join done ≡ rs)
      × All (λ c. is_empty c ≡ false) done
built_table-reads block_target rs h =
    let (done, idx, bytes, split, full, blocks) = build_table-layout block_target rs in
    let few : length rs < 256 ^ 8 = omega (arith, length-le-encode_all rs, h.total) in
    let placed : All IsPlaced (refs 0 done) =
      refs-IsPlaced 0 done (omega (arith, ap (λ t. length (encode_all t)) split, h.total))
        (subst (All IsFit) (sym split) h.fit)
        (subst (All HasLength) blocks (all_blocks-HasLength block_target rs h.small)) in
    (
      done,
      ap parse idx
          ∙ parse-encode_refs (length rs) (refs 0 done) few
              (omega (arith, length-refs-le 0 done full, ap length split, h.few)) placed,
      bytes,
      split,
      full,
    )
