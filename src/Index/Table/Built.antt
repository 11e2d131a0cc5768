-- ===== src/Index/Table/Built.antt =====
-- What a builder holds: its finished blocks and the open one are runs of the records added.
use memlake.Prelude.{
  ℕ, ◌+◌, ◌≤◌, ◌≡◌, refl, sym, ap, ◌∙◌, Bool, true, false, Option, none, some, List, [], ◌∷◌, ◌++◌,
  leb, length, arith, if◌then◌else◌, is_empty, All, All-append, length-append,
}
use mathlib.Core.List.{append_assoc, append-nil}
use mathlib.Core.Path.{ap₂, subst}
use memlake.Prelude.Bytes.{Bytes}
use memlake.Prelude.Words.{le_bytes}
use memlake.Index.Table.{
  Record, BlockRef, encode_record, SsTableBuilder, new_builder, key_or_zero, flush_block,
  append_record, add, add_all, finish, build_table, encode_refs,
}
use memlake.Index.Table.Records.{encode_all, encode_all-append, length-encode_record}

unfoldable pub join : List (List Record) → List Record
join [] = []
join (c ∷ cs) = c ++ join cs

abbrev pub head_key : List Record → Option ℕ
head_key [] = none
head_key (r ∷ rs) = some r.0

abbrev pub block_ref : ℕ → List Record → BlockRef
block_ref offset c = record {
  first_key = key_or_zero (head_key c);
  offset = offset;
  len = length (encode_all c);
}

-- the directory of blocks that stand one after another from `offset` on
unfoldable pub refs : ℕ → List (List Record) → List BlockRef
refs offset [] = []
refs offset (c ∷ cs) = block_ref offset c ∷ refs (offset + length (encode_all c)) cs

pub join-append : (xs ys : List (List Record)) → join (xs ++ ys) ≡ join xs ++ join ys
unfolding join
join-append [] ys = refl
join-append (c ∷ xs) ys =
    ap (λ t. c ++ t) (join-append xs ys) ∙ sym (append_assoc c (join xs) (join ys))

pub join-one : (c : List Record) → join (c ∷ []) ≡ c
unfolding join
join-one c = append-nil c

refs-append :
    (offset : ℕ) (xs : List (List Record)) (c : List Record)
    → refs offset (xs ++ c ∷ [])
      ≡ refs offset xs ++ block_ref (offset + length (encode_all (join xs))) c ∷ []
unfolding refs join encode_all
refs-append offset [] c = ap (λ n. block_ref n c ∷ []) (omega arith)
refs-append offset (x ∷ xs) c =
    ap (λ t. block_ref offset x ∷ t)
      (refs-append (offset + length (encode_all x)) xs c
        ∙ ap (λ n. refs (offset + length (encode_all x)) xs ++ block_ref n c ∷ [])
            (omega (
              arith,
              ap length (encode_all-append x (join xs)),
              length-append (encode_all x) (encode_all (join xs)),
            )))

-- The builder has written the blocks `done`, and holds the records `open`.
pub record Builds (b : SsTableBuilder) (done : List (List Record)) (open_records : List Record)
    : Type 0 where
  pub bytes : b.data_bytes ≡ encode_all (join done)
  pub blocks : b.blocks ≡ refs 0 done
  pub cur : b.cur ≡ encode_all open_records
  pub first : b.cur_first ≡ head_key open_records
  pub full : All (λ c. is_empty c ≡ false) done

is_empty-encode_all : (rs : List Record) → is_empty (encode_all rs) ≡ is_empty rs
unfolding encode_all
is_empty-encode_all [] = refl
is_empty-encode_all (r ∷ rs) =
    not_empty (encode_all (r ∷ rs))
      (omega (arith, length-append (encode_record r) (encode_all rs), length-encode_record r))
  where
    not_empty : (bs : Bytes) → 1 ≤ length bs → is_empty bs ≡ false
    not_empty [] h = absurd (omega arith)
    not_empty (x ∷ xs) h = refl

head_key-snoc :
    (rs : List Record) (r : Record)
    → (if is_empty rs then some r.0 else head_key rs) ≡ head_key (rs ++ r ∷ [])
head_key-snoc [] r = refl
head_key-snoc (x ∷ rs) r = refl

append_record-Builds :
    (r : Record) (b : SsTableBuilder) (done : List (List Record)) (open_records : List Record)
    → Builds b done open_records
    → Builds (append_record r b) done (open_records ++ r ∷ [])
unfolding append_record
append_record-Builds r b done open_records h = record {
  bytes = h.bytes;
  blocks = h.blocks;
  cur =
      ap (λ t. t ++ encode_record r) h.cur
      ∙ ap (λ t. encode_all open_records ++ t) (sym (append-nil (encode_record r)))
      ∙ sym (unfold encode_all in encode_all-append open_records (r ∷ []));
  first =
      ap₂ (λ c f. if is_empty c then some r.0 else f) h.cur h.first
      ∙ ap (λ t. if t then some r.0 else head_key open_records) (is_empty-encode_all open_records)
      ∙ head_key-snoc open_records r;
  full = h.full;
}

abbrev block_of : SsTableBuilder → BlockRef
block_of b = record {
  first_key = key_or_zero b.cur_first;
  offset = length b.data_bytes;
  len = length b.cur;
}

block_of-ref :
    (b : SsTableBuilder) (done : List (List Record)) (open_records : List Record)
    → Builds b done open_records
    → block_of b ≡ block_ref (0 + length (encode_all (join done))) open_records
block_of-ref b done open_records h =
    rw (h.bytes, h.cur, h.first) (ap (λ n. block_ref n open_records) (omega arith))

flush_block-idle : (b : SsTableBuilder) → is_empty b.cur ≡ true → flush_block b ≡ b
unfolding flush_block
flush_block-idle b h = rw (h) refl

flush_block-Builds :
    (b : SsTableBuilder) (done : List (List Record)) (open_records : List Record)
    → Builds b done open_records
    → is_empty open_records ≡ false
    → Builds (flush_block b) (done ++ open_records ∷ []) []
unfolding flush_block
flush_block-Builds b done open_records h some_open =
    let filled : is_empty b.cur ≡ false =
      ap is_empty h.cur ∙ is_empty-encode_all open_records ∙ some_open in
    let joined : join (done ++ open_records ∷ []) ≡ join done ++ open_records =
      join-append done (open_records ∷ []) ∙ ap (λ t. join done ++ t) (join-one open_records) in
    let placed : b.blocks ++ block_of b ∷ []
        ≡ refs 0 done ++ block_ref (0 + length (encode_all (join done))) open_records ∷ [] =
      ap₂ (λ bs r. bs ++ r ∷ []) h.blocks (block_of-ref b done open_records h) in
    record {
      bytes = rw (filled) (
          ap₂ (◌++◌) h.bytes h.cur
          ∙ sym (encode_all-append (join done) open_records)
          ∙ ap encode_all (sym joined));
      blocks = rw (filled) (placed ∙ sym (refs-append 0 done open_records));
      cur = rw (filled) (unfold encode_all in refl);
      first = rw (filled) refl;
      full = All-append (λ c. is_empty c ≡ false) done (open_records ∷ []) h.full (some_open, tt);
    }

-- The builder has taken in the records `rs`.
abbrev pub Holds : SsTableBuilder → List Record → Type 0
Holds b rs =
    (done : List (List Record)) × (open_records : List Record) × Builds b done open_records
    × (join done ++ open_records ≡ rs)
    × (b.count ≡ length rs)

count-flush_block : (b : SsTableBuilder) → (flush_block b).count ≡ b.count
unfolding flush_block
count-flush_block b = ground arith

flush_block-Holds :
    (b : SsTableBuilder) (rs : List Record)
    → Holds b rs
    → (done : List (List Record)) × Builds (flush_block b) done [] × (join done ≡ rs)
flush_block-Holds b rs (done, [], h, split, n) =
    let idle : flush_block b ≡ b =
      flush_block-idle b (ap is_empty h.cur ∙ is_empty-encode_all []) in
    (done, subst (λ t. Builds t done []) (sym idle) h, sym (append-nil (join done)) ∙ split)
flush_block-Holds b rs (done, r ∷ open_records, h, split, n) = (
  done ++ (r ∷ open_records) ∷ [],
  flush_block-Builds b done (r ∷ open_records) h refl,
  join-append done ((r ∷ open_records) ∷ [])
      ∙ ap (λ t. join done ++ t) (join-one (r ∷ open_records))
      ∙ split,
)

append_record-Holds :
    (r : Record) (b : SsTableBuilder) (rs : List Record)
    → Holds b rs
    → Holds (append_record r b) (rs ++ r ∷ [])
unfolding append_record
append_record-Holds r b rs (done, open_records, h, split, n) = (
  done,
  open_records ++ r ∷ [],
  append_record-Builds r b done open_records h,
  sym (append_assoc (join done) open_records (r ∷ [])) ∙ ap (λ t. t ++ r ∷ []) split,
  omega (arith, n, length-append rs (r ∷ [])),
)

Holds-if :
    (t : Bool) (x y : SsTableBuilder) (rs : List Record)
    → Holds x rs
    → Holds y rs
    → Holds (if t then x else y) rs
Holds-if true x y rs hx hy = hx
Holds-if false x y rs hx hy = hy

add-Holds :
    (r : Record) (b : SsTableBuilder) (rs : List Record)
    → Holds b rs
    → Holds (add r b) (rs ++ r ∷ [])
unfolding add
add-Holds r b rs h =
    let appended = append_record-Holds r b rs h in
    let (done, flushed, split) = flush_block-Holds (append_record r b) (rs ++ r ∷ []) appended in
    Holds-if (leb b.block_target (length (append_record r b).cur)) (flush_block (append_record r b))
      (append_record r b) (rs ++ r ∷ [])
      (
        done,
        [],
        flushed,
        append-nil (join done) ∙ split,
        count-flush_block (append_record r b) ∙ appended.4,
      )
      appended

add_all-Holds :
    (es : List Record) (b : SsTableBuilder) (rs : List Record)
    → Holds b rs
    → Holds (add_all es b) (rs ++ es)
unfolding add_all
add_all-Holds [] b rs h = subst (Holds b) (sym (append-nil rs)) h
add_all-Holds (e ∷ es) b rs h =
    subst (Holds (add_all es (add e b))) (append_assoc rs (e ∷ []) es)
      (add_all-Holds es (add e b) (rs ++ e ∷ []) (add-Holds e b rs h))

new_builder-Holds : (block_target : ℕ) → Holds (new_builder block_target) []
unfolding new_builder join encode_all refs
new_builder-Holds block_target = (
  [],
  [],
  record { bytes = refl; blocks = refl; cur = refl; first = refl; full = tt },
  refl,
  refl,
)

-- The two objects of a table are the blocks of its records and their directory.
pub build_table-layout :
    (block_target : ℕ) (rs : List Record)
    → (done : List (List Record)) × ((build_table block_target rs).0
        ≡ le_bytes 8 (length rs)
          ++ (le_bytes 8 (length (refs 0 done)) ++ encode_refs (refs 0 done)))
      × ((build_table block_target rs).1 ≡ encode_all (join done))
      × (join done ≡ rs)
      × All (λ c. is_empty c ≡ false) done
      × ((flush_block (add_all rs (new_builder block_target))).blocks ≡ refs 0 done)
unfolding build_table finish
build_table-layout block_target rs =
    let b = add_all rs (new_builder block_target) in
    let held = add_all-Holds rs (new_builder block_target) [] (new_builder-Holds block_target) in
    let (done, h, split) = flush_block-Holds b rs held in
    (
      done,
      ap₂ (λ n bs. le_bytes 8 n ++ (le_bytes 8 (length bs) ++ encode_refs bs))
          (count-flush_block b ∙ held.4) h.blocks,
      h.bytes,
      split,
      h.full,
      h.blocks,
    )
