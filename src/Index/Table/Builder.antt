-- ===== src/Index/Table/Builder.antt =====
-- `SsTableBuilder`, from the records added in the order of their keys to the two objects.
use memlake.Prelude.{
  ℕ, ◌+◌, max, Option, none, some, List, [], ◌∷◌, ◌++◌, leb, length, is_empty, if◌then◌else◌,
}
use memlake.Prelude.Bytes.{Bytes}
use memlake.Prelude.Words.{le_bytes, be_bytes}

abbrev pub Record : Type 0
Record = ℕ × Bytes

pub record BlockRef : Type 0 where
  pub first_key : ℕ
  pub offset : ℕ
  pub len : ℕ

-- `[key:16][value_len:u32][value]`
unfoldable pub encode_record : Record → Bytes
encode_record r = be_bytes 16 r.0 ++ (le_bytes 4 (length r.1) ++ r.1)

pub record SsTableBuilder : Type 0 where
  pub data_bytes : Bytes
  pub blocks : List BlockRef
  pub cur : Bytes
  pub cur_first : Option ℕ
  pub last_key : Option ℕ
  pub count : ℕ
  pub block_target : ℕ

-- `with_block_target`
unfoldable pub new_builder : ℕ → SsTableBuilder
new_builder block_target = record {
  data_bytes = [];
  blocks = [];
  cur = [];
  cur_first = none;
  last_key = none;
  count = 0;
  block_target = max block_target 1;
}

-- `cur_first.take().unwrap()`: a block that has bytes has a first key
abbrev pub key_or_zero : Option ℕ → ℕ
key_or_zero none = 0
key_or_zero (some k) = k

unfoldable pub flush_block : SsTableBuilder → SsTableBuilder
flush_block b = if is_empty b.cur then b else record b {
  blocks =
      b.blocks
      ++ record {
        first_key = key_or_zero b.cur_first;
        offset = length b.data_bytes;
        len = length b.cur;
      }
        ∷ [];
  data_bytes = b.data_bytes ++ b.cur;
  cur = [];
  cur_first = none;
}

-- `add`, up to the test of the target
unfoldable pub append_record : Record → SsTableBuilder → SsTableBuilder
unfolding encode_record
append_record r b = record b {
  last_key = some r.0;
  cur_first = if is_empty b.cur then some r.0 else b.cur_first;
  cur = b.cur ++ encode_record r;
  count = b.count + 1;
}

unfoldable pub add : Record → SsTableBuilder → SsTableBuilder
add r b =
    let next = append_record r b in
    if leb b.block_target (length next.cur) then flush_block next else next

unfoldable pub add_all : List Record → SsTableBuilder → SsTableBuilder
add_all [] b = b
add_all (r ∷ rs) b = add_all rs (add r b)

unfoldable pub encode_ref : BlockRef → Bytes
encode_ref b = be_bytes 16 b.first_key ++ (le_bytes 8 b.offset ++ le_bytes 4 b.len)

unfoldable pub encode_refs : List BlockRef → Bytes
unfolding encode_ref
encode_refs [] = []
encode_refs (b ∷ bs) = encode_ref b ++ encode_refs bs

-- `finish`: the `.idx` and the `.data` object
unfoldable pub finish : SsTableBuilder → Bytes × Bytes
finish b =
    let last = flush_block b in
    (
      le_bytes 8 last.count ++ (le_bytes 8 (length last.blocks) ++ encode_refs last.blocks),
      last.data_bytes,
    )

unfoldable pub build_table : ℕ → List Record → Bytes × Bytes
build_table block_target rs = finish (add_all rs (new_builder block_target))
