-- ===== src/Index/Postings.antt =====
-- crates/mlake-index/src/sstable.rs: the tables of ids under a key, `EntityTable` and `TimeTable`.
-- A value is the ids of a key, 16 bytes each. A timestamp is an `i64` as an integer.
pub mod Groups
pub mod Entities
pub mod Times
pub mod Sample
pub mod Between
pub mod Window
pub mod After
use memlake.Prelude.{
  ℕ, zero, suc, ◌+◌, ◌-◌, ◌*◌, ◌/◌, ◌%◌, ◌^◌, ◌≤◌, ◌<◌, Bool, true, false, ◌&&◌, ◌||◌, Option, none,
  some, List, [], ◌∷◌, ◌++◌, ltb, leb, ◌==◌, length, take, drop, if◌then◌else◌, map, is_empty,
}
use memlake.Prelude.Int.{ℤ, pos, negsuc, ltb_ℤ, leb_ℤ}
use memlake.Prelude.Bytes.{Bytes}
use memlake.Prelude.Words.{be_bytes, of_be_bytes}
use memlake.Prelude.Sort.{sort_by}
use memlake.Index.Table.{Record, SsTableIndex, build_table, get_many, scan_range, scan_forward}

abbrev pub block_target_bytes : ℕ
block_target_bytes = 16 * 1024

-- the loop over sorted pairs: the ids of each run of one key
unfoldable pub group {ℓ} : {K : Type ℓ} → (K → K → Bool) → List (K × ℕ) → List (K × List ℕ)
group same [] = []
group same ((k, id) ∷ pairs) = elim (group same pairs) [
  | [] ↦ (k, id ∷ []) ∷ []
  | (j, ids) ∷ groups ↦
      if same k j then (k, id ∷ ids) ∷ groups else (k, id ∷ []) ∷ (j, ids) ∷ groups
]

unfoldable pub encode_ids : List ℕ → Bytes
encode_ids [] = []
encode_ids (id ∷ ids) = be_bytes 16 id ++ encode_ids ids

-- `chunks_exact(16).take(cap)`
unfoldable pub decode_ids : ℕ → Bytes → List ℕ
decode_ids zero bytes = []
decode_ids (suc cap) bytes =
    if ltb (length bytes) 16
    then []
    else of_be_bytes (take 16 bytes) ∷ decode_ids cap (drop 16 bytes)

abbrev pub entity_before : ℕ × ℕ → ℕ × ℕ → Bool
entity_before a b = ltb a.0 b.0 || ((a.0 == b.0) && ltb a.1 b.1)

unfoldable pub entity_records : List (ℕ × ℕ) → List Record
entity_records pairs =
    map (λ g. (g.0, encode_ids g.1)) (group (λ a b. a == b) (sort_by entity_before pairs))

-- `EntityTable::build`
unfoldable pub build_entities : List (ℕ × ℕ) → Bytes × Bytes
build_entities pairs = build_table block_target_bytes (entity_records pairs)

unfoldable pub candidates_batch : SsTableIndex → Bytes → List ℕ → ℕ → List (ℕ × List ℕ)
candidates_batch index data_bytes entities cap =
    map (λ e. (e.0, decode_ids cap e.1)) (get_many index data_bytes entities)

unfoldable pub counts : SsTableIndex → Bytes → Option (List ℕ) → List (ℕ × ℕ)
counts index data_bytes (some ids) =
    map (λ e. (e.0, length e.1 / 16)) (get_many index data_bytes ids)
counts index data_bytes none =
    map (λ e. (e.0, length e.1 / 16)) (scan_range index data_bytes 0 (256 ^ 16 - 1))

-- `ts as u64`
abbrev pub to_u64 : ℤ → ℕ
to_u64 (pos n) = n % 2 ^ 64
to_u64 (negsuc n) = 2 ^ 64 - 1 - n % 2 ^ 64

-- `as i64`
abbrev pub to_i64 : ℕ → ℤ
to_i64 n = if ltb n (2 ^ 63) then pos n else negsuc (2 ^ 64 - 1 - n)

-- `^ (1 << 63)`
abbrev pub flip_sign : ℕ → ℕ
flip_sign n = (n + 2 ^ 63) % 2 ^ 64

unfoldable pub ts_key : ℤ → ℕ
ts_key ts = flip_sign (to_u64 ts) * 2 ^ 64

-- the key with its last 8 bytes set to 0xFF
unfoldable pub ts_key_end : ℤ → ℕ
unfolding ts_key
ts_key_end ts = ts_key ts + (2 ^ 64 - 1)

unfoldable pub ts_from_key : ℕ → ℤ
ts_from_key key = to_i64 (flip_sign (key / 2 ^ 64))

abbrev pub same_time : ℤ → ℤ → Bool
same_time a b = leb_ℤ a b && leb_ℤ b a

abbrev pub time_before : ℤ × ℕ → ℤ × ℕ → Bool
time_before a b = ltb_ℤ a.0 b.0 || (same_time a.0 b.0 && ltb a.1 b.1)

unfoldable pub time_records : List (ℤ × ℕ) → List Record
time_records pairs =
    map (λ g. (ts_key g.0, encode_ids g.1)) (group same_time (sort_by time_before pairs))

-- `TimeTable::build`
unfoldable pub build_times : List (ℤ × ℕ) → Bytes × Bytes
build_times pairs = build_table block_target_bytes (time_records pairs)

-- every id of some records; no value has more ids than bytes
unfoldable pub all_ids : List Record → List ℕ
all_ids [] = []
all_ids (r ∷ rs) = decode_ids (length r.1) r.1 ++ all_ids rs

-- `step_by(stride)`, with `skip` elements to pass before the next one
unfoldable pub step_from : ℕ → ℕ → List ℕ → List ℕ
step_from stride skip [] = []
step_from stride zero (x ∷ xs) = x ∷ step_from stride (stride - 1) xs
step_from stride (suc skip) (x ∷ xs) = step_from stride skip xs

-- `if cap > 0 && ids.len() > cap`
unfoldable pub spread_sample : ℕ → List ℕ → List ℕ
spread_sample cap ids =
    if ltb 0 cap && ltb cap (length ids) then take cap (step_from (length ids / cap) 0 ids) else ids

unfoldable pub in_window : SsTableIndex → Bytes → ℤ → ℤ → ℕ → List ℕ
in_window index data_bytes from to cap =
    spread_sample cap (all_ids (scan_range index data_bytes (ts_key from) (ts_key_end to)))

-- the pairs of the records, in turn
unfoldable pub timed_ids : List Record → List (ℤ × ℕ)
timed_ids [] = []
timed_ids (r ∷ rs) = map (λ id. (ts_from_key r.0, id)) (decode_ids (length r.1) r.1) ++ timed_ids rs

-- The early return once `cap` pairs are there leaves the first `cap` of them.
unfoldable pub after : SsTableIndex → Bytes → ℤ → ℕ → List (ℤ × ℕ)
after index data_bytes from cap =
    if (cap == 0) || (index.count == 0)
    then []
    else take cap (timed_ids (scan_forward index data_bytes (ts_key from) cap))

unfoldable pub timestamp_counts : SsTableIndex → Bytes → List (ℤ × ℕ)
timestamp_counts index data_bytes =
    map (λ r. (ts_from_key r.0, length r.1 / 16))
      (scan_range index data_bytes (ts_key (negsuc (2 ^ 63 - 1))) (ts_key_end (pos (2 ^ 63 - 1))))
