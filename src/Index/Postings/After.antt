-- ===== src/Index/Postings/After.antt =====
-- What `after` reads of the time table of some pairs: so many records as pairs are wanted are enough.
use memlake.Prelude.{ℕ, ◌≡◌, false, List, [], ◌∷◌, ◌++◌, length, if◌then◌else◌, All, map, is_empty}
use memlake.Prelude.Int.{ℤ, leb_ℤ}
use memlake.Index.Table.{Record}
use memlake.Index.Postings.{encode_ids, decode_ids, ts_key, ts_from_key}
use memlake.Index.Postings.Groups.{IsId}
use memlake.Index.Postings.Times.{IsI64}

-- the pairs at or after a time
unfoldable pub pairs_from : ℤ → List (ℤ × ℕ) → List (ℤ × ℕ)
pairs_from from [] = []
pairs_from from (p ∷ ps) = if leb_ℤ from p.0 then p ∷ pairs_from from ps else pairs_from from ps

abbrev here : Record → List (ℤ × ℕ)
here r = map (λ id. (ts_from_key r.0, id)) (decode_ids (length r.1) r.1)

abbrev TimeGroup : Type 0
TimeGroup = ℤ × List ℕ

abbrev record_of : TimeGroup → Record
record_of g = (ts_key g.0, encode_ids g.1)

-- A group of an `i64`, with ids of 16 bytes, one at least.
abbrev IsGroup : TimeGroup → Type 0
IsGroup g = IsI64 g.0 × All IsId g.1 × (is_empty g.1 ≡ false)

unfoldable pairs_of_groups : ℤ → List TimeGroup → List (ℤ × ℕ)
pairs_of_groups from [] = []
pairs_of_groups from (g ∷ gs) =
    if leb_ℤ from g.0
    then map (λ id. (g.0, id)) g.1 ++ pairs_of_groups from gs
    else pairs_of_groups from gs
