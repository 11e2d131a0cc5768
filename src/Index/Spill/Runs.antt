-- ===== src/Index/Spill/Runs.antt =====
-- What the external sort keeps in its runs, and what comes out in the end.
use memlake.Prelude.{
  ℕ, zero, suc, ◌+◌, ◌≤◌, ◌≡◌, refl, sym, ap, ◌∙◌, true, false, List, [], ◌∷◌, ◌++◌, leb, length,
  arith, is_empty, All, All-left, All-right, map, length-append, Bool-cases, inl, inr,
}
use mathlib.Core.List.{append_assoc, append-nil}
use mathlib.Core.Path.{subst}
use memlake.Prelude.Bytes.{Bytes}
use memlake.Prelude.Results.{ok, ◌>>=◌, map_ok}
use memlake.Prelude.Sort.{sort_by, All-sort_by, length-sort_by}
use memlake.Index.Table.{Record}
use memlake.Index.Table.Records.{IsFit}
use memlake.Index.Table.Built.{join, join-append, join-one}
use memlake.Index.Spill.{
  key_before, ExternalSort, new_sort, write_run, spill, add_pair, add_pairs, in_memory, merging,
  open_runs, next_item, finish_sort, drain,
}
use memlake.Index.Spill.Sorted.{sorted, IsSorted, sort_by-IsSorted, sort_by-sorted_runs}
use memlake.Index.Spill.Merged.{open_runs-write_run, drain-merging}

-- The runs hold the chunks spilled, each sorted, and the buffer the records since.
record Spilled (s : ExternalSort) (chunks : List (List Record)) (rs : List Record) : Type 0 where
  runs : s.runs ≡ map write_run (map sorted chunks)
  whole : join chunks ++ s.buf ≡ rs

map-append {ℓ κ} :
    {A : Type ℓ} {B : Type κ} (f : A → B) (xs : List A) (y : A)
    → map f (xs ++ y ∷ []) ≡ map f xs ++ f y ∷ []
map-append f [] y = refl
map-append f (x ∷ xs) y = ap (λ t. f x ∷ t) (map-append f xs y)

spill_empty : (s : ExternalSort) → is_empty s.buf ≡ true → spill s ≡ s
unfolding spill
spill_empty s h = rw (h) refl

spill_full :
    (s : ExternalSort)
    → is_empty s.buf ≡ false
    → ((spill s).runs ≡ s.runs ++ write_run (sorted s.buf) ∷ []) × ((spill s).buf ≡ [])
unfolding spill
spill_full s h = (rw (h) refl, rw (h) refl)

no_buffer : (s : ExternalSort) → is_empty s.buf ≡ true → s.buf ≡ []
no_buffer s h = of s.buf h
  where
    of : (rs : List Record) → is_empty rs ≡ true → rs ≡ []
    of [] h = refl
    of (r ∷ rs) h = ground (arith, h)

spill-Spilled :
    (s : ExternalSort) (chunks : List (List Record)) (rs : List Record)
    → Spilled s chunks rs
    → (done : List (List Record)) × Spilled (spill s) done rs × ((spill s).buf ≡ [])
spill-Spilled s chunks rs h = elim (Bool-cases (is_empty s.buf)) [
  | inl idle ↦ (
    chunks,
    subst (λ t. Spilled t chunks rs) (sym (spill_empty s idle)) h,
    ap (λ t. t.buf) (spill_empty s idle) ∙ no_buffer s idle,
  )
  | inr busy ↦
      let flushed = spill_full s busy in
      (
        chunks ++ s.buf ∷ [],
        record {
          runs =
              flushed.0
              ∙ ap (λ t. t ++ write_run (sorted s.buf) ∷ []) h.runs
              ∙ sym (
                  ap (map write_run) (map-append sorted chunks s.buf)
                  ∙ map-append write_run (map sorted chunks) (sorted s.buf));
          whole =
              ap (λ t. join (chunks ++ s.buf ∷ []) ++ t) flushed.1
              ∙ append-nil (join (chunks ++ s.buf ∷ []))
              ∙ join-append chunks (s.buf ∷ [])
              ∙ ap (λ t. join chunks ++ t) (join-one s.buf)
              ∙ h.whole;
        },
        flushed.1,
      )
]

add_pair-Spilled :
    (r : Record) (s : ExternalSort) (chunks : List (List Record)) (rs : List Record)
    → Spilled s chunks rs
    → (done : List (List Record)) × Spilled (add_pair r s) done (rs ++ r ∷ [])
unfolding add_pair
add_pair-Spilled r s chunks rs h =
    let next = record s { buf = s.buf ++ r ∷ []; buf_bytes = s.buf_bytes + (20 + length r.1) } in
    let longer : Spilled next chunks (rs ++ r ∷ []) = record {
      runs = h.runs;
      whole = sym (append_assoc (join chunks) s.buf (r ∷ [])) ∙ ap (λ t. t ++ r ∷ []) h.whole;
    } in
    let flushed = spill-Spilled next chunks (rs ++ r ∷ []) longer in
    elim (Bool-cases (leb next.cap_bytes next.buf_bytes)) [
      | inl full ↦ rw (full) (flushed.0, flushed.1)
      | inr room ↦ rw (room) (chunks, longer)
    ]

add_pairs-Spilled :
    (es : List Record) (s : ExternalSort) (chunks : List (List Record)) (rs : List Record)
    → Spilled s chunks rs
    → (done : List (List Record)) × Spilled (add_pairs es s) done (rs ++ es)
unfolding add_pairs
add_pairs-Spilled [] s chunks rs h = (chunks, subst (Spilled s chunks) (sym (append-nil rs)) h)
add_pairs-Spilled (e ∷ es) s chunks rs h =
    let (done, added) = add_pair-Spilled e s chunks rs h in
    let (last, all_added) = add_pairs-Spilled es (add_pair e s) done (rs ++ e ∷ []) added in
    (
      last,
      subst (Spilled (add_pairs es (add_pair e s)) last) (append_assoc rs (e ∷ []) es) all_added,
    )

drain-in_memory :
    (fuel : ℕ) (rs : List Record) → length rs ≤ fuel → drain fuel (in_memory rs) ≡ ok rs
unfolding drain next_item
drain-in_memory zero [] le = refl
drain-in_memory zero (r ∷ rs) le = absurd (omega arith)
drain-in_memory (suc fuel) [] le = refl
drain-in_memory (suc fuel) (r ∷ rs) le =
    ap (map_ok (λ t. r ∷ t)) (drain-in_memory fuel rs (omega arith))

length-sorted_runs : (cs : List (List Record)) → length (join (map sorted cs)) ≡ length (join cs)
unfolding join
length-sorted_runs [] = refl
length-sorted_runs (c ∷ cs) = omega (
  arith,
  length-sorted_runs cs,
  length-append (sorted c) (join (map sorted cs)),
  length-append c (join cs),
  length-sort_by key_before c,
)

runs-IsSorted : (cs : List (List Record)) → All IsSorted (map sorted cs)
runs-IsSorted [] = tt
runs-IsSorted (c ∷ cs) = (sort_by-IsSorted c, runs-IsSorted cs)

runs-IsFit :
    (cs : List (List Record)) → All IsFit (join cs) → All (λ c. All IsFit c) (map sorted cs)
unfolding join
runs-IsFit [] fit = tt
runs-IsFit (c ∷ cs) fit = (
  All-sort_by key_before IsFit c (All-left IsFit c (join cs) fit),
  runs-IsFit cs (All-right IsFit c (join cs) fit),
)

-- The stream of a sort that has spilled some chunks and has nothing left in its buffer.
drain-Spilled :
    (s : ExternalSort) (chunks : List (List Record)) (rs : List Record)
    → Spilled s chunks rs
    → s.buf ≡ []
    → All IsFit rs
    → map_ok merging (open_runs s.runs) >>= drain (length rs) ≡ ok (sorted rs)
drain-Spilled s chunks rs h none_left fit =
    let whole : join chunks ≡ rs =
      sym (append-nil (join chunks)) ∙ ap (λ t. join chunks ++ t) (sym none_left) ∙ h.whole in
    let fits = runs-IsFit chunks (subst (All IsFit) (sym whole) fit) in
    ap (λ t. map_ok merging (open_runs t) >>= drain (length rs)) h.runs
    ∙ ap (λ t. map_ok merging t >>= drain (length rs))
        (open_runs-write_run (map sorted chunks) fits)
    ∙ drain-merging (length rs) (map sorted chunks)
        (omega (arith, length-sorted_runs chunks, ap length whole)) (runs-IsSorted chunks) fits
    ∙ ap ok (sort_by-sorted_runs chunks ∙ ap sorted whole)

new_sort-Spilled : (cap_bytes : ℕ) → Spilled (new_sort cap_bytes) [] []
unfolding new_sort join
new_sort-Spilled cap_bytes = record { runs = refl; whole = refl }

no_chunks :
    (chunks : List (List Record)) (runs : List Bytes)
    → runs ≡ map write_run (map sorted chunks)
    → is_empty runs ≡ true
    → chunks ≡ []
no_chunks [] runs h none_there = refl
no_chunks (c ∷ cs) runs h none_there = ground (arith, h, none_there)

-- The stream of the external sort is the stable sort of all the pairs added, whatever the cap: it
-- gives each of them, in the order of their keys, and those of one key in the order they came.
pub external_sort-sorts :
    (cap_bytes : ℕ) (rs : List Record)
    → All IsFit rs
    → finish_sort (add_pairs rs (new_sort cap_bytes)) >>= drain (length rs)
      ≡ ok (sort_by key_before rs)
unfolding finish_sort join
external_sort-sorts cap_bytes rs fit =
    let s = add_pairs rs (new_sort cap_bytes) in
    let (chunks, h) =
      add_pairs-Spilled rs (new_sort cap_bytes) [] [] (new_sort-Spilled cap_bytes) in
    elim (Bool-cases (is_empty s.runs)) [
      | inl in_ram ↦
          let buffered : s.buf ≡ rs =
            ap (λ t. join t ++ s.buf) (sym (no_chunks chunks s.runs h.runs in_ram)) ∙ h.whole in
          rw (in_ram) (
            drain-in_memory (length rs) (sorted s.buf)
              (omega (arith, length-sort_by key_before s.buf, ap length buffered))
            ∙ ap (λ t. ok (sorted t)) buffered)
      | inr on_disk ↦
          let (done, spilled, flushed) = spill-Spilled s chunks rs h in
          rw (on_disk) (drain-Spilled (spill s) done rs spilled flushed fit)
    ]
