-- ===== src/Index/Spill/Merged.antt =====
-- The merge of the runs gives the records of the stable sort.
use memlake.Prelude.{
  ℕ, zero, suc, ◌≤◌, ◌<◌, ◌≡◌, refl, sym, ap, ◌∙◌, false, Option, none, some, List, [], ◌∷◌, ◌++◌,
  ltb, length, arith, if◌then◌else◌, All, All-append, map, length-append, Bool-cases, Option-cases,
  inl, inr,
}
use mathlib.Core.List.{append_assoc}
use mathlib.Core.Path.{subst}
use memlake.Prelude.Results.{ok, map_ok}
use memlake.Prelude.Sort.{sort_by}
use memlake.Index.Table.{Record, encode_record}
use memlake.Index.Table.Records.{IsFit, next_record-encode, length-encode_record}
use memlake.Index.Table.Built.{join}
use memlake.Index.Spill.{
  key_before, read_next, write_run, RunState, merging, read_item, open_runs, heap_top, refill,
  next_item, drain,
}
use memlake.Index.Spill.Sorted.{sorted, IsSorted, sort_by-least}

-- a reader that has taken in the first item of what is left of its run
abbrev pub state_of : List Record → RunState
state_of [] = record { reader = []; item = none }
state_of (r ∷ rs) = record { reader = write_run rs; item = some r }

read_item-write_run :
    (rs : List Record) → All IsFit rs → read_item (write_run rs) ≡ ok (state_of rs)
unfolding read_item read_next write_run
read_item-write_run [] fit = refl
read_item-write_run (r ∷ rs) fit =
    let long : 16 ≤ length (encode_record r ++ write_run rs) =
      omega (arith, length-append (encode_record r) (write_run rs), length-encode_record r) in
    let short : ltb (length (encode_record r ++ write_run rs)) 16 ≡ false = ground (arith, long) in
    rw (short, next_record-encode r (write_run rs) fit.0) refl

pub open_runs-write_run :
    (cs : List (List Record))
    → All (λ c. All IsFit c) cs
    → open_runs (map write_run cs) ≡ ok (map state_of cs)
unfolding open_runs
open_runs-write_run [] fit = refl
open_runs-write_run (c ∷ cs) fit =
    rw (read_item-write_run c fit.0, open_runs-write_run cs fit.1) refl

-- the runs without the first item of one
unfoldable pop_run : ℕ → List (List Record) → List (List Record)
pop_run run [] = []
pop_run zero ([] ∷ cs) = [] ∷ cs
pop_run zero ((r ∷ rs) ∷ cs) = rs ∷ cs
pop_run (suc run) (c ∷ cs) = c ∷ pop_run run cs

-- The top of the heap stands first among the smallest keys of all runs.
record IsTop (cs : List (List Record)) (run : ℕ) (m : Record) : Type 0 where
  before : List Record
  behind : List Record
  whole : join cs ≡ before ++ m ∷ behind
  popped : join (pop_run run cs) ≡ before ++ behind
  above : All (λ (e : Record). m.0 < e.0) before
  from : All (λ (e : Record). m.0 ≤ e.0) behind
  refilled : refill run (map state_of cs) ≡ ok (map state_of (pop_run run cs))

abbrev Top : List (List Record) → Option (ℕ × Record) → Type 0
Top cs none = join cs ≡ []
Top cs (some (run, m)) = IsTop cs run m

module _ (x : Record) (xs : List Record) (cs : List (List Record))
    (low : All (λ (e : Record). x.0 ≤ e.0) xs) (fit : All IsFit xs) where
  -- The first run has the top: every other key is at or above its first.
  first_IsTop : All (λ (e : Record). x.0 ≤ e.0) (join cs) → IsTop ((x ∷ xs) ∷ cs) 0 x
  unfolding join pop_run refill
  first_IsTop others = record {
    before = [];
    behind = xs ++ join cs;
    whole = refl;
    popped = refl;
    above = tt;
    from = All-append (λ (e : Record). x.0 ≤ e.0) xs (join cs) low others;
    refilled = ap (map_ok (λ state. state ∷ map state_of cs)) (read_item-write_run xs fit);
  }

  above_first :
      (m : Record) (es : List Record)
      → m.0 < x.0
      → All (λ (e : Record). x.0 ≤ e.0) es
      → All (λ (e : Record). m.0 < e.0) es
  above_first m [] lt h = tt
  above_first m (e ∷ es) lt h = (omega (arith, h.0), above_first m es lt h.1)

  from_first :
      (m : Record) (es : List Record)
      → x.0 ≤ m.0
      → All (λ (e : Record). m.0 ≤ e.0) es
      → All (λ (e : Record). x.0 ≤ e.0) es
  from_first m [] le h = tt
  from_first m (e ∷ es) le h = (omega (arith, h.0), from_first m es le h.1)

  past_first :
      (m : Record) (es : List Record)
      → x.0 ≤ m.0
      → All (λ (e : Record). m.0 < e.0) es
      → All (λ (e : Record). x.0 ≤ e.0) es
  past_first m [] le h = tt
  past_first m (e ∷ es) le h = (omega (arith, h.0), past_first m es le h.1)

  later_IsTop :
      (run : ℕ) (m : Record) → m.0 < x.0 → IsTop cs run m → IsTop ((x ∷ xs) ∷ cs) (suc run) m
  unfolding join pop_run refill
  later_IsTop run m lt h = record {
    before = (x ∷ xs) ++ h.before;
    behind = h.behind;
    whole = ap (λ t. (x ∷ xs) ++ t) h.whole ∙ sym (append_assoc (x ∷ xs) h.before (m ∷ h.behind));
    popped = ap (λ t. (x ∷ xs) ++ t) h.popped ∙ sym (append_assoc (x ∷ xs) h.before h.behind);
    above =
        All-append (λ (e : Record). m.0 < e.0) (x ∷ xs) h.before (lt, above_first m xs lt low)
          h.above;
    from = h.from;
    refilled = ap (map_ok (λ rest. state_of (x ∷ xs) ∷ rest)) h.refilled;
  }

  first_or_later :
      (o : Option (ℕ × Record))
      → Top cs o
      → Top ((x ∷ xs) ∷ cs) (elim o [
        | none ↦ some (0, x)
        | some (run, r) ↦ if key_before r x then some (suc run, r) else some (0, x)
      ])
  first_or_later none h = first_IsTop (subst (All (λ (e : Record). x.0 ≤ e.0)) (sym h) tt)
  first_or_later (some (run, m)) h = elim (Bool-cases (key_before m x)) [
    | inl later ↦ rw (later) (later_IsTop run m (ground (arith, later)) h)
    | inr first ↦ rw (first) (
        first_IsTop (
          subst (All (λ (e : Record). x.0 ≤ e.0)) (sym h.whole)
            (others m h (ground (arith, first)))))
  ]
    where
      others :
          (m : Record) (h : IsTop cs run m)
          → x.0 ≤ m.0
          → All (λ (e : Record). x.0 ≤ e.0) (h.before ++ m ∷ h.behind)
      others m h le =
          All-append (λ (e : Record). x.0 ≤ e.0) h.before (m ∷ h.behind)
            (past_first m h.before le h.above) (le, from_first m h.behind le h.from)

empty_IsTop :
    (cs : List (List Record)) (o : Option (ℕ × Record))
    → Top cs o
    → Top ([] ∷ cs) (elim o [ none ↦ none | some (run, r) ↦ some (suc run, r) ])
unfolding join pop_run refill
empty_IsTop cs none h = h
empty_IsTop cs (some (run, m)) h = record {
  before = h.before;
  behind = h.behind;
  whole = h.whole;
  popped = h.popped;
  above = h.above;
  from = h.from;
  refilled = ap (map_ok (λ rest. state_of [] ∷ rest)) h.refilled;
}

heap_top-IsTop :
    (cs : List (List Record))
    → All IsSorted cs
    → All (λ c. All IsFit c) cs
    → Top cs (heap_top (map state_of cs))
unfolding heap_top
heap_top-IsTop [] up fit = unfold join in refl
heap_top-IsTop ([] ∷ cs) up fit =
    empty_IsTop cs (heap_top (map state_of cs)) (heap_top-IsTop cs up.1 fit.1)
heap_top-IsTop ((x ∷ xs) ∷ cs) up fit =
    first_or_later x xs cs up.0.0 fit.0.1 (heap_top (map state_of cs))
      (heap_top-IsTop cs up.1 fit.1)

module _ (P : List Record → Type 0)
    (P_tail : (r : Record) (rs : List Record) → P (r ∷ rs) → P rs) where
  All-pop_run : (run : ℕ) (cs : List (List Record)) → All P cs → All P (pop_run run cs)
  unfolding pop_run
  All-pop_run run [] h = tt
  All-pop_run zero ([] ∷ cs) h = h
  All-pop_run zero ((r ∷ rs) ∷ cs) h = (P_tail r rs h.0, h.1)
  All-pop_run (suc run) (c ∷ cs) h = (h.0, All-pop_run run cs h.1)

next_item-none :
    (cs : List (List Record))
    → heap_top (map state_of cs) ≡ none
    → next_item (merging (map state_of cs)) ≡ ok none
unfolding next_item
next_item-none cs h = rw (h, next_item) refl

next_item-some :
    (cs : List (List Record)) (run : ℕ) (m : Record)
    → heap_top (map state_of cs) ≡ some (run, m)
    → IsTop cs run m
    → next_item (merging (map state_of cs)) ≡ ok (some (m, merging (map state_of (pop_run run cs))))
unfolding next_item
next_item-some cs run m h top = rw (h, next_item) (rw (top.refilled) refl)

-- The stream of runs that are sorted one by one is the stable sort of what they hold.
pub drain-merging :
    (fuel : ℕ) (cs : List (List Record))
    → length (join cs) ≤ fuel
    → All IsSorted cs
    → All (λ c. All IsFit c) cs
    → drain fuel (merging (map state_of cs)) ≡ ok (sorted (join cs))
unfolding drain sort_by
drain-merging zero cs le up fit = ap (λ rs. ok (sorted rs)) (sym (none_of (join cs) le))
  where
    none_of : (rs : List Record) → length rs ≤ 0 → rs ≡ []
    none_of [] le = refl
    none_of (r ∷ rs) le = absurd (omega arith)
drain-merging (suc fuel) cs le up fit = elim (Option-cases (heap_top (map state_of cs))) [
  | inl nothing ↦
      let done : join cs ≡ [] = subst (Top cs) nothing (heap_top-IsTop cs up fit) in
      rw (next_item-none cs nothing, done) refl
  | inr ((run, m), top) ↦
      let is_top : IsTop cs run m = subst (Top cs) top (heap_top-IsTop cs up fit) in
      let left = pop_run run cs in
      let fewer : length (join left) ≤ fuel = omega (
        arith,
        ap length is_top.whole,
        ap length is_top.popped,
        length-append is_top.before (m ∷ is_top.behind),
        length-append is_top.before is_top.behind,
      ) in
      rw
        (
          next_item-some cs run m top is_top,
          drain-merging fuel left fewer (All-pop_run IsSorted (λ r rs h. h.1) run cs up)
              (All-pop_run (All IsFit) (λ r rs h. h.1) run cs fit),
        )
        (ap ok (
          ap (λ t. m ∷ sorted t) is_top.popped
          ∙ sym (sort_by-least is_top.before is_top.behind m is_top.above is_top.from)
          ∙ ap sorted (sym is_top.whole)))
]
