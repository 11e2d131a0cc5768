-- ===== src/Index/Table/Ranges.antt =====
-- Which runs of a table hold the keys of a range.
use memlake.Prelude.{
  ℕ, zero, suc, ◌-◌, ◌≤◌, ◌<◌, ◌≡◌, sym, ap, ◌∙◌, false, List, [], ◌∷◌, ◌++◌, leb, take, drop,
  arith, if◌then◌else◌, is_empty, All, All-append, All-right, Bool-cases, inl, inr,
}
use mathlib.Core.List.{append-nil}
use mathlib.Core.Path.{subst}
use memlake.Prelude.Words.{drop_nil}
use memlake.Index.Table.{Record, key_or_zero}
use memlake.Index.Table.Records.{Ascending, between, between-above}
use memlake.Index.Table.Built.{join, head_key}
use memlake.Index.Table.Lookup.{Ascending-right, All_above}
use memlake.Index.Table.Windows.{AllBelow, starts, join-take-drop, between-append, between_below}

AllBelow-le : (low high : ℕ) (rs : List Record) → low ≤ high → AllBelow low rs → AllBelow high rs
AllBelow-le low high [] le h = tt
AllBelow-le low high (r ∷ rs) le h = (omega (arith, h.0), AllBelow-le low high rs le h.1)

Ascending-below : (xs ys : List Record) (r : Record) → Ascending (xs ++ r ∷ ys) → AllBelow r.0 xs
Ascending-below [] ys r asc = tt
Ascending-below (x ∷ xs) ys r asc =
    ((All-right (λ (e : Record). x.0 < e.0) xs (r ∷ ys) asc.0).0, Ascending-below xs ys r asc.1)

pred_suc : (n : ℕ) → suc n - 1 ≡ n
pred_suc n = omega arith

starts_none : (key : ℕ) → starts key [] - 1 ≡ 0
unfolding starts
starts_none key = omega arith

last_start :
    (key : ℕ) (c : List Record) (cs : List (List Record))
    → starts key (c ∷ cs) - 1 ≡ (if leb (key_or_zero (head_key c)) key then starts key cs else 0)
unfolding starts
last_start key c cs = ground arith

-- A run, before one that starts by a key, holds only keys below it.
before_next :
    (lo : ℕ) (c : List Record) (cs : List (List Record))
    → All (λ x. is_empty x ≡ false) cs
    → Ascending (c ++ join cs)
    → AllBelow lo (join (take (starts lo cs - 1) cs))
    → AllBelow lo (join (take (starts lo cs) (c ∷ cs)))
unfolding join starts
before_next lo c [] full asc h = tt
before_next lo c ([] ∷ cs) full asc h = ground (arith, full.0)
before_next lo c ((r ∷ rs) ∷ cs) full asc h = elim (Bool-cases (leb r.0 lo)) [
  | inl low ↦ rw (low) (
      All-append (λ (e : Record). e.0 < lo) c (join (take (starts lo cs) ((r ∷ rs) ∷ cs)))
        (AllBelow-le r.0 lo c (ground (arith, low)) (Ascending-below c (rs ++ join cs) r asc))
        (subst (λ n. AllBelow lo (join (take n ((r ∷ rs) ∷ cs))))
          (ap (λ t. (if t then suc (starts lo cs) else 0) - 1) low ∙ pred_suc (starts lo cs)) h))
  | inr high ↦ rw (high) tt
]

-- The runs in front of the last that starts by a key hold only keys below it.
pub before_start :
    (lo : ℕ) (cs : List (List Record))
    → All (λ c. is_empty c ≡ false) cs
    → Ascending (join cs)
    → AllBelow lo (join (take (starts lo cs - 1) cs))
unfolding join
before_start lo [] full asc = rw (starts_none lo) tt
before_start lo (c ∷ cs) full asc = elim (Bool-cases (leb (key_or_zero (head_key c)) lo)) [
  | inl low ↦
      rw (last_start lo c cs, low)
        (before_next lo c cs full.1 asc
          (before_start lo cs full.1 (Ascending-right c (join cs) asc)))
  | inr high ↦ rw (last_start lo c cs, high) tt
]

-- Behind the runs that start by a key stand only keys above it.
pub behind_end :
    (hi : ℕ) (cs : List (List Record))
    → All (λ c. is_empty c ≡ false) cs
    → Ascending (join cs)
    → All (λ (e : Record). hi < e.0) (join (drop (starts hi cs) cs))
unfolding join starts
behind_end hi [] full asc = tt
behind_end hi ([] ∷ cs) full asc = ground (arith, full.0)
behind_end hi ((r ∷ rs) ∷ cs) full asc = elim (Bool-cases (leb r.0 hi)) [
  | inl low ↦ rw (low) (behind_end hi cs full.1 (Ascending-right (r ∷ rs) (join cs) asc))
  | inr high ↦
      rw (high)
        (ground (arith, high), All_above hi r.0 (rs ++ join cs) (ground (arith, high)) asc.0)
]

pub starts-le : (lo hi : ℕ) (cs : List (List Record)) → lo ≤ hi → starts lo cs ≤ starts hi cs
unfolding starts
starts-le lo hi [] le = omega arith
starts-le lo hi (c ∷ cs) le = ground (arith, starts-le lo hi cs le)

drop_window : (n m : ℕ) (cs : List (List Record)) → n ≤ m → drop (m - n) (drop n cs) ≡ drop m cs
drop_window zero m cs le = ap (λ k. drop k cs) (omega arith)
drop_window (suc n) zero cs le = absurd (omega arith)
drop_window (suc n) (suc m) [] le = drop_nil (suc m - suc n)
drop_window (suc n) (suc m) (c ∷ cs) le =
    ap (λ k. drop k (drop n cs)) (omega arith) ∙ drop_window n m cs (omega arith)

-- Between two keys lie only records of the runs from the one that may hold the lower key up to the
-- last that starts by the upper key.
pub between_window :
    (lo hi : ℕ) (cs : List (List Record))
    → All (λ c. is_empty c ≡ false) cs
    → Ascending (join cs)
    → starts lo cs - 1 ≤ starts hi cs
    → between lo hi (join (take (starts hi cs - (starts lo cs - 1)) (drop (starts lo cs - 1) cs)))
      ≡ between lo hi (join cs)
between_window lo hi cs full asc le =
    let n = starts lo cs - 1 in
    let m = starts hi cs in
    let behind = drop n cs in
    sym (
      ap (between lo hi) (join-take-drop n cs)
      ∙ between-append lo hi (join (take n cs)) (join behind)
      ∙ ap (λ t. t ++ between lo hi (join behind))
          (between_below lo hi (join (take n cs)) (before_start lo cs full asc))
      ∙ ap (between lo hi) (join-take-drop (m - n) behind)
      ∙ between-append lo hi (join (take (m - n) behind)) (join (drop (m - n) behind))
      ∙ ap (λ t. between lo hi (join (take (m - n) behind)) ++ t)
          (ap (λ t. between lo hi (join t)) (drop_window n m cs le)
            ∙ between-above lo hi hi (join (drop m cs)) (omega arith) (behind_end hi cs full asc))
      ∙ append-nil (between lo hi (join (take (m - n) behind))))
