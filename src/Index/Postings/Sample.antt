-- ===== src/Index/Postings/Sample.antt =====
-- What the capped sample of a window has at each place.
use memlake.Prelude.{
  ℕ, zero, suc, ◌+◌, ◌-◌, ◌*◌, ◌/◌, ◌≤◌, ◌<◌, ◌≡◌, refl, sym, ap, ◌∙◌, ◌&&◌, Option, none, List, [],
  ◌∷◌, ltb, length, take, get_elem?, arith, if◌then◌else◌,
}
use native.Mathlib.Nat.{div-eq-sub-div, div-eq_of_lt}
use memlake.Index.Postings.{step_from, spread_sample}

-- The ids of a window, or of more than a cap above 0 every so many of them from the first on: the
-- strides between them are equal, and there are as many as the cap.
unfoldable pub window_at : ℕ → List ℕ → ℕ → Option ℕ
window_at cap ids i =
    if ltb 0 cap && ltb cap (length ids)
    then if ltb i cap then get_elem? ids (i * (length ids / cap)) else none
    else get_elem? ids i

get_elem?-take :
    (n : ℕ) (xs : List ℕ) (i : ℕ)
    → get_elem? (take n xs) i ≡ (if ltb i n then get_elem? xs i else none)
get_elem?-take zero xs i = ground arith
get_elem?-take (suc n) [] i = ground arith
get_elem?-take (suc n) (x ∷ xs) zero = ground arith
get_elem?-take (suc n) (x ∷ xs) (suc i) = get_elem?-take n xs i ∙ ground arith

next_stride : (stride i : ℕ) → 1 ≤ stride → suc i * stride ≡ suc (stride - 1 + i * stride)
next_stride stride i h = omega arith

get_elem?-step_from :
    (stride skip : ℕ) (xs : List ℕ) (i : ℕ)
    → 1 ≤ stride
    → get_elem? (step_from stride skip xs) i ≡ get_elem? xs (skip + i * stride)
unfolding step_from
get_elem?-step_from stride skip [] i h = refl
get_elem?-step_from stride zero (x ∷ xs) zero h = ap (get_elem? (x ∷ xs)) zeroth
  where
    zeroth : 0 ≡ 0 + 0 * stride
    zeroth = omega arith
get_elem?-step_from stride zero (x ∷ xs) (suc i) h =
    get_elem?-step_from stride (stride - 1) xs i h
    ∙ ap (get_elem? (x ∷ xs)) (sym (next_stride stride i h) ∙ omega arith)
get_elem?-step_from stride (suc skip) (x ∷ xs) i h =
    get_elem?-step_from stride skip xs i h ∙ ap (get_elem? (x ∷ xs)) later
  where
    later : suc (skip + i * stride) ≡ suc skip + i * stride
    later = omega arith

stride_positive : (cap n : ℕ) → 0 < cap → cap < n → 1 ≤ n / cap
stride_positive cap n h lt =
    let below : cap ≤ n = omega arith in
    let step : n / cap ≡ (n - cap) / cap + 1 = div-eq-sub-div h below in omega (arith, step)

pub get_elem?-spread_sample :
    (cap : ℕ) (ids : List ℕ) (i : ℕ) → get_elem? (spread_sample cap ids) i ≡ window_at cap ids i
unfolding spread_sample window_at
get_elem?-spread_sample cap ids i = ground (
  arith,
  stride_positive cap (length ids),
  get_elem?-take cap (step_from (length ids / cap) 0 ids) i,
  get_elem?-step_from (length ids / cap) 0 ids i,
)

step_from-one : (xs : List ℕ) → step_from 1 0 xs ≡ xs
unfolding step_from
step_from-one [] = refl
step_from-one (x ∷ xs) = ap (λ ys. x ∷ ys) (step_from-one xs)

stride_one : (cap n : ℕ) → cap ≤ n → n < 2 * cap → n / cap ≡ 1
stride_one cap n h lt =
    div-eq-sub-div (omega arith) h ∙ ap (λ k. k + 1) (div-eq_of_lt (omega arith))

-- Between one and two caps of ids, the sample is the first of them.
pub spread_sample-first :
    (cap : ℕ) (ids : List ℕ)
    → cap < length ids
    → length ids < 2 * cap
    → spread_sample cap ids ≡ take cap ids
unfolding spread_sample
spread_sample-first cap ids more less =
    rw (stride_one cap (length ids) (omega arith) less, step_from-one ids) (ground arith)
