-- ===== src/Core/Names/Order.antt =====
-- The names of the log's objects give their sequences back, and stand in their order.
use memlake.Prelude.{
  ℕ, zero, suc, ◌+◌, ◌-◌, ◌*◌, ◌/◌, ◌%◌, ◌^◌, ◌≤◌, ◌<◌, ◌≡◌, refl, sym, ap, ◌∙◌, Bool, true, false,
  ◌&&◌, ◌||◌, some, [], ◌∷◌, ◌++◌, ltb, leb, ◌==◌, length, any, arith, length-append,
}
use mathlib.Core.List.{append_assoc, append-nil}
use mathlib.Core.Path.{ap₂}
use memlake.Prelude.Bytes.{Bytes, codes, bytes_lt, bytes_eq_refl}
use memlake.Prelude.Words.{take_append, drop_append}
use memlake.Core.Names.{
  pad_digits, wal_path, last_part, strip_suffix, digits_from, parse_u64, parse_wal_seq,
}

length-pad_digits : (w n : ℕ) → length (pad_digits w n) ≡ w
unfolding pad_digits
length-pad_digits zero n = refl
length-pad_digits (suc w) n = omega (
  arith,
  length-pad_digits w (n / 10),
  length-append (pad_digits w (n / 10)) ((48 + n % 10) ∷ []),
)

-- Names of one width stand in the order of their numbers.
bytes_lt-pad_digits :
    (w a b : ℕ) (s t : Bytes)
    → a < 10 ^ w
    → b < 10 ^ w
    → bytes_lt (pad_digits w a ++ s) (pad_digits w b ++ t) ≡ (ltb a b || ((a == b) && bytes_lt s t))
unfolding pad_digits
bytes_lt-pad_digits zero a b s t ha hb = ground arith
bytes_lt-pad_digits (suc w) a b s t ha hb =
    ap₂ bytes_lt (append_assoc (pad_digits w (a / 10)) ((48 + a % 10) ∷ []) s)
      (append_assoc (pad_digits w (b / 10)) ((48 + b % 10) ∷ []) t)
    ∙ bytes_lt-pad_digits w (a / 10) (b / 10) ((48 + a % 10) ∷ s) ((48 + b % 10) ∷ t) (omega arith)
        (omega arith)
    ∙ (unfold bytes_lt in ground arith)

bytes_lt-append : (p s t : Bytes) → bytes_lt (p ++ s) (p ++ t) ≡ bytes_lt s t
unfolding bytes_lt
bytes_lt-append [] s t = refl
bytes_lt-append (c ∷ p) s t = ground (arith, bytes_lt-append p s t)

-- `acc` with `w` zeros behind it
shifted : ℕ → ℕ → ℕ
shifted acc zero = acc
shifted acc (suc w) = shifted acc w * 10

shifted_zero : (w : ℕ) → shifted 0 w ≡ 0
unfolding shifted
shifted_zero zero = refl
shifted_zero (suc w) = omega (arith, shifted_zero w)

digits_from_digit :
    (acc d : ℕ) (ys : Bytes)
    → d < 10
    → digits_from acc ((48 + d) ∷ ys) ≡ digits_from (acc * 10 + d) ys
unfolding digits_from
digits_from_digit acc d ys h =
    let value : acc * 10 + (48 + d - 48) ≡ acc * 10 + d = omega arith in rw (value) (ground arith)

digits_from-pad_digits :
    (w n acc : ℕ) (ys : Bytes)
    → n < 10 ^ w
    → digits_from acc (pad_digits w n ++ ys) ≡ digits_from (shifted acc w + n) ys
unfolding pad_digits shifted
digits_from-pad_digits zero n acc ys h =
    let same : acc ≡ acc + n = omega arith in ap (λ a. digits_from a ys) same
digits_from-pad_digits (suc w) n acc ys h =
    let value : (shifted acc w + n / 10) * 10 + n % 10 ≡ shifted acc w * 10 + n = omega arith in
    ap (digits_from acc) (append_assoc (pad_digits w (n / 10)) ((48 + n % 10) ∷ []) ys)
    ∙ digits_from-pad_digits w (n / 10) acc ((48 + n % 10) ∷ ys) (omega arith)
    ∙ digits_from_digit (shifted acc w + n / 10) (n % 10) ys (omega arith)
    ∙ ap (λ a. digits_from a ys) value

abbrev has_slash : Bytes → Bool
has_slash bytes = any (λ x. x == 47) bytes

pad_digits_no_slash :
    (w n : ℕ) (ys : Bytes) → has_slash ys ≡ false → has_slash (pad_digits w n ++ ys) ≡ false
unfolding pad_digits
pad_digits_no_slash zero n ys h = h
pad_digits_no_slash (suc w) n ys h =
    ap has_slash (append_assoc (pad_digits w (n / 10)) ((48 + n % 10) ∷ []) ys)
    ∙ pad_digits_no_slash w (n / 10) ((48 + n % 10) ∷ ys) (ground (arith, h))

has_slash-append : (xs ys : Bytes) → has_slash (xs ++ 47 ∷ ys) ≡ true
has_slash-append [] ys = refl
has_slash-append (x ∷ xs) ys = ground (arith, has_slash-append xs ys)

last_part-append : (xs ys : Bytes) → has_slash ys ≡ false → last_part (xs ++ 47 ∷ ys) ≡ ys
unfolding last_part
last_part-append [] ys h = rw (h) refl
last_part-append (x ∷ xs) ys h =
    rw (last_part-append xs ys h, has_slash-append xs ys) (ground arith)

strip_suffix-append : (xs suffix : Bytes) → strip_suffix suffix (xs ++ suffix) ≡ some xs
unfolding strip_suffix
strip_suffix-append xs suffix =
    let total = length-append xs suffix in
    let cut : length (xs ++ suffix) - length suffix ≡ length xs = omega (arith, total) in
    let fits : leb (length suffix) (length (xs ++ suffix)) ≡ true = ground (arith, total) in
    rw
      (
        fits,
        cut,
        drop_append (length xs) xs suffix refl,
        take_append (length xs) xs suffix refl,
        bytes_eq_refl suffix,
      )
      refl

abbrev starts_with_plus : Bytes → Bool
starts_with_plus [] = false
starts_with_plus (c ∷ cs) = c == 43

pad_digits_no_plus :
    (w n : ℕ) (ys : Bytes)
    → starts_with_plus ys ≡ false
    → starts_with_plus (pad_digits w n ++ ys) ≡ false
unfolding pad_digits
pad_digits_no_plus zero n ys h = h
pad_digits_no_plus (suc w) n ys h =
    ap starts_with_plus (append_assoc (pad_digits w (n / 10)) ((48 + n % 10) ∷ []) ys)
    ∙ pad_digits_no_plus w (n / 10) ((48 + n % 10) ∷ ys) (ground arith)

parse_u64-digits :
    (digits : Bytes) (n : ℕ)
    → 1 ≤ length digits
    → starts_with_plus digits ≡ false
    → digits_from 0 digits ≡ some n
    → n < 2 ^ 64
    → parse_u64 digits ≡ some n
unfolding parse_u64
parse_u64-digits [] n some_digit unsigned h fits = absurd (omega arith)
parse_u64-digits (c ∷ cs) n some_digit unsigned h fits = ground (arith, unsigned, h, fits)

parse_u64-pad_digits : (n : ℕ) → n < 2 ^ 64 → parse_u64 (pad_digits 20 n) ≡ some n
parse_u64-pad_digits n fits =
    let digits = pad_digits 20 n in
    let alone = append-nil digits in
    let value : shifted 0 20 + n ≡ n = omega (arith, shifted_zero 20) in
    parse_u64-digits digits n (omega (arith, length-pad_digits 20 n))
      (ap starts_with_plus (sym alone) ∙ pad_digits_no_plus 20 n [] refl)
      (ap (digits_from 0) (sym alone)
        ∙ digits_from-pad_digits 20 n 0 [] (omega arith)
        ∙ ap (λ a. digits_from a []) value
        ∙ unfold digits_from in refl)
      fits

last_part-wal_path :
    (name : Bytes) (seq : ℕ) → last_part (wal_path name seq) ≡ pad_digits 20 seq ++ codes ".bin"
last_part-wal_path name seq =
    ap last_part (sym (append_assoc name (codes "/wal") (47 ∷ (pad_digits 20 seq ++ codes ".bin"))))
    ∙ last_part-append (name ++ codes "/wal") (pad_digits 20 seq ++ codes ".bin")
        (pad_digits_no_slash 20 seq (codes ".bin") refl)

parse_wal_seq-u64 :
    (path digits : Bytes)
    → strip_suffix (codes ".bin") (last_part path) ≡ some digits
    → parse_wal_seq path ≡ parse_u64 digits
unfolding parse_wal_seq
parse_wal_seq-u64 path digits h = rw (h, parse_wal_seq) refl

-- The name of an entry of a 64-bit sequence gives the sequence back, and in one namespace the names
-- stand in a listing in the order of the sequences.
pub parse_wal_seq-wal_path :
    (name : Bytes) (a b : ℕ)
    → a < 2 ^ 64
    → b < 2 ^ 64
    → (parse_wal_seq (wal_path name a) ≡ some a)
      × (bytes_lt (wal_path name a) (wal_path name b) ≡ ltb a b)
parse_wal_seq-wal_path name a b fits_a fits_b = (
  parse_wal_seq-u64 (wal_path name a) (pad_digits 20 a) (
        ap (strip_suffix (codes ".bin")) (last_part-wal_path name a)
        ∙ strip_suffix-append (pad_digits 20 a) (codes ".bin"))
      ∙ parse_u64-pad_digits a fits_a,
  bytes_lt-append name (codes "/wal/" ++ (pad_digits 20 a ++ codes ".bin"))
        (codes "/wal/" ++ (pad_digits 20 b ++ codes ".bin"))
      ∙ bytes_lt-append (codes "/wal/") (pad_digits 20 a ++ codes ".bin")
          (pad_digits 20 b ++ codes ".bin")
      ∙ bytes_lt-pad_digits 20 a b (codes ".bin") (codes ".bin") (omega arith) (omega arith)
      ∙ (unfold bytes_lt in ground arith),
)
