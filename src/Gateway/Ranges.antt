-- ===== src/Gateway/Ranges.antt =====
-- The range that a client writes, "bytes start-end/total", is the range that `parseContentRange` reads.
pub mod Bounds
use Prim.Native.Char.{code}
use Prim.Native.String
use Prim.Native.String.append
use astra_store_xion.Base.{
  ℕ, zero, suc, ◌+◌, ◌-◌, ◌*◌, ◌/◌, ◌%◌, ◌^◌, ◌≤◌, ◌<◌, ◌≡◌, refl, ap, ◌∙◌, String, Bool, true,
  false, Option, none, some, List, [], ◌∷◌, ◌++◌, All, if-some, Bool-cases, length, ◌==◌, ltb, leb,
  arith, if◌then◌else◌, inl, inr,
}
use astra_store_xion.Base.Int64.{
  Int64, is_neg, lt64, le64, add64, sub64, is_neg_small, lt64_nonneg, le64_nonneg,
}
use astra_store_xion.Files.Text.{codes, trim_space}
use astra_store_xion.Gateway.Text.{
  is_digit, parse_digits, parse_uint, negative, positive, parse_int, split_at, onto_head,
  strip_prefix, checked_range, range_of, range_in, is_star, range_after, parse_content_range,
}

-- The decimal digits of a number below 10 ^ (k + 1), as `strconv.FormatInt` writes them.
abbrev pub format_uint : ℕ → ℕ → List ℕ
format_uint zero n = (n % 10 + b'0') ∷ []
format_uint (suc k) n =
    let tens = format_uint k (n / 10) in
    if ltb n 10 then (n + b'0') ∷ [] else tens ++ (n % 10 + b'0') ∷ []

abbrev pub format_int : ℕ → List ℕ
format_int = format_uint 18

abbrev pub Digits : List ℕ → Type 0
Digits = All (λ c. is_digit c ≡ true)

Digits-append : (xs ys : List ℕ) → Digits xs → Digits ys → Digits (xs ++ ys)
Digits-append [] ys p q = q
Digits-append (x ∷ xs) ys p q = (p.0, Digits-append xs ys p.1 q)

digit-is_digit : (d : ℕ) → d < 10 → is_digit (d + b'0') ≡ true
unfolding is_digit
digit-is_digit d p = ground arith

format_uint-Digits : (k n : ℕ) → Digits (format_uint k n)
format_uint-Digits zero n = (digit-is_digit (n % 10) (omega arith), tt)
format_uint-Digits (suc k) n = elim (Bool-cases (ltb n 10)) [
  | inl e ↦ rw e (digit-is_digit n (ground (arith, e)), tt)
  | inr e ↦ rw e (
      Digits-append (format_uint k (n / 10)) ((n % 10 + b'0') ∷ []) (format_uint-Digits k (n / 10))
        (digit-is_digit (n % 10) (omega arith), tt))
]

-- One more digit at the end is ten times the number and the digit.
parse_digits-snoc :
    (m n d : ℕ) (xs : List ℕ)
    → d < 10
    → parse_digits m xs ≡ some n
    → parse_digits m (xs ++ (d + b'0') ∷ []) ≡ some (n * 10 + d)
unfolding parse_digits is_digit
parse_digits-snoc m n d [] p e = ground (arith, e)
parse_digits-snoc m n d (x ∷ xs) p e =
    let parts = if-some (is_digit x) (parse_digits (m * 10 + (x - 48)) xs) n e in
    rw parts.0 (parse_digits-snoc (m * 10 + (x - 48)) n d xs p parts.1)

format_uint-parse_digits : (k n : ℕ) → n < 10 ^ suc k → parse_digits 0 (format_uint k n) ≡ some n
unfolding parse_digits is_digit
format_uint-parse_digits zero n p = ground arith
format_uint-parse_digits (suc k) n p = elim (Bool-cases (ltb n 10)) [
  | inl e ↦ rw e (ground (arith, e))
  | inr e ↦ rw e (
      parse_digits-snoc 0 (n / 10) (n % 10) (format_uint k (n / 10)) (omega arith)
        (format_uint-parse_digits k (n / 10) (omega (arith, p)))
      ∙ ap some (omega arith))
]

digit-not_sign : (c : ℕ) → is_digit c ≡ true → ((c == b'-') ≡ false) × ((c == b'+') ≡ false)
unfolding is_digit
digit-not_sign c h = (ground (arith, h), ground (arith, h))

-- Digits of a number that fits read as that number.
parse_int-Digits :
    (xs : List ℕ) (n : ℕ) → Digits xs → parse_uint xs ≡ some n → n < 2 ^ 63 → parse_int xs ≡ some n
unfolding parse_int
parse_int-Digits [] n h e p = absurd (cc)
parse_int-Digits (x ∷ xs) n h e p =
    let apart = digit-not_sign x h.0 in rw (apart.0, apart.1, e) (ground (arith, p))

digit-apart : (c x : ℕ) → is_digit c ≡ false → is_digit x ≡ true → (x == c) ≡ false
unfolding is_digit
digit-apart c x f t = ground (arith, f, t)

abbrev pub Free : ℕ → List ℕ → Type 0
Free c = All (λ x. (x == c) ≡ false)

Digits-Free : (c : ℕ) (xs : List ℕ) → is_digit c ≡ false → Digits xs → Free c xs
Digits-Free c [] other h = tt
Digits-Free c (x ∷ xs) other h = (digit-apart c x other h.0, Digits-Free c xs other h.1)

Free-append : (c : ℕ) (xs ys : List ℕ) → Free c xs → Free c ys → Free c (xs ++ ys)
Free-append c [] ys p q = q
Free-append c (x ∷ xs) ys p q = (p.0, Free-append c xs ys p.1 q)

-- A text without the character is one part.
split_at-Free : (c : ℕ) (xs : List ℕ) → Free c xs → split_at c xs ≡ xs ∷ []
unfolding split_at
split_at-Free c [] h = refl
split_at-Free c (x ∷ xs) h = rw (h.0, split_at-Free c xs h.1) refl

split_at-append :
    (c : ℕ) (xs ys : List ℕ) → Free c xs → split_at c (xs ++ c ∷ ys) ≡ xs ∷ split_at c ys
unfolding split_at
split_at-append c [] ys h = ground arith
split_at-append c (x ∷ xs) ys h = rw (h.0, split_at-append c xs ys h.1) refl

parse_uint-snoc : (xs : List ℕ) (y : ℕ) → parse_uint (xs ++ y ∷ []) ≡ parse_digits 0 (xs ++ y ∷ [])
parse_uint-snoc [] y = refl
parse_uint-snoc (x ∷ xs) y = refl

format_uint-parse_uint : (k n : ℕ) → parse_uint (format_uint k n) ≡ parse_digits 0 (format_uint k n)
format_uint-parse_uint zero n = refl
format_uint-parse_uint (suc k) n = elim (Bool-cases (ltb n 10)) [
  | inl e ↦ rw e refl
  | inr e ↦ rw e (parse_uint-snoc (format_uint k (n / 10)) (n % 10 + b'0'))
]

format_int-parse_int : (n : ℕ) → n < 2 ^ 63 → parse_int (format_int n) ≡ some n
format_int-parse_int n p =
    parse_int-Digits (format_int n) n (format_uint-Digits 18 n)
      (format_uint-parse_uint 18 n ∙ format_uint-parse_digits 18 n (omega (arith, p))) p

is_star-Digits : (xs : List ℕ) → Digits xs → is_star xs ≡ false
unfolding is_digit
is_star-Digits [] h = refl
is_star-Digits (x ∷ []) h = ground (arith, h.0)
is_star-Digits (x ∷ y ∷ xs) h = refl

==_refl : (n : ℕ) → (n == n) ≡ true
==_refl n = ground arith

pub strip_prefix-append : (p s : String) → strip_prefix p (String.◌++◌ p s) ≡ some s
unfolding strip_prefix
strip_prefix-append String.[] s = rw (append.nil s) refl
strip_prefix-append (String.◌∷◌ c p) s =
    rw (append.cons c p s, ==_refl (code c)) (strip_prefix-append p s)

-- What stands after "bytes ".
abbrev pub content_range : ℕ → ℕ → ℕ → List ℕ
content_range start end total =
    (format_int start ++ b'-' ∷ format_int end) ++ b'/' ∷ format_int total

format_int-Free : (c n : ℕ) → is_digit c ≡ false → Free c (format_int n)
format_int-Free c n other = Digits-Free c (format_int n) other (format_uint-Digits 18 n)

ordered-checked_range :
    (start end total : ℕ)
    → start ≤ end
    → end < total
    → total < 2 ^ 63
    → checked_range (some start) (some end) (some total) ≡ some (start, end, total)
unfolding is_neg lt64 le64
ordered-checked_range start end total p q r = ground (arith, p, q, r)

range_in_lem :
    (start end total : ℕ)
    → start ≤ end
    → end < total
    → total < 2 ^ 63
    → range_in (split_at b'/' (content_range start end total)) ≡ some (start, end, total)
unfolding is_digit
range_in_lem start end total p q r =
    let front = format_int start ++ b'-' ∷ format_int end in
    let free =
      Free-append b'/' (format_int start) (b'-' ∷ format_int end) (format_int-Free b'/' start refl)
        (refl, format_int-Free b'/' end refl) in
    rw
      (
        split_at-append b'/' front (format_int total) free,
        split_at-Free b'/' (format_int total) (format_int-Free b'/' total refl),
        is_star-Digits (format_int total) (format_uint-Digits 18 total),
        split_at-append b'-' (format_int start) (format_int end) (format_int-Free b'-' start refl),
        split_at-Free b'-' (format_int end) (format_int-Free b'-' end refl),
        format_int-parse_int start (omega (arith, p, q, r)),
        format_int-parse_int end (omega (arith, q, r)),
        format_int-parse_int total r,
      )
      (ordered-checked_range start end total p q r)

-- "bytes start-end/total", where the bytes from start to end lie in a file of total bytes, below
-- 2 ^ 63, is read as these three numbers; blanks around it do not matter.
pub content_range-parse_content_range :
    (value range : String) (start end total : ℕ)
    → trim_space value ≡ String.◌++◌ "bytes " range
    → codes range ≡ content_range start end total
    → start ≤ end
    → end < total
    → total < 2 ^ 63
    → parse_content_range value ≡ some (start, end, total)
unfolding parse_content_range
content_range-parse_content_range value range start end total e f p q r =
    rw (e, strip_prefix-append "bytes " range, f) (range_in_lem start end total p q r)
