-- ===== src/Gateway/Ranges/Bounds.antt =====
-- The numbers that `parseContentRange` lets through, and the size of the chunk that they make.
use astra_store_xion.Base.{
  subst, ℕ, ◌+◌, ◌-◌, ◌^◌, ◌≤◌, ◌<◌, ◌≡◌, String, Bool, true, false, Bool-cases, ◌||◌, Option, none,
  some, List, [], ◌∷◌, arith, if◌then◌else◌, ltb, leb, ◌==◌, inl, inr, refl,
}
use astra_store_xion.Base.Int64.{Int64, is_neg, lt64, le64, add64, sub64}
use astra_store_xion.Files.Text.{codes, trim_space}
use astra_store_xion.Gateway.Text.{
  parse_uint, positive, negative, parse_int, split_at, strip_prefix, checked_range, range_of,
  range_in, is_star, range_after, parse_content_range,
}

abbrev Fits : Option Int64 → Type 0
Fits none = Unit
Fits (some n) = n < 2 ^ 64

positive-Fits : (o : Option ℕ) → Fits (positive o)
positive-Fits none = tt
positive-Fits (some n) = elim (Bool-cases (ltb n (2 ^ 63))) [
  | inl e ↦ rw e (ground (arith, e))
  | inr e ↦ rw e tt
]

negative-Fits : (o : Option ℕ) → Fits (negative o)
negative-Fits none = tt
negative-Fits (some n) = elim (Bool-cases (leb n (2 ^ 63))) [
  | inl e ↦ rw e (omega arith)
  | inr e ↦ rw e tt
]

parse_int-Fits : (xs : List ℕ) → Fits (parse_int xs)
unfolding parse_int
parse_int-Fits [] = tt
parse_int-Fits (x ∷ xs) = elim (Bool-cases (x == b'-')) [
  | inl e ↦ rw e (negative-Fits (parse_uint xs))
  | inr e ↦ elim (Bool-cases (x == b'+')) [
    | inl f ↦ rw (e, f) (positive-Fits (parse_uint xs))
    | inr f ↦ rw (e, f) (positive-Fits (parse_uint (x ∷ xs)))
  ]
]

-- The bytes from the first to the second number lie in a file of the third, below 2 ^ 63.
abbrev pub IsRange : Option (Int64 × Int64 × Int64) → Type 0
IsRange none = Unit
IsRange (some (start, end, total)) =
    (start ≤ end) × (end < total) × (total < 2 ^ 63) × (add64 (sub64 end start) 1 ≡ end + 1 - start)

is_neg-below : (n : ℕ) → is_neg n ≡ false → n < 2 ^ 63
unfolding is_neg
is_neg-below n p = ground (arith, p)

lt64-ordered :
    (start end : ℕ)
    → start < 2 ^ 63
    → end < 2 ^ 64
    → lt64 end start ≡ false
    → (start ≤ end) × (end < 2 ^ 63)
unfolding lt64
lt64-ordered start end a b q = (ground (arith, q), ground (arith, q))

le64-inside :
    (end total : ℕ)
    → end < 2 ^ 63
    → total < 2 ^ 64
    → le64 total end ≡ false
    → (end < total) × (total < 2 ^ 63)
unfolding le64
le64-inside end total a b r = (ground (arith, r), ground (arith, r))

unless-IsRange :
    (a b c : Bool) (o : Option (Int64 × Int64 × Int64))
    → (a ≡ false → b ≡ false → c ≡ false → IsRange o)
    → IsRange (if a || b || c then none else o)
unless-IsRange true b c o h = tt
unless-IsRange false true c o h = tt
unless-IsRange false false true o h = tt
unless-IsRange false false false o h = h refl refl refl

some-IsRange :
    (start end total : ℕ)
    → start < 2 ^ 64
    → end < 2 ^ 64
    → total < 2 ^ 64
    → is_neg start ≡ false
    → lt64 end start ≡ false
    → le64 total end ≡ false
    → IsRange (some (start, end, total))
unfolding add64 sub64
some-IsRange start end total a b c p q r =
    let below = is_neg-below start p in
    let ordered = lt64-ordered start end below b q in
    let inside = le64-inside end total ordered.1 c r in
    (ordered.0, inside.0, inside.1, omega (arith, ordered.0, ordered.1))

checked_range-IsRange :
    (a b c : Option ℕ) → Fits a → Fits b → Fits c → IsRange (checked_range a b c)
checked_range-IsRange (some s) (some e) (some t) p q r =
    unless-IsRange (is_neg s) (lt64 e s) (le64 t e) (some (s, e, t)) (some-IsRange s e t p q r)
checked_range-IsRange none b c p q r = tt
checked_range-IsRange (some s) none c p q r = tt
checked_range-IsRange (some s) (some e) none p q r = tt

range_of-IsRange : (parts : List (List ℕ)) (total : List ℕ) → IsRange (range_of parts total)
range_of-IsRange [] total = tt
range_of-IsRange (a ∷ []) total = tt
range_of-IsRange (a ∷ b ∷ []) total =
    checked_range-IsRange (parse_int a) (parse_int b) (parse_int total) (parse_int-Fits a)
      (parse_int-Fits b) (parse_int-Fits total)
range_of-IsRange (a ∷ b ∷ c ∷ rest) total = tt

range_in-IsRange : (parts : List (List ℕ)) → IsRange (range_in parts)
range_in-IsRange [] = tt
range_in-IsRange (a ∷ []) = tt
range_in-IsRange (a ∷ b ∷ []) = elim (Bool-cases (is_star b)) [
  | inl e ↦ rw e tt
  | inr e ↦ rw e (range_of-IsRange (split_at b'-' a) b)
]
range_in-IsRange (a ∷ b ∷ c ∷ rest) = tt

range_after-IsRange : (o : Option String) → IsRange (range_after o)
range_after-IsRange none = tt
range_after-IsRange (some s) = range_in-IsRange (split_at b'/' (codes s))

-- A range that is let through, whatever the header says, has its bytes in order, inside of a file of
-- less than 2 ^ 63 bytes, and the size that `appendUpload` computes for it in int64 is their number.
pub parse_content_range_bounds :
    (value : String) (start end total : ℕ)
    → parse_content_range value ≡ some (start, end, total)
    → (start ≤ end)
      × (end < total)
      × (total < 2 ^ 63)
      × (add64 (sub64 end start) 1 ≡ end + 1 - start)
unfolding parse_content_range
parse_content_range_bounds value start end total e =
    subst IsRange e (range_after-IsRange (strip_prefix "bytes " (trim_space value)))
