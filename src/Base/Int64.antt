-- ===== src/Base/Int64.antt =====
-- Go's int64 as its 64-bit pattern: a natural number below 2 ^ 64, of which those from 2 ^ 63 up
-- stand for the negative values.
use astra_store_xion.Base.{ℕ, ◌+◌, ◌-◌, ◌%◌, ◌^◌, ◌≤◌, ◌<◌, ◌≡◌, Bool, false, arith, ltb, leb}

abbrev pub Int64 : Type 0
Int64 = ℕ

abbrev pub int64 : ℕ → Int64
int64 n = n % 2 ^ 64

-- -n
abbrev pub neg : ℕ → Int64
neg n = (2 ^ 64 - n) % 2 ^ 64

unfoldable pub is_neg : Int64 → Bool
is_neg a = leb (2 ^ 63) a

unfoldable pub add64 : Int64 → Int64 → Int64
add64 a b = (a + b) % 2 ^ 64

unfoldable pub sub64 : Int64 → Int64 → Int64
sub64 a b = (a + 2 ^ 64 - b) % 2 ^ 64

-- `a < b`: the patterns compare as numbers once the sign bit is flipped.
unfoldable pub lt64 : Int64 → Int64 → Bool
lt64 a b = ltb ((a + 2 ^ 63) % 2 ^ 64) ((b + 2 ^ 63) % 2 ^ 64)

unfoldable pub le64 : Int64 → Int64 → Bool
le64 a b = leb ((a + 2 ^ 63) % 2 ^ 64) ((b + 2 ^ 63) % 2 ^ 64)

-- Below 2 ^ 63 the operations are those of the natural numbers.
pub lt64_nonneg : (a b : ℕ) → a < 2 ^ 63 → b < 2 ^ 63 → lt64 a b ≡ ltb a b
unfolding lt64
lt64_nonneg a b p q = ground arith

pub le64_nonneg : (a b : ℕ) → a < 2 ^ 63 → b < 2 ^ 63 → le64 a b ≡ leb a b
unfolding le64
le64_nonneg a b p q = ground arith

pub sub64_le : (a b : ℕ) → a < 2 ^ 63 → b ≤ a → sub64 a b ≡ a - b
unfolding sub64
sub64_le a b p q = omega arith

pub add64_small : (a b : ℕ) → a + b < 2 ^ 63 → add64 a b ≡ a + b
unfolding add64
add64_small a b p = omega arith

pub is_neg_small : (a : ℕ) → a < 2 ^ 63 → is_neg a ≡ false
unfolding is_neg
is_neg_small a p = ground arith

pub int64_small : (n : ℕ) → n < 2 ^ 63 → int64 n ≡ n
int64_small n p = omega arith
