-- ===== src/Base/Strings.antt =====
-- The order of strings, by the code points.
use Prim.Native.Nat.{ℕ, Ordering, compare as compare_ℕ}
use Prim.Native.Char.{code}
use Prim.Native.String.{String, compare, then}
use Prim.Native.String.compare
use mathlib.Core.Path.{◌≡◌, refl}
use mathlib.Core.Bool.{true, false}
use native.Mathlib.Omega.{arith}
use text.Mathlib.Text.{is_lt}

then_asym :
    (a b : ℕ) (o r : Ordering)
    → (is_lt o ≡ true → is_lt r ≡ false)
    → is_lt (then (compare_ℕ a b) o) ≡ true
    → is_lt (then (compare_ℕ b a) r) ≡ false
then_asym a b o r h e = ground (arith, e, h)

-- No string comes before one that comes before it.
pub string_asym : (s t : String) → is_lt (compare s t) ≡ true → is_lt (compare t s) ≡ false
string_asym String.[] String.[] e = refl
string_asym String.[] (String.◌∷◌ d t) e = rw (compare.cons-nil d t) refl
string_asym (String.◌∷◌ c s) String.[] e =
    let no : is_lt Ordering.gt ≡ true = rw (compare.cons-nil c s) at e in absurd (cc)
string_asym (String.◌∷◌ c s) (String.◌∷◌ d t) e =
    rw (compare.cons-cons d c t s)
      (then_asym (code c) (code d) _ _ (string_asym s t) (rw (compare.cons-cons c d s t) at e))
