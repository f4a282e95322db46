-- ===== src/Gateway/Text.antt =====
-- What the gateway reads from texts: `queryInteger`, `parseContentRange`, the bearer token of
-- `authenticate`, and `strconv.ParseInt` in base 10.
use Prim.Native.Char.{code}
use astra_store_xion.Base.{
  ℕ, ◌+◌, ◌-◌, ◌*◌, ◌^◌, String, Bool, false, ◌&&◌, ◌||◌, Option, none, some, List, [], ◌∷◌, ltb,
  leb, ◌==◌, string_key, if◌then◌else◌,
}
use astra_store_xion.Base.Int64.{Int64, neg, is_neg, lt64, le64}
use astra_store_xion.Files.Text.{codes, is_blank, trim_space, or_empty}

unfoldable pub is_digit : ℕ → Bool
is_digit c = leb b'0' c && leb c b'9'

unfoldable pub parse_digits : ℕ → List ℕ → Option ℕ
parse_digits n [] = some n
parse_digits n (c ∷ cs) =
    let rest = parse_digits (n * 10 + (c - b'0')) cs in if is_digit c then rest else none

abbrev pub parse_uint : List ℕ → Option ℕ
parse_uint [] = none
parse_uint (c ∷ cs) = parse_digits 0 (c ∷ cs)

abbrev pub positive : Option ℕ → Option Int64
positive none = none
positive (some n) = if ltb n (2 ^ 63) then some n else none

abbrev pub negative : Option ℕ → Option Int64
negative none = none
negative (some n) = if leb n (2 ^ 63) then some (neg n) else none

-- `strconv.ParseInt(s, 10, 64)`
unfoldable pub parse_int : List ℕ → Option Int64
parse_int [] = none
parse_int (c ∷ cs) =
    if c == b'-'
    then negative (parse_uint cs)
    else if c == b'+'
    then positive (parse_uint cs)
    else positive (parse_uint (c ∷ cs))

unfoldable pub query_integer : String → Int64 → Option Int64
query_integer value default = if is_blank value then some default else parse_int (codes value)

abbrev pub onto_head : ℕ → List (List ℕ) → List (List ℕ)
onto_head c [] = (c ∷ []) ∷ []
onto_head c (part ∷ parts) = (c ∷ part) ∷ parts

-- `strings.Split` at one character
unfoldable pub split_at : ℕ → List ℕ → List (List ℕ)
split_at c [] = [] ∷ []
split_at c (x ∷ xs) = let rest = split_at c xs in if x == c then [] ∷ rest else onto_head x rest

-- What follows the prefix, which is the first text.
unfoldable pub strip_prefix : String → String → Option String
strip_prefix String.[] s = some s
strip_prefix (String.◌∷◌ p ps) String.[] = none
strip_prefix (String.◌∷◌ p ps) (String.◌∷◌ c s) =
    let rest = strip_prefix ps s in if code c == code p then rest else none

abbrev pub checked_range :
    Option Int64 → Option Int64 → Option Int64 → Option (Int64 × Int64 × Int64)
checked_range (some start) (some end) (some total) =
    if is_neg start || lt64 end start || le64 total end then none else some (start, end, total)
checked_range _ _ _ = none

abbrev pub range_of : List (List ℕ) → List ℕ → Option (Int64 × Int64 × Int64)
range_of (start ∷ end ∷ []) total =
    checked_range (parse_int start) (parse_int end) (parse_int total)
range_of _ total = none

abbrev pub is_star : List ℕ → Bool
is_star (c ∷ []) = c == b'*'
is_star _ = false

abbrev pub range_in : List (List ℕ) → Option (Int64 × Int64 × Int64)
range_in (range ∷ total ∷ []) = if is_star total then none else range_of (split_at b'-' range) total
range_in _ = none

abbrev pub range_after : Option String → Option (Int64 × Int64 × Int64)
range_after none = none
range_after (some s) = range_in (split_at b'/' (codes s))

unfoldable pub parse_content_range : String → Option (Int64 × Int64 × Int64)
parse_content_range value = range_after (strip_prefix "bytes " (trim_space value))

-- The token of an `Authorization` header; a header of another scheme provides none.
unfoldable pub provided_token : String → String
provided_token header = or_empty (strip_prefix "Bearer " header)
