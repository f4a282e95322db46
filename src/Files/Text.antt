-- ===== src/Files/Text.antt =====
-- The text functions of pkg/files/store.go: file ids, owners, display names, checksums.
pub mod Ids
pub mod Owners
pub mod Names
use Prim.Native.Char.{Char, code}
use Prim.Native.String.{len}
use astra_store_xion.Base.{
  ℕ, zero, suc, ◌-◌, String, Bool, true, false, ◌&&◌, ◌||◌, not, Option, none, some, List, [], ◌∷◌,
  leb, ◌==◌, string_key, str_eq, if◌then◌else◌,
}
use astra_store_xion.Base.Dict.{Dict, lookup}

-- The code points of a text: its bytes, if it is ASCII.
abbrev pub codes : String → List ℕ
codes String.[] = []
codes (String.◌∷◌ c s) = code c ∷ codes s

-- [0-9a-f]
unfoldable pub is_hex : ℕ → Bool
is_hex c = (leb b'0' c && leb c b'9') || (leb b'a' c && leb c b'f')

-- `[0-9a-f]{n}`: what follows the n digits.
unfoldable pub hex_run : ℕ → List ℕ → Option (List ℕ)
unfolding is_hex
hex_run zero cs = some cs
hex_run (suc n) [] = none
hex_run (suc n) (c ∷ cs) = let rest = hex_run n cs in if is_hex c then rest else none

abbrev pub dash : List ℕ → Option (List ℕ)
dash [] = none
dash (c ∷ cs) = if c == b'-' then some cs else none

infixl 5 ◌>>=◌
abbrev pub ◌>>=◌ : {A B : Type 0} → Option A → (A → Option B) → Option B
none >>= f = none
some a >>= f = f a

-- The expression `validFileID`, anchored at both ends.
unfoldable pub match_file_id : List ℕ → Option (List ℕ)
unfolding hex_run
match_file_id cs = do
  a ← hex_run 8 cs
  b ← dash a
  c ← hex_run 4 b
  d ← dash c
  e ← hex_run 4 d
  f ← dash e
  g ← hex_run 4 f
  h ← dash g
  hex_run 12 h

abbrev pub is_end : Option (List ℕ) → Bool
is_end none = false
is_end (some []) = true
is_end (some (c ∷ cs)) = false

-- `validateID(id) == nil`
unfoldable pub valid_id : String → Bool
unfolding match_file_id
valid_id id = is_end (match_file_id (codes id))

-- `unicode.IsSpace`
unfoldable pub is_space : ℕ → Bool
is_space c =
    (leb 9 c && leb c 13)
    || c == 32
    || c == 0x85
    || c == 0xa0
    || c == 0x1680
    || (leb 0x2000 c && leb c 0x200a)
    || c == 0x2028
    || c == 0x2029
    || c == 0x202f
    || c == 0x205f
    || c == 0x3000

unfoldable pub trim_left : String → String
unfolding is_space
trim_left String.[] = String.[]
trim_left (String.◌∷◌ c s) =
    let rest = trim_left s in if is_space (code c) then rest else String.◌∷◌ c s

abbrev pub is_blank : String → Bool
is_blank String.[] = true
is_blank (String.◌∷◌ c s) = false

unfoldable pub trim_right : String → String
unfolding is_space
trim_right String.[] = String.[]
trim_right (String.◌∷◌ c s) =
    let rest = trim_right s in
    if is_blank rest && is_space (code c) then String.[] else String.◌∷◌ c rest

-- `strings.TrimSpace`
unfoldable pub trim_space : String → String
unfolding trim_left trim_right
trim_space s = trim_right (trim_left s)

unfoldable pub normalize_owner : String → String
unfolding trim_space
normalize_owner owner = let t = trim_space owner in if is_blank t then "_anonymous" else t

abbrev pub or_empty : Option String → String
or_empty none = ""
or_empty (some s) = s

unfoldable pub owner_from_metadata : Dict String String → String
unfolding normalize_owner lookup
owner_from_metadata metadata = normalize_owner (or_empty (lookup "owner" metadata))

-- A hexadecimal digit of either case, as `hex.DecodeString` reads it.
unfoldable pub is_hex_digit : ℕ → Bool
unfolding is_hex
is_hex_digit c = is_hex c || (leb b'A' c && leb c b'F')

unfoldable pub all_hex : List ℕ → Bool
unfolding is_hex_digit
all_hex [] = true
all_hex (c ∷ cs) = is_hex_digit c && all_hex cs

unfoldable pub is_sha256 : String → Bool
unfolding all_hex
is_sha256 value = len value == 64 && all_hex (codes value)

-- `strings.ToLower` of a hexadecimal digit
abbrev pub lower_digit : Char → Char
lower_digit c =
    if code c == b'A'
    then "a"
    else if code c == b'B'
    then "b"
    else if code c == b'C'
    then "c"
    else if code c == b'D'
    then "d"
    else if code c == b'E'
    then "e"
    else if code c == b'F'
    then "f"
    else c

unfoldable pub to_lower : String → String
to_lower String.[] = String.[]
to_lower (String.◌∷◌ c s) = String.◌∷◌ (lower_digit c) (to_lower s)

-- `strings.EqualFold` of two texts of which one is hexadecimal
unfoldable pub equal_fold : String → String → Bool
unfolding to_lower
equal_fold a b = str_eq (to_lower a) (to_lower b)

abbrev pub is_slash : Char → Bool
is_slash c = code c == b'/'

unfoldable pub strip_slashes : String → String
strip_slashes String.[] = String.[]
strip_slashes (String.◌∷◌ c s) =
    let rest = strip_slashes s in
    if is_blank rest && is_slash c then String.[] else String.◌∷◌ c rest

unfoldable pub has_slash : String → Bool
has_slash String.[] = false
has_slash (String.◌∷◌ c s) = is_slash c || has_slash s

unfoldable pub after_slash : String → String
unfolding has_slash
after_slash String.[] = String.[]
after_slash (String.◌∷◌ c s) =
    let rest = after_slash s in
    if has_slash s then rest else if is_slash c then s else String.◌∷◌ c s

-- `filepath.Base` where the separator is `/`
unfoldable pub base_name : String → String
unfolding strip_slashes after_slash
base_name path =
    if is_blank path
    then "."
    else let last = after_slash (strip_slashes path) in if is_blank last then "/" else last

-- The characters that `strings.Map` drops.
unfoldable pub is_dropped : ℕ → Bool
is_dropped c = c == 13 || c == 10 || c == 0

unfoldable pub drop_controls : String → String
unfolding is_dropped
drop_controls String.[] = String.[]
drop_controls (String.◌∷◌ c s) =
    let rest = drop_controls s in if is_dropped (code c) then rest else String.◌∷◌ c rest

unfoldable pub clean_display_name : String → String
unfolding trim_space base_name drop_controls
clean_display_name name =
    let cleaned = drop_controls (base_name (trim_space name)) in
    if is_blank cleaned || str_eq cleaned "." then "file" else cleaned
