-- ===== src/Files/Text/Names.antt =====
-- What `cleanDisplayName` returns.
use Prim.Native.Char.{code}
use astra_store_xion.Base.{
  Bool, ℕ, ◌≢◌, ◌==◌, eq_iff, String, ◌≡◌, refl, false, ◌||◌, ◌⊎◌, inl, inr, arith, Bool-cases,
  str_eq,
}
use astra_store_xion.Files.Text.{
  is_blank, strip_slashes, has_slash, after_slash, base_name, is_dropped, drop_controls,
  clean_display_name, trim_space,
}

-- No carriage return, line feed or NUL.
abbrev pub IsShown : ℕ → Type 0
IsShown c = (c ≢ 13) × (c ≢ 10) × (c ≢ 0)

kept_IsShown : (c : ℕ) → is_dropped c ≡ false → IsShown c
unfolding is_dropped
kept_IsShown c e = (λ h. ground (arith, e, h), λ h. ground (arith, e, h), λ h. ground (arith, e, h))

abbrev pub IsClean : String → Type 0
IsClean String.[] = Unit
IsClean (String.◌∷◌ c s) = IsShown (code c) × IsClean s

drop_controls-IsClean : (s : String) → IsClean (drop_controls s)
unfolding drop_controls
drop_controls-IsClean String.[] = tt
drop_controls-IsClean (String.◌∷◌ c s) = elim (Bool-cases (is_dropped (code c))) [
  | inl e ↦ rw e (drop_controls-IsClean s)
  | inr e ↦ rw e (kept_IsShown (code c) e, drop_controls-IsClean s)
]

has_slash-after_slash : (s : String) → has_slash (after_slash s) ≡ false
unfolding has_slash after_slash
has_slash-after_slash String.[] = refl
has_slash-after_slash (String.◌∷◌ c s) = ground (arith, has_slash-after_slash s)

has_slash-drop_controls : (s : String) → has_slash s ≡ false → has_slash (drop_controls s) ≡ false
unfolding has_slash drop_controls
has_slash-drop_controls String.[] h = refl
has_slash-drop_controls (String.◌∷◌ c s) h = ground (arith, has_slash-drop_controls s)

-- A base name holds no separator, unless it is the root.
base_name_cases : (s : String) → (base_name s ≡ "/") ⊎ (has_slash (base_name s) ≡ false)
unfolding base_name
base_name_cases s = elim (Bool-cases (is_blank s)) [
  | inl e ↦ inr (rw e (unfold has_slash in refl))
  | inr e ↦ elim (Bool-cases (is_blank (after_slash (strip_slashes s)))) [
    | inl f ↦ inl (rw (e, f))
    | inr f ↦ inr (rw (e, f) (has_slash-after_slash (strip_slashes s)))
  ]
]

keeps_slashes :
    (s : String)
    → (s ≡ "/") ⊎ (has_slash s ≡ false)
    → (drop_controls s ≡ "/") ⊎ (has_slash (drop_controls s) ≡ false)
keeps_slashes s (inl e) = inl (rw e (unfold drop_controls in refl))
keeps_slashes s (inr e) = inr (has_slash-drop_controls s e)

-- No separator.
abbrev pub IsFlat : String → Type 0
IsFlat String.[] = Unit
IsFlat (String.◌∷◌ c s) = (code c ≢ b'/') × IsFlat s

flat_slash : (c : ℕ) (b : Bool) → ((c == b'/') || b) ≡ false → (c ≢ b'/') × (b ≡ false)
flat_slash c b e = (λ h. ground (arith, e, h), ground (arith, e))

has_slash-IsFlat : (s : String) → has_slash s ≡ false → IsFlat s
unfolding has_slash
has_slash-IsFlat String.[] e = tt
has_slash-IsFlat (String.◌∷◌ c s) e =
    let parts = flat_slash (code c) (has_slash s) e in (parts.0, has_slash-IsFlat s parts.1)

named : (s : String) → (s ≡ "/") ⊎ (has_slash s ≡ false) → (s ≡ "/") ⊎ IsFlat s
named s (inl e) = inl e
named s (inr e) = inr (has_slash-IsFlat s e)

nondot : (s : String) → str_eq s "." ≡ false → s ≢ "."
nondot s e h = let t = (eq_iff s ".").1 h in cc

-- The name that stands for an empty one.
file-IsClean : IsClean "file"
unfolding is_dropped
file-IsClean = (
  kept_IsShown 102 refl,
  (kept_IsShown 105 refl, (kept_IsShown 108 refl, (kept_IsShown 101 refl, tt))),
)

file-IsFlat : IsFlat "file"
unfolding has_slash
file-IsFlat = has_slash-IsFlat "file" refl

or-false : (a b : Bool) → (a || b) ≡ false → (a ≡ false) × (b ≡ false)
or-false a b e = (ground (arith, e), ground (arith, e))

nonblank : (s : String) → is_blank s ≡ false → s ≢ ""
nonblank s e h = cc

-- A display name is never empty nor `.`, holds no line break or NUL, and holds a separator only if
-- it is the root itself.
pub clean_display_name_safe :
    (name : String)
    → (clean_display_name name ≢ "")
      × (clean_display_name name ≢ ".")
      × IsClean (clean_display_name name)
      × ((clean_display_name name ≡ "/") ⊎ IsFlat (clean_display_name name))
unfolding clean_display_name
clean_display_name_safe name =
    let raw = base_name (trim_space name) in
    elim (Bool-cases (is_blank (drop_controls raw) || str_eq (drop_controls raw) ".")) [
      | inl e ↦ rw e (nonblank "file" refl, nondot "file" refl, file-IsClean, inr file-IsFlat)
      | inr e ↦
          let parts = or-false (is_blank (drop_controls raw)) (str_eq (drop_controls raw) ".") e in
          rw e (
            nonblank (drop_controls raw) parts.0,
            nondot (drop_controls raw) parts.1,
            drop_controls-IsClean raw,
            named (drop_controls raw) (keeps_slashes raw (base_name_cases (trim_space name))),
          )
    ]
