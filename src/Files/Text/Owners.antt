-- ===== src/Files/Text/Owners.antt =====
-- The owner that a quota is kept for.
use Prim.Native.Char.{code}
use astra_store_xion.Base.{String, ◌≡◌, refl, false, inl, inr, arith, Bool-cases}
use astra_store_xion.Files.Text.{
  is_space, is_blank, trim_left, trim_right, trim_space, normalize_owner,
}

-- A text that does not begin with a space.
abbrev Starts : String → Type 0
Starts String.[] = Unit
Starts (String.◌∷◌ c s) = is_space (code c) ≡ false

trim_left-Starts : (s : String) → Starts (trim_left s)
unfolding trim_left
trim_left-Starts String.[] = tt
trim_left-Starts (String.◌∷◌ c s) = elim (Bool-cases (is_space (code c))) [
  | inl e ↦ rw e (trim_left-Starts s)
  | inr e ↦ rw e e
]

trim_left_of_Starts : (s : String) → Starts s → trim_left s ≡ s
unfolding trim_left
trim_left_of_Starts String.[] h = refl
trim_left_of_Starts (String.◌∷◌ c s) h = rw h

trim_right-Starts : (s : String) → Starts s → Starts (trim_right s)
unfolding trim_right
trim_right-Starts String.[] h = tt
trim_right-Starts (String.◌∷◌ c s) h = elim (Bool-cases (is_blank (trim_right s))) [
  | inl e ↦ rw (e, h) h
  | inr e ↦ rw e h
]

trim_right_idem : (s : String) → trim_right (trim_right s) ≡ trim_right s
unfolding trim_right
trim_right_idem String.[] = refl
trim_right_idem (String.◌∷◌ c s) = ground (arith, trim_right_idem s)

trim_space_idem : (s : String) → trim_space (trim_space s) ≡ trim_space s
unfolding trim_space
trim_space_idem s =
    rw
      (trim_left_of_Starts (trim_right (trim_left s))
        (trim_right-Starts (trim_left s) (trim_left-Starts s)))
      (trim_right_idem (trim_left s))

-- The name that stands for no owner is left as it is.
anonymous : trim_space "_anonymous" ≡ "_anonymous"
unfolding trim_space
anonymous = refl

-- The quota's key of an owner is a fixed point: normalising it again, as the accounting does, keeps
-- it, and it is never blank.
pub normalize_owner_idem :
    (owner : String)
    → (normalize_owner (normalize_owner owner) ≡ normalize_owner owner)
      × (is_blank (normalize_owner owner) ≡ false)
unfolding normalize_owner
normalize_owner_idem owner = elim (Bool-cases (is_blank (trim_space owner))) [
  | inl e ↦ rw e (rw anonymous, refl)
  | inr e ↦ rw e (rw (trim_space_idem owner, e), e)
]
