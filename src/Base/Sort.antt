-- ===== src/Base/Sort.antt =====
-- `sort.Slice` of Go, as an insertion sort by the order that the caller gives.
use Prim.Native.Nat.{suc}
use mathlib.Core.Path.{◌≡◌, refl, ap, ◌∙◌}
use astra_store_xion.Base.Lists.{length}
use mathlib.Core.Logic.{inl, inr}
use mathlib.Core.Bool.{Bool, true, false}
use mathlib.Core.List.{List, [], ◌∷◌, Perm}
use mathlib.Core.List.Perm
use astra_store_xion.Base.Tests.{if◌then◌else◌, Bool-cases}

module _ {ℓ} {A : Type ℓ} where
  unfoldable pub insert_by : (A → A → Bool) → A → List A → List A
  insert_by less x [] = x ∷ []
  insert_by less x (y ∷ ys) =
      let rest = insert_by less x ys in if less x y then x ∷ y ∷ ys else y ∷ rest

  unfoldable pub sort_by : (A → A → Bool) → List A → List A
  sort_by less [] = []
  sort_by less (x ∷ xs) = insert_by less x (sort_by less xs)

  pub insert_by-Perm :
      (less : A → A → Bool) (x : A) (xs : List A) → Perm (insert_by less x xs) (x ∷ xs)
  unfolding insert_by
  insert_by-Perm less x [] = Perm.refl (x ∷ [])
  insert_by-Perm less x (y ∷ ys) = elim (Bool-cases (less x y)) [
    | inl e ↦ rw e (Perm.refl (x ∷ y ∷ ys))
    | inr e ↦ rw e (Perm.trans (Perm.cons y (insert_by-Perm less x ys)) (Perm.swap x y ys))
  ]

  -- Sorting loses nothing and adds nothing.
  pub sort_by-Perm : (less : A → A → Bool) (xs : List A) → Perm (sort_by less xs) xs
  unfolding sort_by
  sort_by-Perm less [] = Perm.refl []
  sort_by-Perm less (x ∷ xs) =
      Perm.trans (insert_by-Perm less x (sort_by less xs)) (Perm.cons x (sort_by-Perm less xs))

  -- Neighbours are in order: the later one does not come before the earlier one.
  abbrev pub Follows : (A → A → Bool) → A → List A → Type 0
  Follows less x [] = Unit
  Follows less x (y ∷ ys) = less y x ≡ false

  abbrev pub IsOrdered : (A → A → Bool) → List A → Type 0
  IsOrdered less [] = Unit
  IsOrdered less (x ∷ xs) = Follows less x xs × IsOrdered less xs

  module _ (less : A → A → Bool) (asym : (x y : A) → less x y ≡ true → less y x ≡ false) where
    Follows-insert_by :
        (x y : A) (ys : List A)
        → less x y ≡ false
        → Follows less y ys
        → Follows less y (insert_by less x ys)
    unfolding insert_by
    Follows-insert_by x y [] e h = e
    Follows-insert_by x y (z ∷ zs) e h = elim (Bool-cases (less x z)) [
      | inl t ↦ rw t e
      | inr t ↦ rw t h
    ]

    insert_by-IsOrdered :
        (x : A) (ys : List A) → IsOrdered less ys → IsOrdered less (insert_by less x ys)
    unfolding insert_by
    insert_by-IsOrdered x [] h = (tt, tt)
    insert_by-IsOrdered x (y ∷ ys) h = elim (Bool-cases (less x y)) [
      | inl t ↦ rw t (asym x y t, h)
      | inr t ↦ rw t (Follows-insert_by x y ys t h.0, insert_by-IsOrdered x ys h.1)
    ]

    -- The result is in order, as long as the order is asymmetric.
    pub sort_by-IsOrdered : (xs : List A) → IsOrdered less (sort_by less xs)
    unfolding sort_by
    sort_by-IsOrdered [] = tt
    sort_by-IsOrdered (x ∷ xs) = insert_by-IsOrdered x (sort_by less xs) (sort_by-IsOrdered xs)

module _ {ℓ} {A : Type ℓ} (less : A → A → Bool) where
  length-insert_by : (x : A) (xs : List A) → length (insert_by less x xs) ≡ suc (length xs)
  unfolding insert_by
  length-insert_by x [] = refl
  length-insert_by x (y ∷ ys) = elim (Bool-cases (less x y)) [
    | inl e ↦ rw e refl
    | inr e ↦ rw e (ap suc (length-insert_by x ys))
  ]

  pub length-sort_by : (xs : List A) → length (sort_by less xs) ≡ length xs
  unfolding sort_by
  length-sort_by [] = refl
  length-sort_by (x ∷ xs) = length-insert_by x (sort_by less xs) ∙ ap suc (length-sort_by xs)
