-- ===== src/Base/Dict.antt =====
-- Dictionaries as association lists kept in the order of their keys: a Go map read by key, and a
-- directory, which `os.ReadDir` lists by name.
use mathlib.Core.Path.{◌≡◌, refl}
use mathlib.Core.Logic.{◌≢◌, inl, inr}
use mathlib.Core.Bool.{true, false}
use mathlib.Core.Option.{Option, none, some}
use mathlib.Core.List.{List, [], ◌∷◌}
use Prim.Native.Nat.{ℕ, ◌+◌}
use native.Mathlib.Omega.{arith}
use astra_store_xion.Base.Tests.{Key, if◌then◌else◌, Bool-cases}

abbrev pub Dict {ℓ κ} : Type ℓ → Type κ → Type (ℓ ⊔ κ)
Dict K V = List (K × V)

module _ {ℓ} {K : Type ℓ} ⦃key : Key K⦄ where
  pub beq_refl : (k : K) → key.beq k k ≡ true
  beq_refl k = (key.beq_iff k k).1 refl

  pub beq_ne : (j k : K) → j ≢ k → key.beq j k ≡ false
  beq_ne j k h = elim (Bool-cases (key.beq j k)) [
    | inl e ↦ absurd (h ((key.beq_iff j k).0 e))
    | inr e ↦ e
  ]

module _ {ℓ κ} {K : Type ℓ} ⦃key : Key K⦄ {V : Type κ} where
  unfoldable pub lookup : K → Dict K V → Option V
  lookup k [] = none
  lookup k ((j, v) ∷ m) = if key.beq j k then some v else lookup k m

  unfoldable pub insert : K → V → Dict K V → Dict K V
  insert k v [] = (k, v) ∷ []
  insert k v ((j, w) ∷ m) =
      if key.beq j k
      then (k, v) ∷ m
      else if key.before k j
      then (k, v) ∷ (j, w) ∷ m
      else (j, w) ∷ insert k v m

  unfoldable pub erase : K → Dict K V → Dict K V
  erase k [] = []
  erase k ((j, w) ∷ m) = let rest = erase k m in if key.beq j k then rest else (j, w) ∷ rest

  pub lookup-empty : (k : K) → ◌≡◌ {A = Option V} (lookup k []) none
  unfolding lookup
  lookup-empty k = refl

  pub lookup-insert :
      (k j : K) (v : V) (m : Dict K V)
      → lookup j (insert k v m) ≡ (if key.beq k j then some v else lookup j m)
  unfolding lookup insert
  lookup-insert k j v [] = refl
  lookup-insert k j v ((i, w) ∷ m) =
      ground (arith, key.beq_iff k j, key.beq_iff i k, key.beq_iff i j, lookup-insert k j v m)

  pub lookup-erase :
      (k j : K) (m : Dict K V) → lookup j (erase k m) ≡ (if key.beq k j then none else lookup j m)
  unfolding lookup erase
  lookup-erase k j [] = ground arith
  lookup-erase k j ((i, w) ∷ m) =
      ground (arith, key.beq_iff k j, key.beq_iff i k, key.beq_iff i j, lookup-erase k j m)

  pub lookup-insert_self : (k : K) (v : V) (m : Dict K V) → lookup k (insert k v m) ≡ some v
  lookup-insert_self k v m = rw (lookup-insert k k v m, beq_refl k)

  pub lookup-insert_ne :
      (k j : K) (v : V) (m : Dict K V) → k ≢ j → lookup j (insert k v m) ≡ lookup j m
  lookup-insert_ne k j v m h = rw (lookup-insert k j v m, beq_ne k j h)

  pub lookup-erase_self : (k : K) (m : Dict K V) → lookup k (erase k m) ≡ none
  lookup-erase_self k m = rw (lookup-erase k k m, beq_refl k)

  pub lookup-erase_ne : (k j : K) (m : Dict K V) → k ≢ j → lookup j (erase k m) ≡ lookup j m
  lookup-erase_ne k j m h = rw (lookup-erase k j m, beq_ne k j h)

  -- Erasing what is absent changes nothing.
  pub erase_absent : (k : K) (m : Dict K V) → lookup k m ≡ none → erase k m ≡ m
  unfolding lookup erase
  erase_absent k [] h = refl
  erase_absent k ((i, w) ∷ m) h = ground (arith, erase_absent k m)

  pub erase-insert : (k : K) (v : V) (m : Dict K V) → lookup k m ≡ none → erase k (insert k v m) ≡ m
  unfolding lookup insert erase
  erase-insert k v [] h = rw (beq_refl k)
  erase-insert k v ((i, w) ∷ m) h =
      ground (arith, key.beq_iff k k, erase-insert k v m, erase_absent k m)

  -- The second write of a key stands.
  pub insert-insert : (k : K) (v w : V) (m : Dict K V) → insert k v (insert k w m) ≡ insert k v m
  unfolding insert
  insert-insert k v w [] = rw (beq_refl k)
  insert-insert k v w ((i, x) ∷ m) = ground (arith, key.beq_iff k k, insert-insert k v w m)

  -- A scratch entry that is made, written and erased leaves no trace.
  pub erase-insert-insert :
      (k : K) (v w : V) (m : Dict K V) → lookup k m ≡ none → erase k (insert k v (insert k w m)) ≡ m
  erase-insert-insert k v w m h = rw (insert-insert k v w m) (erase-insert k v m h)

  -- A total over the entries.
  pub sum_by : (K → V → ℕ) → Dict K V → ℕ
  sum_by f [] = 0
  sum_by f ((k, v) ∷ m) = f k v + sum_by f m

  pub sum_by-insert :
      (f : K → V → ℕ) (k : K) (v : V) (m : Dict K V)
      → lookup k m ≡ none
      → sum_by f (insert k v m) ≡ sum_by f m + f k v
  unfolding lookup insert sum_by
  sum_by-insert f k v [] h = omega arith
  sum_by-insert f k v ((i, w) ∷ m) h = ground (arith, sum_by-insert f k v m)

  -- No key is listed twice.
  abbrev pub IsDistinct : Dict K V → Type κ
  IsDistinct [] = Unit
  IsDistinct ((k, v) ∷ m) = (lookup k m ≡ none) × IsDistinct m

  pub sum_by-erase :
      (f : K → V → ℕ) (k : K) (v : V) (m : Dict K V)
      → IsDistinct m
      → lookup k m ≡ some v
      → sum_by f (erase k m) + f k v ≡ sum_by f m
  unfolding lookup erase sum_by
  sum_by-erase f k v [] d h = cc
  sum_by-erase f k v ((i, w) ∷ m) d h =
      ground (arith, key.beq_iff i k, sum_by-erase f k v m d.1, erase_absent k m)

pub ruleset dict_laws = (lookup-insert, lookup-erase, beq_refl)
