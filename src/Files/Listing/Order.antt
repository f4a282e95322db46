-- ===== src/Files/Listing/Order.antt =====
-- The insertion sort of `ListUploads`.
use mathlib.Core.List.{Perm, perm_middle}
use mathlib.Core.List.Perm
use astra_store_xion.Base.{
  ◌≤◌, ◌≡◌, refl, List, [], ◌∷◌, ◌++◌, arith, Bool-cases, inl, inr, subst, ap,
}
use astra_store_xion.Files.Model.{UploadSession}
use astra_store_xion.Files.Listing.{
  later_updated, sink, sort_onto, reverse_onto, sort_sessions_by_updated,
}

abbrev AtMost : UploadSession → List UploadSession → Type 0
AtMost s [] = Unit
AtMost s (t ∷ ts) = s.updated_at ≤ t.updated_at

-- Oldest first.
abbrev IsRising : List UploadSession → Type 0
IsRising [] = Unit
IsRising (s ∷ ss) = AtMost s ss × IsRising ss

abbrev pub AtLeast : UploadSession → List UploadSession → Type 0
AtLeast s [] = Unit
AtLeast s (t ∷ ts) = t.updated_at ≤ s.updated_at

-- Newest first.
abbrev pub IsFalling : List UploadSession → Type 0
IsFalling [] = Unit
IsFalling (s ∷ ss) = AtLeast s ss × IsFalling ss

AtMost-sink :
    (t s : UploadSession) (ts : List UploadSession)
    → t.updated_at ≤ s.updated_at
    → AtMost t ts
    → AtMost t (sink s ts)
unfolding sink
AtMost-sink t s [] le h = le
AtMost-sink t s (u ∷ ts) le h = elim (Bool-cases (later_updated s u)) [
  | inl e ↦ rw e h
  | inr e ↦ rw e le
]

sink-IsRising : (s : UploadSession) (ts : List UploadSession) → IsRising ts → IsRising (sink s ts)
unfolding sink later_updated
sink-IsRising s [] h = (tt, tt)
sink-IsRising s (t ∷ ts) (first, rest) = elim (Bool-cases (later_updated s t)) [
  | inl e ↦
      let le : t.updated_at ≤ s.updated_at = ground (arith, e) in
      rw e (AtMost-sink t s ts le first, sink-IsRising s ts rest)
  | inr e ↦ let le : s.updated_at ≤ t.updated_at = ground (arith, e) in rw e (le, (first, rest))
]

sort_onto-IsRising : (acc ss : List UploadSession) → IsRising acc → IsRising (sort_onto acc ss)
unfolding sort_onto
sort_onto-IsRising acc [] h = h
sort_onto-IsRising acc (s ∷ ss) h = sort_onto-IsRising (sink s acc) ss (sink-IsRising s acc h)

abbrev Joins : List UploadSession → List UploadSession → Type 0
Joins [] acc = Unit
Joins (s ∷ ss) acc = AtLeast s acc

reverse_onto-IsFalling :
    (acc ss : List UploadSession)
    → IsRising ss
    → IsFalling acc
    → Joins ss acc
    → IsFalling (reverse_onto acc ss)
reverse_onto-IsFalling acc [] up down j = down
reverse_onto-IsFalling acc (s ∷ []) up down j = (j, down)
reverse_onto-IsFalling acc (s ∷ t ∷ ss) (le, up) down j =
    reverse_onto-IsFalling (s ∷ acc) (t ∷ ss) up (j, down) le

sink-Perm : (s : UploadSession) (ts : List UploadSession) → Perm (sink s ts) (s ∷ ts)
unfolding sink
sink-Perm s [] = Perm.refl (s ∷ [])
sink-Perm s (t ∷ ts) = elim (Bool-cases (later_updated s t)) [
  | inl e ↦ rw e (Perm.trans (Perm.cons t (sink-Perm s ts)) (Perm.swap s t ts))
  | inr e ↦ rw e (Perm.refl (s ∷ t ∷ ts))
]

sort_onto-Perm : (acc ss : List UploadSession) → Perm (sort_onto acc ss) (ss ++ acc)
unfolding sort_onto
sort_onto-Perm acc [] = Perm.refl acc
sort_onto-Perm acc (s ∷ ss) =
    Perm.trans (sort_onto-Perm (sink s acc) ss)
      (Perm.trans (Perm.append_left ss (sink-Perm s acc)) (perm_middle ss acc))

reverse_onto-Perm : (acc ss : List UploadSession) → Perm (reverse_onto acc ss) (ss ++ acc)
reverse_onto-Perm acc [] = Perm.refl acc
reverse_onto-Perm acc (s ∷ ss) = Perm.trans (reverse_onto-Perm (s ∷ acc) ss) (perm_middle ss acc)

append_nil : (ss : List UploadSession) → ss ++ [] ≡ ss
append_nil [] = refl
append_nil (s ∷ ss) = ap (◌∷◌ s) (append_nil ss)

-- The sort of the upload sessions returns the sessions that it was given, the most recently updated
-- first.
pub sort_sessions_newest_first :
    (ss : List UploadSession)
    → IsFalling (sort_sessions_by_updated ss) × Perm (sort_sessions_by_updated ss) ss
unfolding sort_sessions_by_updated
sort_sessions_newest_first ss =
    let sorted = sort_onto [] ss in
    let moved : Perm (reverse_onto [] sorted) sorted =
      subst (Perm (reverse_onto [] sorted)) (append_nil sorted) (reverse_onto-Perm [] sorted) in
    let same : Perm sorted ss = subst (Perm sorted) (append_nil ss) (sort_onto-Perm [] ss) in
    (
      reverse_onto-IsFalling [] sorted (sort_onto-IsRising [] ss tt) tt (joins sorted),
      Perm.trans moved same,
    )
  where
    joins : (ts : List UploadSession) → Joins ts []
    joins [] = tt
    joins (t ∷ ts) = tt
