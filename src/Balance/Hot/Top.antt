-- ===== src/Balance/Hot/Top.antt =====
-- What `GetHotFiles` leaves out.
use mathlib.Core.List.{Perm}
use astra_store_xion.Base.Dict.{Dict}
use astra_store_xion.Base.{
  ◌⊎◌, String, if◌then◌else◌, sym, ap, ℕ, zero, suc, ◌≤◌, ◌≡◌, refl, true, false, List, [], ◌∷◌,
  ◌++◌, arith, length, take, drop, leb, All, Bool-cases, inl, inr, string_key,
}
use astra_store_xion.Base.Int64.{Int64, lt64, le64}
use astra_store_xion.Base.Sort.{IsOrdered, sort_by, sort_by-IsOrdered, sort_by-Perm}
use astra_store_xion.Balance.Model.{HotFile, FileAccess, Balancer}
use astra_store_xion.Balance.Hot.{hot_files, hotter, hot_limit, get_hot_files}

-- A hot file is read no more often than any file of the list.
abbrev pub Tops : List HotFile → HotFile → Type 0
Tops fs g = All (λ f. lt64 f.access_count g.access_count ≡ false) fs

abbrev sorted_hot : {F : Type 0} → Balancer F → List HotFile
sorted_hot b = sort_by hotter (hot_files b.config.hot_file_threshold b.file_access)

-- The files of the accesses whose count is not below the threshold, as signed numbers.
pub data Selects (threshold : Int64) : Dict String FileAccess → List HotFile → Type 0 where
  none_left : Selects threshold [] []
  taken :
      {m : Dict String FileAccess} {fs : List HotFile} (id : String) (info : FileAccess)
      → lt64 info.accesses threshold ≡ false
      → Selects threshold m fs
      → Selects threshold ((id, info) ∷ m) (
          record { file_id = id; access_count = info.accesses; last_access = info.accessed_at }
          ∷ fs)
  passed_over :
      {m : Dict String FileAccess} {fs : List HotFile} (id : String) (info : FileAccess)
      → lt64 info.accesses threshold ≡ true
      → Selects threshold m fs
      → Selects threshold ((id, info) ∷ m) fs

-- The counts fall or stay.
abbrev pub Falls : List HotFile → Type 0
Falls [] = Unit
Falls (f ∷ []) = Unit
Falls (f ∷ g ∷ fs) = (lt64 f.access_count g.access_count ≡ false) × Falls (g ∷ fs)

IsOrdered-Falls : (fs : List HotFile) → IsOrdered hotter fs → Falls fs
unfolding hotter
IsOrdered-Falls [] o = tt
IsOrdered-Falls (f ∷ []) o = tt
IsOrdered-Falls (f ∷ g ∷ fs) o = (o.0, IsOrdered-Falls (g ∷ fs) o.1)

reached : (t c : Int64) → le64 t c ≡ true → lt64 c t ≡ false
unfolding le64 lt64
reached t c e = ground (arith, e)

missed : (t c : Int64) → le64 t c ≡ false → lt64 c t ≡ true
unfolding le64 lt64
missed t c e = ground (arith, e)

hot_files-Selects :
    (threshold : Int64) (m : Dict String FileAccess) → Selects threshold m (hot_files threshold m)
unfolding hot_files
hot_files-Selects threshold [] = none_left
hot_files-Selects threshold ((id, info) ∷ m) = elim (Bool-cases (le64 threshold info.accesses)) [
  | inl e ↦ rw e (taken id info (reached threshold info.accesses e) (hot_files-Selects threshold m))
  | inr e ↦
      rw e (passed_over id info (missed threshold info.accesses e) (hot_files-Selects threshold m))
]

-- The number that is asked for.
abbrev pub wanted : Int64 → ℕ
wanted limit = if lt64 0 limit then limit else 10

hot_limit-wanted : (limit : Int64) → hot_limit limit ≡ wanted limit
unfolding hot_limit le64 lt64
hot_limit-wanted limit = ground arith

all_or_full : (n : ℕ) (xs : List HotFile) → (drop n xs ≡ []) ⊎ (length (take n xs) ≡ n)
all_or_full zero xs = inr refl
all_or_full (suc n) [] = inl refl
all_or_full (suc n) (x ∷ xs) = elim (all_or_full n xs) [ inl e ↦ inl e | inr e ↦ inr (ap suc e) ]

take-all : {A : Type 0} (n : ℕ) (xs : List A) → length xs ≤ n → take n xs ≡ xs
take-all zero [] h = refl
take-all zero (x ∷ xs) h = absurd (omega arith)
take-all (suc n) [] h = refl
take-all (suc n) (x ∷ xs) h = ap (◌∷◌ x) (take-all n xs (omega arith))

take-append-drop : {A : Type 0} (n : ℕ) (xs : List A) → take n xs ++ drop n xs ≡ xs
take-append-drop zero xs = refl
take-append-drop (suc n) [] = refl
take-append-drop (suc n) (x ∷ xs) = ap (◌∷◌ x) (take-append-drop n xs)

hotter_asym : (f g : HotFile) → hotter f g ≡ true → hotter g f ≡ false
unfolding hotter lt64
hotter_asym f g e = ground (arith, e)

not_hotter_trans :
    (f g h : HotFile)
    → lt64 f.access_count g.access_count ≡ false
    → lt64 g.access_count h.access_count ≡ false
    → lt64 f.access_count h.access_count ≡ false
unfolding lt64
not_hotter_trans f g h p q = ground (arith, p, q)

-- None of the files is read more often than the first.
abbrev Heads : HotFile → List HotFile → Type 0
Heads f gs = All (λ (g : HotFile). lt64 f.access_count g.access_count ≡ false) gs

Heads-trans :
    (f g : HotFile) (hs : List HotFile)
    → lt64 f.access_count g.access_count ≡ false
    → Heads g hs
    → Heads f hs
Heads-trans f g [] e a = tt
Heads-trans f g (h ∷ hs) e a = (not_hotter_trans f g h e a.0, Heads-trans f g hs e a.1)

IsOrdered-Heads : (f : HotFile) (fs : List HotFile) → IsOrdered hotter (f ∷ fs) → Heads f fs
unfolding hotter
IsOrdered-Heads f [] o = tt
IsOrdered-Heads f (g ∷ gs) o = (o.0, Heads-trans f g gs o.0 (IsOrdered-Heads g gs o.1))

Heads-drop : (f : HotFile) (n : ℕ) (gs : List HotFile) → Heads f gs → Heads f (drop n gs)
Heads-drop f zero gs a = a
Heads-drop f (suc n) [] a = tt
Heads-drop f (suc n) (g ∷ gs) a = Heads-drop f n gs a.1

nothing_above : (gs : List HotFile) → All (Tops []) gs
nothing_above [] = tt
nothing_above (g ∷ gs) = (tt, nothing_above gs)

Tops-cons :
    (f : HotFile) (fs gs : List HotFile) → Heads f gs → All (Tops fs) gs → All (Tops (f ∷ fs)) gs
Tops-cons f fs [] a b = tt
Tops-cons f fs (g ∷ gs) a b = ((a.0, b.0), Tops-cons f fs gs a.1 b.1)

take-Tops-drop :
    (n : ℕ) (fs : List HotFile) → IsOrdered hotter fs → All (Tops (take n fs)) (drop n fs)
take-Tops-drop zero fs o = nothing_above fs
take-Tops-drop (suc n) [] o = tt
take-Tops-drop (suc n) (f ∷ fs) o =
    Tops-cons f (take n fs) (drop n fs) (Heads-drop f n fs (IsOrdered-Heads f fs o))
      (take-Tops-drop n fs o.1)

take-IsOrdered : (n : ℕ) (fs : List HotFile) → IsOrdered hotter fs → IsOrdered hotter (take n fs)
take-IsOrdered zero fs o = tt
take-IsOrdered (suc n) [] o = tt
take-IsOrdered (suc zero) (f ∷ []) o = o
take-IsOrdered (suc (suc n)) (f ∷ []) o = o
take-IsOrdered (suc zero) (f ∷ g ∷ fs) o = (tt, tt)
take-IsOrdered (suc (suc n)) (f ∷ g ∷ fs) o = (o.0, take-IsOrdered (suc n) (g ∷ fs) o.1)

module _ {F : Type 0} where
  get_hot_files-take :
      (limit : Int64) (b : Balancer F)
      → get_hot_files limit b ≡ take (hot_limit limit) (sorted_hot b)
  unfolding get_hot_files
  get_hot_files-take limit b = elim (Bool-cases (leb (length (sorted_hot b)) (hot_limit limit))) [
    | inl e ↦ rw e (sym (take-all (hot_limit limit) (sorted_hot b) (ground (arith, e))))
    | inr e ↦ rw e refl
  ]

  hot_files_sorted :
      (limit : Int64) (b : Balancer F)
      → Perm
          (get_hot_files limit b ++ drop (hot_limit limit) (sorted_hot b))
          (hot_files b.config.hot_file_threshold b.file_access)
  hot_files_sorted limit b =
      rw (get_hot_files-take limit b, take-append-drop (hot_limit limit) (sorted_hot b))
        (sort_by-Perm hotter (hot_files b.config.hot_file_threshold b.file_access))

  -- What `GetHotFiles` returns and some files that it leaves out are the files of the accesses whose
  -- count is not below the threshold, each once with its count and time; the counts that it returns
  -- fall, none of those left out is greater than one returned; and either nothing is left out or as
  -- many are returned as were asked for: the limit, or 10 where it is not positive.
  pub get_hot_files_top :
      (limit : Int64) (b : Balancer F)
      → (hot out : List HotFile) × Selects b.config.hot_file_threshold b.file_access hot
        × Perm (get_hot_files limit b ++ out) hot
        × Falls (get_hot_files limit b)
        × All (Tops (get_hot_files limit b)) out
        × ((out ≡ []) ⊎ (length (get_hot_files limit b) ≡ wanted limit))
  get_hot_files_top limit b =
      let hot = hot_files b.config.hot_file_threshold b.file_access in
      let sorted = sort_by hotter hot in
      let o = sort_by-IsOrdered hotter hotter_asym hot in
      (
        hot,
        drop (hot_limit limit) sorted,
        hot_files-Selects b.config.hot_file_threshold b.file_access,
        hot_files_sorted limit b,
        rw (get_hot_files-take limit b)
            (IsOrdered-Falls _ (take-IsOrdered (hot_limit limit) sorted o)),
        rw (get_hot_files-take limit b) (take-Tops-drop (hot_limit limit) sorted o),
        rw (get_hot_files-take limit b, sym (hot_limit-wanted limit))
            (all_or_full (hot_limit limit) sorted),
      )
