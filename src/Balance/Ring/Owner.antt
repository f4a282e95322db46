-- ===== src/Balance/Ring/Owner.antt =====
-- Who owns a hash: the node of the first virtual node clockwise, on the ring itself, without the
-- sorted keys and the search.
use astra_store_xion.Base.{
  is_some, ap, Option-cases, sym, ℕ, zero, suc, ◌-◌, ◌≤◌, ◌<◌, ◌≡◌, refl, String, Bool, true, false,
  ◌||◌, Option, none, some, List, [], ◌∷◌, ◌∙◌, sym, arith, ltb, leb, ◌==◌, length, Bool-cases, inl,
  inr, if◌then◌else◌, nat_key,
}
use astra_store_xion.Base.Dict.{Dict, lookup}
use astra_store_xion.Base.Sort.{IsOrdered, Follows}
use astra_store_xion.Balance.Ring.{get_elem?, key_test, keys_of, wrap_index}
use astra_store_xion.Balance.Ring.Search.{Parts}

abbrev pub or_else {ℓ} : {A : Type ℓ} → Option A → Option A → Option A
or_else none o = o
or_else (some a) o = some a

-- The node of the first entry whose key is not below the hash.
abbrev pub entry_from : ℕ → Dict ℕ String → Option String
entry_from h [] = none
entry_from h ((k, n) ∷ r) = if leb h k then some n else entry_from h r

-- Past the last key the ring begins again.
abbrev pub owner : ℕ → Dict ℕ String → Option String
owner h ring = or_else (entry_from h ring) (entry_from 0 ring)

abbrev pub first_ge : ℕ → List ℕ → Option ℕ
first_ge h [] = none
first_ge h (k ∷ ks) = if leb h k then some k else first_ge h ks

abbrev pub contains : ℕ → List ℕ → Bool
contains j [] = false
contains j (k ∷ ks) = k == j || contains j ks

-- The least element that is not below `h`.
abbrev pub IsLeast : ℕ → List ℕ → Option ℕ → Type 0
IsLeast h ks none = (j : ℕ) → contains j ks ≡ true → j < h
IsLeast h ks (some k) =
    (contains k ks ≡ true) × (h ≤ k) × ((j : ℕ) → contains j ks ≡ true → h ≤ j → k ≤ j)

contains-ge :
    (j k : ℕ) (ks : List ℕ) → Follows ltb k ks → IsOrdered ltb ks → contains j ks ≡ true → k ≤ j
contains-ge j k [] f o e = cc
contains-ge j k (i ∷ ks) f o e = ground (arith, contains-ge j i ks o.0 o.1)

pub first_ge-IsLeast : (h : ℕ) (ks : List ℕ) → IsOrdered ltb ks → IsLeast h ks (first_ge h ks)
first_ge-IsLeast h [] o = λ j e. cc
first_ge-IsLeast h (k ∷ ks) o = elim (Bool-cases (leb h k)) [
  | inl e ↦
      rw e (ground arith, ground (arith, e), λ j m le. ground (arith, contains-ge j k ks o.0 o.1))
  | inr e ↦ rw e (later (first_ge h ks) (first_ge-IsLeast h ks o.1) e)
]
  where
    later : (r : Option ℕ) → IsLeast h ks r → leb h k ≡ false → IsLeast h (k ∷ ks) r
    later none l e = λ j m. ground (arith, l j)
    later (some i) l e = (ground (arith, l.0), l.1, λ j m le. ground (arith, l.2 j))

pub IsLeast-unique :
    (h : ℕ) (ks js : List ℕ) (o p : Option ℕ)
    → ((j : ℕ) → contains j ks ≡ contains j js)
    → IsLeast h ks o
    → IsLeast h js p
    → o ≡ p
IsLeast-unique h ks js none none same l m = refl
IsLeast-unique h ks js none (some j) same l m = ground (arith, same j, l j, m.0)
IsLeast-unique h ks js (some k) none same l m = ground (arith, same k, m k, l.0)
IsLeast-unique h ks js (some k) (some j) same l m = ground (arith, same j, same k, l.2 j, m.2 k)

pub first_ge-same :
    (h : ℕ) (ks js : List ℕ)
    → IsOrdered ltb ks
    → IsOrdered ltb js
    → ((j : ℕ) → contains j ks ≡ contains j js)
    → first_ge h ks ≡ first_ge h js
first_ge-same h ks js o p same =
    IsLeast-unique h ks js (first_ge h ks) (first_ge h js) same (first_ge-IsLeast h ks o)
      (first_ge-IsLeast h js p)

-- All before the index is below `h`, and what stands there is not.
abbrev Splits : ℕ → List ℕ → ℕ → Type 0
Splits h [] zero = Unit
Splits h [] (suc r) = ⊥
Splits h (k ∷ ks) zero = h ≤ k
Splits h (k ∷ ks) (suc r) = (k < h) × Splits h ks r

Parts-Splits :
    (h : ℕ) (ks : List ℕ) (r : ℕ)
    → IsOrdered ltb ks
    → Parts (key_test ks h) (length ks) r
    → Splits h ks r
unfolding key_test
Parts-Splits h [] zero o p = tt
Parts-Splits h [] (suc r) o p = omega (arith, p.0)
Parts-Splits h (k ∷ ks) zero o p = ground (arith, p.2)
Parts-Splits h (k ∷ []) (suc zero) o p = (ground (arith, p.1), tt)
Parts-Splits h (k ∷ []) (suc (suc r)) o p = omega (arith, p.0)
Parts-Splits h (k ∷ j ∷ ks) (suc zero) o p = (ground (arith, p.1), ground (arith, p.2))
Parts-Splits h (k ∷ j ∷ ks) (suc (suc r)) o p =
    let one : suc r - 1 ≡ r = omega arith in
    let two : suc (suc r) - 1 ≡ suc r = omega arith in
    let before : key_test (k ∷ j ∷ ks) h (suc r) ≡ false = rw two at (p.1 (omega arith)) in
    let rest =
      Parts-Splits h (j ∷ ks) (suc r) o.1
        (omega (arith, p.0), λ m. rw one before, λ m. p.2 (omega (arith, m))) in
    (ground (arith, rest.0, o.0), rest)

Splits-first_ge : (h : ℕ) (ks : List ℕ) (r : ℕ) → Splits h ks r → get_elem? ks r ≡ first_ge h ks
Splits-first_ge h [] zero s = refl
Splits-first_ge h [] (suc r) s = elim s [ ]
Splits-first_ge h (k ∷ ks) zero s = ground arith
Splits-first_ge h (k ∷ ks) (suc r) s = ground (arith, Splits-first_ge h ks r)

get_elem?-length : {A : Type 0} (ks : List A) → get_elem? ks (length ks) ≡ none
get_elem?-length [] = refl
get_elem?-length (k ∷ ks) = get_elem?-length ks

get_elem?-lt : (ks : List ℕ) (r : ℕ) → r < length ks → (k : ℕ) × (get_elem? ks r ≡ some k)
get_elem?-lt [] r h = absurd (omega arith)
get_elem?-lt (k ∷ ks) zero h = (k, refl)
get_elem?-lt (k ∷ ks) (suc r) h = get_elem?-lt ks r (omega arith)

get_elem?-zero : (ks : List ℕ) → get_elem? ks 0 ≡ first_ge 0 ks
get_elem?-zero [] = refl
get_elem?-zero (k ∷ ks) = ground arith

-- The index that the search finds, wrapped, is that of the first key clockwise.
pub Parts-first_ge :
    (h : ℕ) (ks : List ℕ) (r : ℕ)
    → IsOrdered ltb ks
    → Parts (key_test ks h) (length ks) r
    → get_elem? ks (wrap_index (length ks) r) ≡ or_else (first_ge h ks) (first_ge 0 ks)
unfolding wrap_index
Parts-first_ge h ks r o p =
    let found = Splits-first_ge h ks r (Parts-Splits h ks r o p) in
    elim (Bool-cases (r == length ks)) [
      | inl e ↦
          let last : r ≡ length ks = ground (arith, e) in
          let none_left : first_ge h ks ≡ none = sym found ∙ rw last (get_elem?-length ks) in
          simp (e, none_left) (get_elem?-zero ks)
      | inr e ↦
          let (k, at_r) = get_elem?-lt ks r (ground (arith, e, p.0)) in
          let this : first_ge h ks ≡ some k = sym found ∙ at_r in simp (e, this, at_r)
    ]

pub contains-keys_of :
    (k : ℕ) (ring : Dict ℕ String) → contains k (keys_of ring) ≡ is_some (lookup k ring)
unfolding lookup
contains-keys_of k [] = refl
contains-keys_of k ((j, n) ∷ r) = ground (arith, contains-keys_of k r)

-- The same entry, by its key.
pub entry_from-lookup :
    (h : ℕ) (ring : Dict ℕ String) (k : ℕ)
    → first_ge h (keys_of ring) ≡ some k
    → lookup k ring ≡ entry_from h ring
unfolding lookup
entry_from-lookup h [] k e = cc
entry_from-lookup h ((i, n) ∷ r) k e =
    ground (arith, entry_from-lookup h r k, first_ge_ge h (keys_of r) k)
  where
    first_ge_ge : (h : ℕ) (ks : List ℕ) (k : ℕ) → first_ge h ks ≡ some k → h ≤ k
    first_ge_ge h [] k e = cc
    first_ge_ge h (j ∷ ks) k e = ground (arith, first_ge_ge h ks k)

contains-first_ge : (h : ℕ) (ks : List ℕ) (k : ℕ) → first_ge h ks ≡ some k → contains k ks ≡ true
contains-first_ge h [] k e = cc
contains-first_ge h (j ∷ ks) k e = ground (arith, contains-first_ge h ks k)

pub entry_from-some :
    (h : ℕ) (ring : Dict ℕ String) (k : ℕ)
    → first_ge h (keys_of ring) ≡ some k
    → (n : String) × (lookup k ring ≡ some n) × (entry_from h ring ≡ some n)
entry_from-some h ring k e =
    let present = sym (contains-keys_of k ring) ∙ contains-first_ge h (keys_of ring) k e in
    elim (Option-cases (lookup k ring)) [
      | inl absent ↦ absurd (false_ne_true (sym (ap is_some absent) ∙ present))
      | inr (n, at) ↦ (n, at, sym (entry_from-lookup h ring k e) ∙ at)
    ]
  where
    false_ne_true : false ≡ true → ⊥
    false_ne_true e = cc

pub entry_from-none :
    (h : ℕ) (ring : Dict ℕ String) → first_ge h (keys_of ring) ≡ none → entry_from h ring ≡ none
entry_from-none h [] e = refl
entry_from-none h ((i, n) ∷ r) e = ground (arith, entry_from-none h r)
