-- ===== src/Metadata/Lists.antt =====
-- The pages of the listings.
use Prim.Native.String.{compare}
use text.Mathlib.Text.{is_lt}
use mathlib.Core.List.{map, Perm}
use astra_store_xion.Base.Strings.{string_asym}
use astra_store_xion.Base.Sort.{IsOrdered, sort_by-IsOrdered, sort_by-Perm, length-sort_by}
use astra_store_xion.Base.{
  ◌⊎◌, ◌↔◌, str_eq, eq_iff, zero, suc, ap, sym, ◌∙◌, length-drop, String, ℕ, ◌+◌, ◌-◌, ◌^◌, ◌≤◌,
  ◌<◌, ◌≡◌, refl, true, false, List, [], ◌∷◌, arith, length, take, drop, Bool-cases, inl, inr, leb,
  ltb,
}
use astra_store_xion.Base.Int64.{
  is_neg, add64, lt64, le64, lt64_nonneg, le64_nonneg, add64_small, is_neg_small,
}
use astra_store_xion.Metadata.Service.{
  FileMetadata, ChunkInfo, records_of, id_before, has_node, Records, replies, panics, slice,
  from_offset, up_to_limit, page_end, page_of, list_metadata, sorted_metadata,
  list_metadata_by_node_id, on_node,
}

take_all : {A : Type 0} (n : ℕ) (xs : List A) → length xs ≤ n → take n xs ≡ xs
take_all zero [] p = refl
take_all zero (x ∷ xs) p = absurd (omega arith)
take_all (suc n) [] p = refl
take_all (suc n) (x ∷ xs) p = ap (◌∷◌ x) (take_all n xs (omega arith))

drop_all : {A : Type 0} (n : ℕ) (xs : List A) → length xs ≤ n → drop n xs ≡ []
drop_all zero [] p = refl
drop_all zero (x ∷ xs) p = absurd (omega arith)
drop_all (suc n) [] p = refl
drop_all (suc n) (x ∷ xs) p = drop_all n xs (omega arith)

module _ {A : Type 0} where
  -- A page is the part of the list from the offset on, of at most the limit, as long as the sum of
  -- the two does not overflow.
  page_of-take-drop :
      (limit offset : ℕ) (xs : List A)
      → 0 < limit
      → offset + limit < 2 ^ 63
      → length xs < 2 ^ 63
      → page_of limit offset xs ≡ replies (take limit (drop offset xs))
  unfolding page_of slice from_offset up_to_limit page_end
  page_of-take-drop limit offset xs pos small long =
      let count = length xs in
      let sum = add64_small offset limit small in
      let start = is_neg_small offset (omega arith) in
      let past = le64_nonneg count offset long (omega arith) in
      let zero_limit = le64_nonneg limit 0 (omega arith) (omega arith) in
      let some_limit : leb limit 0 ≡ false = ground arith in
      let over = lt64_nonneg count (offset + limit) long small in
      elim (Bool-cases (leb count offset)) [
        | inl e ↦
            let none_left = drop_all offset xs (ground (arith, e)) in
            simp (start, past, e, none_left) (sym (ap replies (take_all limit [] (omega arith))))
        | inr e ↦ elim (Bool-cases (ltb count (offset + limit))) [
          | inl t ↦
              let rest = drop offset xs in
              let left = length-drop offset xs in
              let both : take (count - offset) rest ≡ take limit rest =
                take_all (count - offset) rest (omega (arith, left))
                ∙ sym (take_all limit rest (ground (arith, left, t))) in
              let down : lt64 count offset ≡ false =
                lt64_nonneg count offset long (omega arith) ∙ ground (arith, e) in
              let up : lt64 count count ≡ false =
                lt64_nonneg count count long long ∙ ground arith in
              simp
                (
                  start,
                  past,
                  e,
                  zero_limit,
                  some_limit,
                  sum,
                  over,
                  t,
                  is_neg_small count long,
                  down,
                  up,
                )
                (ap replies both)
          | inr t ↦
              let down : lt64 (offset + limit) offset ≡ false =
                lt64_nonneg (offset + limit) offset small (omega arith) ∙ ground arith in
              let gap : offset + limit - offset ≡ limit = omega arith in
              simp (
                start,
                past,
                e,
                zero_limit,
                some_limit,
                sum,
                over,
                t,
                is_neg_small (offset + limit) small,
                down,
                gap,
              )
        ]
      ]

  -- On a list that goes on after the offset, a limit whose sum with the offset passes 2 ^ 63 - 1
  -- makes the slice panic.
  page_of_overflow :
      (limit offset : ℕ) (xs : List A)
      → limit < 2 ^ 63
      → offset < length xs
      → length xs < 2 ^ 63
      → 2 ^ 63 ≤ offset + limit
      → page_of limit offset xs ≡ panics
  unfolding page_of slice from_offset up_to_limit page_end add64 lt64 le64 is_neg
  page_of_overflow limit offset xs small more long over = ground (arith, small, more, long, over)

-- The records, one for each key.
abbrev pub values : Records → List FileMetadata
values m = map (λ (e : String × FileMetadata). e.1) m

records_of-values : (m : Records) → records_of m ≡ values m
records_of-values [] = refl
records_of-values ((id, r) ∷ m) = ap (◌∷◌ r) (records_of-values m)

-- The ids rise or stay: none is smaller than the one before it, byte by byte.
abbrev pub Rises : List FileMetadata → Type 0
Rises [] = Unit
Rises (r ∷ []) = Unit
Rises (r ∷ s ∷ rs) = (is_lt (compare s.file_id r.file_id) ≡ false) × Rises (s ∷ rs)

IsOrdered-Rises : (rs : List FileMetadata) → IsOrdered id_before rs → Rises rs
unfolding id_before
IsOrdered-Rises [] o = tt
IsOrdered-Rises (r ∷ []) o = tt
IsOrdered-Rises (r ∷ s ∷ rs) o = (o.0, IsOrdered-Rises (s ∷ rs) o.1)

id_before_asym : (r s : FileMetadata) → id_before r s ≡ true → id_before s r ≡ false
unfolding id_before
id_before_asym r s e = string_asym r.file_id s.file_id e

-- Some chunk is on the node.
abbrev pub OnNode : String → List ChunkInfo → Type 0
OnNode node [] = ⊥
OnNode node (c ∷ cs) = (c.node_id ≡ node) ⊎ OnNode node cs

-- Of the records those with a chunk on the node, in the same order.
pub data Picks (node : String) : List FileMetadata → List FileMetadata → Type 0 where
  none_left : Picks node [] []
  picked :
      {rs ps : List FileMetadata} (r : FileMetadata)
      → OnNode node r.chunks
      → Picks node rs ps
      → Picks node (r ∷ rs) (r ∷ ps)
  passed_over :
      {rs ps : List FileMetadata} (r : FileMetadata)
      → (OnNode node r.chunks → ⊥)
      → Picks node rs ps
      → Picks node (r ∷ rs) ps

has_node-OnNode : (node : String) (cs : List ChunkInfo) → (has_node node cs ≡ true) ↔ OnNode node cs
unfolding has_node
has_node-OnNode node [] = (λ e. absurd (cc), λ h. absurd h)
has_node-OnNode node (c ∷ cs) = elim (Bool-cases (str_eq c.node_id node)) [
  | inl e ↦ rw e (λ t. inl ((eq_iff c.node_id node).0 e), λ h. refl)
  | inr e ↦
      let rest = has_node-OnNode node cs in
      rw e (
        λ t. inr (rest.0 t),
        λ h. elim h [ inl same ↦ absurd (differs c.node_id node e same) | inr more ↦ rest.1 more ],
      )
]
  where
    differs : (a b : String) → str_eq a b ≡ false → a ≡ b → ⊥
    differs a b e same = let t = (eq_iff a b).1 same in cc

not_on : (node : String) (cs : List ChunkInfo) → has_node node cs ≡ false → OnNode node cs → ⊥
not_on node cs e h = let t = (has_node-OnNode node cs).1 h in cc

on_node-Picks : (node : String) (rs : List FileMetadata) → Picks node rs (on_node node rs)
unfolding on_node
on_node-Picks node [] = none_left
on_node-Picks node (r ∷ rs) = elim (Bool-cases (has_node node r.chunks)) [
  | inl e ↦ rw e (picked r ((has_node-OnNode node r.chunks).0 e) (on_node-Picks node rs))
  | inr e ↦ rw e (passed_over r (not_on node r.chunks e) (on_node-Picks node rs))
]

length-on_node : (node : String) (rs : List FileMetadata) → length (on_node node rs) ≤ length rs
unfolding on_node
length-on_node node [] = omega arith
length-on_node node (r ∷ rs) = elim (Bool-cases (has_node node r.chunks)) [
  | inl e ↦ rw e (omega (arith, length-on_node node rs))
  | inr e ↦ rw e (omega (arith, length-on_node node rs))
]

length-records_of : (m : Records) → length (records_of m) ≡ length m
length-records_of [] = refl
length-records_of ((id, r) ∷ m) = ap suc (length-records_of m)

module _ (limit offset : ℕ) (m : Records) where
  length-sorted_metadata : length (sorted_metadata m) ≡ length m
  unfolding sorted_metadata
  length-sorted_metadata = length-sort_by id_before (records_of m) ∙ length-records_of m

  -- With the records in the order of their ids, `ListMetadata` gives those from the offset on, at most
  -- as many as the limit, and `ListMetadataByNodeID` the same of the records with a chunk on the node,
  -- as long as the sum of offset and limit does not overflow.
  pub list_metadata_page :
      (node : String)
      → 0 < limit
      → offset + limit < 2 ^ 63
      → length m < 2 ^ 63
      → (sorted on : List FileMetadata) × Perm sorted (values m)
        × Rises sorted
        × Picks node sorted on
        × (list_metadata limit offset m ≡ replies (take limit (drop offset sorted)))
        × (list_metadata_by_node_id node limit offset m ≡ replies (take limit (drop offset on)))
  unfolding list_metadata list_metadata_by_node_id sorted_metadata
  list_metadata_page node pos small long =
      let sorted = sorted_metadata m in
      let count = length-sorted_metadata in
      let fewer = length-on_node node sorted in
      (
        sorted,
        on_node node sorted,
        rw (sym (records_of-values m)) (sort_by-Perm id_before (records_of m)),
        IsOrdered-Rises sorted (sort_by-IsOrdered id_before id_before_asym (records_of m)),
        on_node-Picks node sorted,
        page_of-take-drop limit offset sorted pos small (omega (arith, long, count)),
        page_of-take-drop limit offset (on_node node sorted) pos small
            (omega (arith, long, count, fewer)),
      )

  -- A limit whose sum with the offset passes 2 ^ 63 - 1 makes `ListMetadata` panic as soon as there
  -- are records after the offset.
  pub list_metadata_overflow :
      limit < 2 ^ 63
      → offset < length (sorted_metadata m)
      → length (sorted_metadata m) < 2 ^ 63
      → 2 ^ 63 ≤ offset + limit
      → list_metadata limit offset m ≡ panics
  unfolding list_metadata
  list_metadata_overflow small more long over =
      page_of_overflow limit offset (sorted_metadata m) small more long over
