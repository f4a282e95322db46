-- ===== src/Files/Listing/Pages.antt =====
-- The pages of `List` and `ListTrash`.
use astra_store_xion.Base.{
  ℕ, zero, suc, ◌+◌, ◌≤◌, ◌<◌, ◌^◌, ◌≡◌, refl, List, [], ◌∷◌, arith, leb, length, take, drop,
  length-take, length-drop, ap, Bool-cases, inl, inr,
}
use astra_store_xion.Base.Int64.{Int64, le64, lt64}
use astra_store_xion.Files.Listing.{page, page_limit, page_offset}

page_limit_bounds :
    (limit : Int64) → limit < 2 ^ 64 → (1 ≤ page_limit limit) × (page_limit limit ≤ 1000)
unfolding page_limit le64 lt64
page_limit_bounds limit word = ground arith

module _ {A : Type 0} where
  pub drop-drop : (m n k : ℕ) (xs : List A) → k ≡ n + m → drop m (drop n xs) ≡ drop k xs
  drop-drop m zero k xs e = ap (λ i. drop i xs) (omega (arith, e))
  drop-drop m (suc n) zero xs e = absurd (omega (arith, e))
  drop-drop zero (suc n) (suc k) [] e = refl
  drop-drop (suc m) (suc n) (suc k) [] e = refl
  drop-drop m (suc n) (suc k) (x ∷ xs) e = drop-drop m n k xs (omega (arith, e))

  pub drop_past : (n : ℕ) (xs : List A) → length xs ≤ n → drop n xs ≡ []
  drop_past zero [] h = refl
  drop_past zero (x ∷ xs) h = absurd (omega (arith, h))
  drop_past (suc n) [] h = refl
  drop_past (suc n) (x ∷ xs) h = drop_past n xs (omega (arith, h))

  pub take-nothing : (n : ℕ) → take {A = A} n [] ≡ []
  take-nothing zero = refl
  take-nothing (suc n) = refl

  -- A page has no more than 1000 entries, whatever limit is asked for, and no more than the list.
  pub page_bounded :
      (limit offset : Int64) (xs : List A)
      → limit < 2 ^ 64
      → (length (page limit offset xs) ≤ 1000) × (length (page limit offset xs) ≤ length xs)
  unfolding page
  page_bounded limit offset xs word =
      let cut = length-take (page_limit limit) (drop (page_offset offset) xs) in
      let rest = length-drop (page_offset offset) xs in
      let bounds = page_limit_bounds limit word in
      elim (Bool-cases (leb (length xs) (page_offset offset))) [
        | inl past ↦ rw past (omega arith, omega arith)
        | inr inside ↦ rw inside (omega (arith, cut, bounds.1), omega (arith, cut, rest))
      ]
