-- ===== src/Balance/Ring/Search.antt =====
-- The binary search of `GetNode`.
use astra_store_xion.Base.{
  ℕ, zero, suc, ◌+◌, ◌-◌, ◌/◌, ◌^◌, ◌≤◌, ◌<◌, ◌≡◌, Bool, true, false, Option, none, some, arith,
  ltb, Bool-cases, inl, inr,
}
use astra_store_xion.Balance.Ring.{search_from, search}

-- The index parts the range: the test fails just before it and holds at it.
abbrev pub Parts : (ℕ → Bool) → ℕ → ℕ → Type 0
Parts test n r = (r ≤ n) × (0 < r → test (r - 1) ≡ false) × (r < n → test r ≡ true)

-- The search ends, with an index that satisfies `P`.
abbrev pub Finds : Option ℕ → (ℕ → Type 0) → Type 0
Finds none P = ⊥
Finds (some r) P = P r

module _ (test : ℕ → Bool) (n : ℕ) where
  search_from-Finds :
      (k i j : ℕ)
      → i ≤ j
      → j ≤ n
      → (0 < i → test (i - 1) ≡ false)
      → (j < n → test j ≡ true)
      → j - i < 2 ^ k
      → Finds (search_from test (suc k) i j) (Parts test n)
  unfolding search_from
  search_from-Finds zero i j le fits low high narrow =
      let e : j ≡ i = omega arith in
      let same : ltb i j ≡ false = ground arith in
      rw same (omega arith, low, λ h. ground (arith, high))
  search_from-Finds (suc k) i j le fits low high narrow = elim (Bool-cases (ltb i j)) [
    | inr e ↦
        let same : j ≡ i = ground (arith, e) in rw e (omega arith, low, λ h. ground (arith, high))
    | inl e ↦
        let less : i < j = ground (arith, e) in
        rw e (elim (Bool-cases (test ((i + j) / 2))) [
          | inl t ↦ rw t (
              search_from-Finds k i ((i + j) / 2) (omega arith) (omega arith) low (λ h. t)
                (omega arith))
          | inr t ↦ rw t (
              search_from-Finds k ((i + j) / 2 + 1) j (omega arith) fits (λ h. ground (arith, t))
                high (omega arith))
        ])
  ]

lt_pow : (n : ℕ) → n < 2 ^ n
lt_pow zero = omega arith
lt_pow (suc n) = omega (arith, lt_pow n)

-- The binary search ends within k + 1 rounds on fewer than 2 ^ k indices, at an index just before
-- which the test fails and at which it holds, the ends of the range aside.
pub search_from_rounds :
    (test : ℕ → Bool) (n k : ℕ) → n < 2 ^ k → Finds (search_from test (suc k) 0 n) (Parts test n)
search_from_rounds test n k narrow =
    search_from-Finds test n k 0 n (omega arith) (omega arith) (λ h. absurd (omega arith))
      (λ h. absurd (omega arith)) (omega arith)

pub search-Finds : (test : ℕ → Bool) (n : ℕ) → Finds (search n test) (Parts test n)
unfolding search
search-Finds test n = search_from_rounds test n n (lt_pow n)
