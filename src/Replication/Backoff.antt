-- ===== src/Replication/Backoff.antt =====
-- The delay between two attempts: `backoffFor` of pkg/replication/manager.go.
use Prim.Native.Nat.{min}
use astra_store_xion.Base.{
  ℕ, zero, suc, ◌+◌, ◌-◌, ◌*◌, ◌%◌, ◌^◌, ◌≤◌, ◌<◌, ◌≡◌, arith, if◌then◌else◌, leb, Bool-cases, inl,
  inr,
}
use astra_store_xion.Base.Int64.{Int64, lt64, le64, lt64_nonneg, le64_nonneg}

-- The loop, with the iterations that are left.
unfoldable pub double_until : Int64 → ℕ → Int64 → Int64
double_until limit zero delay = if lt64 limit delay then limit else delay
double_until limit (suc n) delay =
    let next = delay * 2 % 2 ^ 64 in
    let rest = double_until limit n next in if le64 limit next then limit else rest

unfoldable pub backoff_for : Int64 → Int64 → ℕ → Int64
backoff_for base limit attempts = double_until limit (attempts - 1) base

-- A delay doubled so many times.
abbrev pub doubled : ℕ → ℕ → ℕ
doubled zero delay = delay
doubled (suc n) delay = doubled n (delay + delay)

doubled_le : (n delay : ℕ) → delay ≤ doubled n delay
doubled_le zero delay = omega arith
doubled_le (suc n) delay = omega (arith, doubled_le n (delay + delay))

double_until_lem :
    (limit n delay : ℕ)
    → limit < 2 ^ 62
    → delay ≤ limit
    → double_until limit n delay ≡ min (doubled n delay) limit
unfolding double_until
double_until_lem limit zero delay small le =
    rw (lt64_nonneg limit delay (omega arith) (omega arith)) (ground (arith, le))
double_until_lem limit (suc n) delay small le =
    let next : delay * 2 % 2 ^ 64 ≡ delay + delay = omega (arith, small, le) in
    let test = le64_nonneg limit (delay + delay) (omega arith) (omega arith) in
    let grows = doubled_le n (delay + delay) in
    elim (Bool-cases (leb limit (delay + delay))) [
      | inl past ↦
          let over : limit ≤ delay + delay = ground (arith, past) in
          simp (next, test, past) (omega (arith, grows, over))
      | inr under ↦
          let below : delay + delay ≤ limit = ground (arith, under) in
          simp (next, test, under) (double_until_lem limit n (delay + delay) small below)
    ]

-- The delay before an attempt is the base delay doubled once for each failure after the first, but
-- never more than the limit, as long as the base is at most the limit and the limit is below 2 ^ 62,
-- where doubling does not overflow.
pub backoff_for_lem :
    (base limit attempts : ℕ)
    → limit < 2 ^ 62
    → base ≤ limit
    → backoff_for base limit attempts ≡ min (doubled (attempts - 1) base) limit
unfolding backoff_for
backoff_for_lem base limit attempts small le = double_until_lem limit (attempts - 1) base small le
