-- ===== src/Balance/Deadlock.antt =====
-- What a check of an overloaded ring does to the mutex.
use astra_store_xion.Base.{◌≡◌, refl, String, true, false, some, [], ◌∷◌, arith, string_key}
use astra_store_xion.Base.Dict.{Dict, lookup}
use astra_store_xion.Balance.Model.{BalanceConfig, Platform, ShardStatus, Guarded, Ends, blocks}
use astra_store_xion.Balance.Shards.{is_over, has_overloaded, locked, rebalance, check_and_balance}
use astra_store_xion.Balance.Steps.{
  Step, starts, stops, adds, removes, updates, migrates, checks, forces, tracks, Steps, here, next,
}

module _ {F : Type 0} (p : Platform F) where
  seen :
      (config : BalanceConfig F) (node : String) (s : ShardStatus F)
      (m : Dict String (ShardStatus F))
      → lookup node m ≡ some s
      → is_over p config s ≡ true
      → has_overloaded p config m ≡ true
  unfolding lookup has_overloaded
  seen config node s [] at over = cc
  seen config node s ((j, t) ∷ m) at over = ground (arith, seen config node s m)

  check_and_balance_stuck :
      (g : Guarded F)
      → g.held ≡ false
      → has_overloaded p g.balancer.config g.balancer.nodes ≡ true
      → ((check_and_balance p g).1 ≡ blocks) × ((check_and_balance p g).0.held ≡ true)
  unfolding check_and_balance rebalance locked
  check_and_balance_stuck g free over = (rw (free, over) refl, rw (free, over) refl)

  Step-held : {g k : Guarded F} → g.held ≡ true → Step p g k → k.held ≡ true
  Step-held e (starts free) = absurd (cc)
  Step-held e (stops free) = absurd (cc)
  Step-held e (adds node free) = absurd (cc)
  Step-held e (removes node free) = absurd (cc)
  Step-held e (updates node status free) = absurd (cc)
  Step-held e (migrates source target free) = absurd (cc)
  Step-held e (checks free) = absurd (cc)
  Step-held e (forces free) = absurd (cc)
  Step-held e (tracks now file_id) = e

  Steps-held : {g k : Guarded F} → g.held ≡ true → Steps p g k → k.held ≡ true
  Steps-held e here = e
  Steps-held e (next r st) = Step-held (Steps-held e r) st

  held-locked :
      {A : Type 0} (body : Guarded F → Guarded F × Ends A) (k : Guarded F)
      → k.held ≡ true
      → locked body k ≡ (k, blocks)
  unfolding locked
  held-locked body k e = rw e refl

  -- When `checkAndBalance` runs with a free mutex while one node is over a threshold, it waits for
  -- good, in `rebalance`, for the mutex that it holds itself; and whatever happens afterwards, the
  -- mutex stays held, so that every later call that takes it waits for good too.
  pub check_and_balance_deadlocks :
      {A : Type 0} (node : String) (s : ShardStatus F) (g k : Guarded F)
      (body : Guarded F → Guarded F × Ends A)
      → g.held ≡ false
      → lookup node g.balancer.nodes ≡ some s
      → is_over p g.balancer.config s ≡ true
      → Steps p (check_and_balance p g).0 k
      → ((check_and_balance p g).1 ≡ blocks) × (locked body k ≡ (k, blocks))
  check_and_balance_deadlocks node s g k body free at over steps =
      let stuck =
        check_and_balance_stuck g free (seen g.balancer.config node s g.balancer.nodes at over) in
      (stuck.0, held-locked body k (Steps-held stuck.1 steps))
