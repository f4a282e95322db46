-- ===== src/Balance/Shards.antt =====
-- The nodes' states in pkg/balance/consistent_hash.go: `MigrateShard`, `GetShardStatus`,
-- `checkAndBalance`, `rebalance`, `ForceRebalance`, `Start` and `Stop`.
pub mod Totals
use astra_store_xion.Base.{
  ℕ, zero, suc, String, Bool, true, false, ◌||◌, not, Option, none, some, List, [], ◌∷◌, ltb, leb,
  length, string_key, if◌then◌else◌,
}
use astra_store_xion.Base.Dict.{Dict}
use astra_store_xion.Base.Int64.{Int64, add64, sub64}
use astra_store_xion.Base.Sort.{sort_by}
use astra_store_xion.Balance.Model.{
  Platform, ShardStatus, BalanceConfig, Balancer, Guarded, BalanceError, no_source, no_target,
  too_few_nodes, already_running, not_running, Ends, returns, fails, blocks,
}
use astra_store_xion.Balance.Ring.{is_member}

-- A change of the status that `b.nodes[key]` points to.
abbrev pub adjust : {V : Type 0} → String → (V → V) → Dict String V → Dict String V
adjust key f [] = []
adjust key f ((j, v) ∷ m) =
    let rest = adjust key f m in if string_key.beq j key then (j, f v) ∷ m else (j, v) ∷ rest

module _ {F : Type 0} where
  abbrev pub fewer_shards : ShardStatus F → ShardStatus F
  fewer_shards s = record s { shard_count = sub64 s.shard_count 1 }

  abbrev pub more_shards : ShardStatus F → ShardStatus F
  more_shards s = record s { shard_count = add64 s.shard_count 1 }

  -- The shard's id is not used.
  unfoldable pub migrate_shard : String → String → Balancer F → Balancer F × Option BalanceError
  migrate_shard source target b =
      if not (is_member source b)
      then (b, some no_source)
      else if not (is_member target b)
      then (b, some no_target)
      else (
        record b { nodes = adjust target more_shards (adjust source fewer_shards b.nodes) },
        none,
      )

  unfoldable pub get_shard_status : Balancer F → Dict String (ShardStatus F)
  get_shard_status b = b.nodes

  -- The goroutine that `Start` begins is `balance_routine`.
  unfoldable pub start : Balancer F → Balancer F × Option BalanceError
  start b =
      if b.is_running then (b, some already_running) else (record b { is_running = true }, none)

  unfoldable pub stop : Balancer F → Balancer F × Option BalanceError
  stop b =
      if not b.is_running then (b, some not_running) else (record b { is_running = false }, none)

-- `defer b.mutex.Unlock()`, which is not reached where the body waits for good.
abbrev pub unlocked : {F A : Type 0} → Guarded F × Ends A → Guarded F × Ends A
unlocked (g, blocks) = (g, blocks)
unlocked (g, r) = (record g { held = false }, r)

-- `b.mutex.Lock()` before a body: a mutex that is held is waited for, by its own goroutine for good.
unfoldable pub locked :
    {F A : Type 0} → (Guarded F → Guarded F × Ends A) → Guarded F → Guarded F × Ends A
locked body g = if g.held then (g, blocks) else unlocked (body (record g { held = true }))

module _ {F : Type 0} (p : Platform F) where
  unfoldable pub is_over : BalanceConfig F → ShardStatus F → Bool
  is_over config s =
      p.above s.disk_usage config.disk_usage_threshold
      || p.above s.load_factor config.load_factor_threshold

  -- The loop of `checkAndBalance`: the flags it sets, and whether it has seen an overloaded node.
  unfoldable pub mark : BalanceConfig F → Dict String (ShardStatus F) → Dict String (ShardStatus F)
  mark config [] = []
  mark config ((n, s) ∷ m) = (n, record s { is_overloaded = is_over config s }) ∷ mark config m

  unfoldable pub has_overloaded : BalanceConfig F → Dict String (ShardStatus F) → Bool
  has_overloaded config [] = false
  has_overloaded config ((n, s) ∷ m) = is_over config s || has_overloaded config m

  abbrev loads_of : Dict String (ShardStatus F) → List (String × F)
  loads_of [] = []
  loads_of ((n, s) ∷ m) = (n, s.load_factor) ∷ loads_of m

  abbrev heavier : String × F → String × F → Bool
  heavier (m, x) (n, y) = p.above x y

  abbrev last_load : F → List (String × F) → F
  last_load x [] = x
  last_load x ((n, y) ∷ l) = last_load y l

  -- Whether the heaviest and the lightest node are close. Both answers lead to success: the
  -- migration itself is still to be written.
  abbrev settled : List (String × F) → Ends Bool
  settled [] = fails too_few_nodes
  settled ((n, x) ∷ l) = if p.close x (last_load x l) then returns true else returns false

  abbrev rebalanced : Balancer F → Ends Bool
  rebalanced b =
      if ltb (length b.nodes) 2
      then fails too_few_nodes
      else settled (sort_by heavier (loads_of b.nodes))

  unfoldable pub rebalance : Guarded F → Guarded F × Ends Bool
  rebalance = locked (λ g. (g, rebalanced g.balancer))

  unfoldable pub force_rebalance : Guarded F → Guarded F × Ends Bool
  force_rebalance g = rebalance g

  -- The caller holds the lock when it calls `rebalance`.
  abbrev pub checked : Guarded F → Guarded F × Ends Bool
  checked g =
      let b = g.balancer in
      let marked = record g { balancer = record b { nodes = mark b.config b.nodes } } in
      if has_overloaded b.config b.nodes then rebalance marked else (marked, returns true)

  unfoldable pub check_and_balance : Guarded F → Guarded F × Ends Bool
  check_and_balance = locked checked
