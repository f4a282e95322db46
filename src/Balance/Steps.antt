-- ===== src/Balance/Steps.antt =====
-- The balancer's calls in any order.
use astra_store_xion.Base.{
  is_some, refl, string_key, ◌∙◌, Bool, arith, ℕ, ◌<◌, ◌≡◌, String, [], ◌∷◌, true, false, length,
  Bool-cases, inl, inr,
}
use astra_store_xion.Base.Dict.{Dict, lookup}
use astra_store_xion.Balance.Model.{
  Platform, ShardStatus, BalanceConfig, Balancer, Guarded, Ends, returns, fails, panics, blocks,
}
use astra_store_xion.Balance.Ring.{
  is_member, new_balancer, add_node, remove_node, update_node_status, get_node,
}
use astra_store_xion.Balance.Ring.Valid.{
  IsRing, new_balancer-IsRing, add_node-IsRing, remove_node-IsRing, update_node_status-IsRing,
  set_others-IsRing,
}
use astra_store_xion.Balance.Ring.Clockwise.{get_node_serves}
use astra_store_xion.Balance.Shards.{
  adjust, fewer_shards, more_shards, migrate_shard, mark, has_overloaded, unlocked, locked,
  rebalance, force_rebalance, checked, check_and_balance, start, stop,
}
use astra_store_xion.Balance.Shards.Totals.{is_some-adjust}
use astra_store_xion.Balance.Hot.{track_file_access}

module _ {F : Type 0} (p : Platform F) where
  abbrev with_balancer : Guarded F → Balancer F → Guarded F
  with_balancer g b = record g { balancer = b }

  -- Each call takes the mutex and gives it back, so that it is one step, which waits while the mutex is
  -- held; the check may keep it. `TrackFileAccess` has a lock of its own.
  pub data Step (g : Guarded F) : Guarded F → Type 0 where
    starts : g.held ≡ false → Step g (with_balancer g (start g.balancer).0)
    stops : g.held ≡ false → Step g (with_balancer g (stop g.balancer).0)
    adds : (node : String) → g.held ≡ false → Step g (with_balancer g (add_node p node g.balancer))
    removes :
        (node : String) → g.held ≡ false → Step g (with_balancer g (remove_node p node g.balancer))
    updates :
        (node : String) (status : ShardStatus F)
        → g.held ≡ false
        → Step g (with_balancer g (update_node_status p node status g.balancer))
    migrates :
        (source target : String)
        → g.held ≡ false
        → Step g (with_balancer g (migrate_shard source target g.balancer).0)
    checks : g.held ≡ false → Step g (check_and_balance p g).0
    forces : g.held ≡ false → Step g (force_rebalance p g).0
    tracks :
        (now : ℕ) (file_id : String)
        → Step g (with_balancer g (track_file_access now file_id g.balancer))

  pub data Steps (g : Guarded F) : Guarded F → Type 0 where
    here : Steps g g
    next : {h k : Guarded F} → Steps g h → Step h k → Steps g k

  is_some-mark :
      (n : String) (config : BalanceConfig F) (m : Dict String (ShardStatus F))
      → is_some (lookup n (mark p config m)) ≡ is_some (lookup n m)
  unfolding lookup mark
  is_some-mark n config [] = refl
  is_some-mark n config ((j, s) ∷ m) = ground (arith, is_some-mark n config m)

  migrate_shard-IsRing :
      (source target : String) (b : Balancer F)
      → IsRing p b
      → IsRing p (migrate_shard source target b).0
  unfolding migrate_shard
  migrate_shard-IsRing source target b h = elim (Bool-cases (is_member source b)) [
    | inr e ↦ rw e h
    | inl e ↦ elim (Bool-cases (is_member target b)) [
      | inr t ↦ rw (e, t) h
      | inl t ↦
          let left = adjust source fewer_shards b.nodes in
          rw (e, t)
            (set_others-IsRing p b (adjust target more_shards left) b.is_running b.file_access
              (λ n m.
                is_some-adjust n target more_shards left
                ∙ is_some-adjust n source fewer_shards b.nodes
                ∙ m)
              h)
    ]
  ]

  run-IsRing :
      (running : Bool) (b : Balancer F) → IsRing p b → IsRing p (record b { is_running = running })
  run-IsRing running b h = set_others-IsRing p b b.nodes running b.file_access (λ n m. m) h

  start-IsRing : (b : Balancer F) → IsRing p b → IsRing p (start b).0
  unfolding start
  start-IsRing b h = elim (Bool-cases b.is_running) [
    | inl e ↦ simp e h
    | inr e ↦ simp e (run-IsRing true b h)
  ]

  stop-IsRing : (b : Balancer F) → IsRing p b → IsRing p (stop b).0
  unfolding stop
  stop-IsRing b h = elim (Bool-cases b.is_running) [
    | inl e ↦ simp e (run-IsRing false b h)
    | inr e ↦ simp e h
  ]

  -- A body whose balancer is a ring in the end leaves a ring, whether or not the lock is given back.
  unlocked-IsRing :
      {A : Type 0} (g : Guarded F) (r : Ends A)
      → IsRing p g.balancer
      → IsRing p (unlocked (g, r)).0.balancer
  unlocked-IsRing g (returns a) h = h
  unlocked-IsRing g (fails e) h = h
  unlocked-IsRing g panics h = h
  unlocked-IsRing g blocks h = h

  locked-IsRing :
      {A : Type 0} (body : Guarded F → Guarded F × Ends A) (g : Guarded F)
      → ((k : Guarded F) → IsRing p k.balancer → IsRing p (body k).0.balancer)
      → IsRing p g.balancer
      → IsRing p (locked body g).0.balancer
  unfolding locked
  locked-IsRing body g keeps h = elim (Bool-cases g.held) [
    | inl e ↦ rw e h
    | inr e ↦
        let k : Guarded F = record g { held = true } in
        rw e (unlocked-IsRing (body k).0 (body k).1 (keeps k h))
  ]

  rebalance-IsRing : (g : Guarded F) → IsRing p g.balancer → IsRing p (rebalance p g).0.balancer
  unfolding rebalance
  rebalance-IsRing g h = locked-IsRing _ g (λ k r. r) h

  checked-IsRing : (g : Guarded F) → IsRing p g.balancer → IsRing p (checked p g).0.balancer
  checked-IsRing g h =
      let b = g.balancer in
      let marked =
        set_others-IsRing p b (mark p b.config b.nodes) b.is_running b.file_access
          (λ n m. is_some-mark n b.config b.nodes ∙ m) h in
      elim (Bool-cases (has_overloaded p b.config b.nodes)) [
        | inl e ↦ rw e (rebalance-IsRing _ marked)
        | inr e ↦ rw e marked
      ]

  Step-IsRing : {g k : Guarded F} → Step g k → IsRing p g.balancer → IsRing p k.balancer
  unfolding check_and_balance force_rebalance track_file_access
  Step-IsRing {g} (starts free) h = start-IsRing g.balancer h
  Step-IsRing {g} (stops free) h = stop-IsRing g.balancer h
  Step-IsRing {g} (adds node free) h = add_node-IsRing p node g.balancer h
  Step-IsRing {g} (removes node free) h = remove_node-IsRing p node g.balancer h
  Step-IsRing {g} (updates node status free) h =
      update_node_status-IsRing p node status g.balancer h
  Step-IsRing {g} (migrates source target free) h = migrate_shard-IsRing source target g.balancer h
  Step-IsRing {g} (checks free) h = locked-IsRing _ g checked-IsRing h
  Step-IsRing {g} (forces free) h = rebalance-IsRing g h
  Step-IsRing {g} (tracks now file_id) h =
      set_others-IsRing p g.balancer g.balancer.nodes g.balancer.is_running _ (λ n m. m) h

  pub Steps-IsRing : {g k : Guarded F} → IsRing p g.balancer → Steps g k → IsRing p k.balancer
  Steps-IsRing h here = h
  Steps-IsRing h (next r st) = Step-IsRing st (Steps-IsRing h r)

  -- After any calls of a new balancer, in any order, of which no check has kept the mutex, `GetNode`
  -- gives a node that is a member, as long as the ring has a virtual node; it does not panic, and
  -- gives no node that was removed.
  pub Steps-get_node :
      (config : BalanceConfig F) (replicas : ℕ) (key : String) (g : Guarded F)
      → Steps (record { balancer = new_balancer p config replicas; held = false }) g
      → g.held ≡ false
      → 0 < length g.balancer.ring
      → (n : String) × ((locked (λ k. (k, get_node p key k.balancer)) g).1 ≡ returns n)
        × (is_member n g.balancer ≡ true)
  unfolding locked
  Steps-get_node config replicas key g steps free some_key =
      let ring = Steps-IsRing (new_balancer-IsRing p config replicas) steps in
      let (n, found, member) = get_node_serves p key g.balancer ring some_key in
      (n, rw (free, found) refl, member)
