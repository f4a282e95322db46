-- ===== src/Balance/Shards/Totals.antt =====
-- What a migration does to the counts.
use astra_store_xion.Base.{
  is_some, ℕ, ◌+◌, ◌%◌, ◌^◌, ◌≡◌, refl, ◌∙◌, String, true, [], ◌∷◌, arith, string_key, Bool-cases,
  inl, inr,
}
use astra_store_xion.Base.Dict.{Dict, lookup}
use astra_store_xion.Base.Int64.{add64, sub64}
use astra_store_xion.Balance.Model.{ShardStatus, Balancer}
use astra_store_xion.Balance.Ring.{is_member}
use astra_store_xion.Balance.Shards.{adjust, fewer_shards, more_shards, migrate_shard}

module _ {F : Type 0} where
  -- The shards of all nodes.
  abbrev pub total_shards : Dict String (ShardStatus F) → ℕ
  total_shards [] = 0
  total_shards ((n, s) ∷ m) = s.shard_count + total_shards m

  fewer_total :
      (key : String) (m : Dict String (ShardStatus F))
      → is_some (lookup key m) ≡ true
      → (total_shards (adjust key fewer_shards m) + 1) % 2 ^ 64 ≡ total_shards m % 2 ^ 64
  unfolding lookup sub64
  fewer_total key [] e = cc
  fewer_total key ((j, s) ∷ m) e = elim (Bool-cases (string_key.beq j key)) [
    | inl same ↦ rw same (omega arith)
    | inr other ↦
        let more : is_some (lookup key m) ≡ true = rw other at e in
        rw other (omega (arith, fewer_total key m more))
  ]

  more_total :
      (key : String) (m : Dict String (ShardStatus F))
      → is_some (lookup key m) ≡ true
      → total_shards (adjust key more_shards m) % 2 ^ 64 ≡ (total_shards m + 1) % 2 ^ 64
  unfolding lookup add64
  more_total key [] e = cc
  more_total key ((j, s) ∷ m) e = elim (Bool-cases (string_key.beq j key)) [
    | inl same ↦ rw same (omega arith)
    | inr other ↦
        let more : is_some (lookup key m) ≡ true = rw other at e in
        rw other (omega (arith, more_total key m more))
  ]

  -- A changed status stays a status.
  pub is_some-adjust :
      (j key : String) (f : ShardStatus F → ShardStatus F) (m : Dict String (ShardStatus F))
      → is_some (lookup j (adjust key f m)) ≡ is_some (lookup j m)
  unfolding lookup
  is_some-adjust j key f [] = refl
  is_some-adjust j key f ((i, s) ∷ m) = ground (arith, is_some-adjust j key f m)

  -- `MigrateShard` moves shards and makes none: the counts of all nodes add up to the same as
  -- before, modulo 2 ^ 64, whatever it returns.
  pub migrate_shard_conserves :
      (source target : String) (b : Balancer F)
      → total_shards (migrate_shard source target b).0.nodes % 2 ^ 64
        ≡ total_shards b.nodes % 2 ^ 64
  unfolding migrate_shard
  migrate_shard_conserves source target b = elim (Bool-cases (is_member source b)) [
    | inr e ↦ rw e refl
    | inl e ↦ elim (Bool-cases (is_member target b)) [
      | inr t ↦ rw (e, t) refl
      | inl t ↦
          let left = adjust source fewer_shards b.nodes in
          let still = is_some-adjust target source fewer_shards b.nodes ∙ t in
          rw (e, t) (omega (arith, fewer_total source b.nodes e, more_total target left still))
    ]
  ]
