-- ===== src/Balance/Model.antt =====
-- The records of pkg/balance/balancer.go and the state of pkg/balance/consistent_hash.go.
use astra_store_xion.Base.{ℕ, String, Bool, List}
use astra_store_xion.Base.Dict.{Dict}
use astra_store_xion.Base.Int64.{Int64}

-- The standard library's `crc32.ChecksumIEEE` and `strconv.Itoa`, and the floating-point numbers with
-- the tests on them: `x > y`, and `x - y < 0.3`.
pub record Platform (F : Type 0) : Type 0 where
  pub checksum : String → ℕ
  pub itoa : ℕ → String
  pub above : F → F → Bool
  pub close : F → F → Bool
  pub zero_float : F

pub record ShardStatus (F : Type 0) : Type 0 where
  pub node_id : String
  pub shard_count : Int64
  pub disk_usage : F
  pub load_factor : F
  pub is_overloaded : Bool

pub record HotFile : Type 0 where
  pub file_id : String
  pub access_count : Int64
  pub last_access : ℕ

pub record BalanceConfig (F : Type 0) : Type 0 where
  pub check_interval : Int64
  pub disk_usage_threshold : F
  pub load_factor_threshold : F
  pub hot_file_threshold : Int64
  pub enable_auto_balance : Bool

pub record FileAccess : Type 0 where
  pub accesses : Int64
  pub accessed_at : ℕ

-- The balancer. A negative count of replicas would act as none.
pub record Balancer (F : Type 0) : Type 0 where
  pub config : BalanceConfig F
  pub ring : Dict ℕ String
  pub sorted_keys : List ℕ
  pub nodes : Dict String (ShardStatus F)
  pub replicas : ℕ
  pub is_running : Bool
  pub file_access : Dict String FileAccess

-- The balancer with its mutex: whether a goroutine holds the lock for writing.
pub record Guarded (F : Type 0) : Type 0 where
  pub balancer : Balancer F
  pub held : Bool

pub data BalanceError : Type 0 where
  already_running not_running no_source no_target ring_empty too_few_nodes : BalanceError

-- How a call ends: it returns, it fails with an error, it panics on an index out of range, or it
-- waits for good on a mutex that its own goroutine holds.
pub data Ends (A : Type 0) : Type 0 where
  returns : A → Ends A
  fails : BalanceError → Ends A
  panics : Ends A
  blocks : Ends A
