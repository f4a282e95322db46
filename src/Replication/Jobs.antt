-- ===== src/Replication/Jobs.antt =====
-- The records of pkg/replication/manager.go.
use Prim.Native.String
use astra_store_xion.Base.{ℕ, String, Bool, true, false, Option}
use astra_store_xion.Base.Dict.{Dict}
use astra_store_xion.Base.Int64.{Int64}

pub data Operation : Type 0 where
  operation_upload operation_delete operation_restore : Operation

abbrev pub operation_name : Operation → String
operation_name operation_upload = "upload"
operation_name operation_delete = "delete"
operation_name operation_restore = "restore"

pub data JobStatus : Type 0 where
  job_pending job_running job_failed job_completed : JobStatus

-- `next_attempt_at` is `none` for the zero time.
pub record Job : Type 0 where
  pub id : String
  pub operation : Operation
  pub file_id : String
  pub status : JobStatus
  pub attempts : ℕ
  pub last_error : String
  pub created_at : ℕ
  pub updated_at : ℕ
  pub next_attempt_at : Option ℕ

-- The manager's jobs in memory, those that its directory holds, its settings, and whether a wake-up
-- waits in the channel.
pub record Manager : Type 0 where
  pub jobs : Dict String Job
  pub saved : Dict String Job
  pub max_attempts : ℕ
  pub backoff_base : Int64
  pub backoff_max : Int64
  pub wake : Bool

-- What `persistJob` comes to: the job is saved; or an error before the rename; or an error of the
-- sync after it.
pub data Persist : Type 0 where
  persisted not_persisted persisted_unsynced : Persist

pub data ReplicationError : Type 0 where
  invalid_config not_exist persist_failed : ReplicationError
  remote_failed : String → ReplicationError

pub data Outcome {ℓ} (A : Type ℓ) : Type ℓ where
  done : A → Outcome A
  failed : ReplicationError → Outcome A

-- The id of a job is made of its operation and its file.
unfoldable pub job_id_of : Operation → String → String
job_id_of operation file_id = String.◌++◌ (operation_name operation) (String.◌++◌ "-" file_id)

unfoldable pub is_failed : JobStatus → Bool
is_failed job_pending = false
is_failed job_running = false
is_failed job_failed = true
is_failed job_completed = false

unfoldable pub is_pending : JobStatus → Bool
is_pending job_pending = true
is_pending job_running = false
is_pending job_failed = false
is_pending job_completed = false

unfoldable pub is_running : JobStatus → Bool
is_running job_pending = false
is_running job_running = true
is_running job_failed = false
is_running job_completed = false
