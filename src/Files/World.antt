-- ===== src/Files/World.antt =====
-- What the operations of the store act on: the fields of `DiskStore`, the disk, and the outcomes of
-- the system calls that are still to come.
use astra_store_xion.Base.{ℕ, String, Bool, List}
use astra_store_xion.Base.Int64.{Int64}
use astra_store_xion.Files.Model.{Err, File, UploadSession}
use astra_store_xion.Files.Usage.{UsageIndex}
use astra_store_xion.Files.Disk.{Disk, Content, raw, file_json, session_json}

pub data Result {ℓ} (A : Type ℓ) : Type ℓ where
  ok : A → Result A
  err : Err → Result A

-- `sync.Once` with `loadErr`: not yet run, or the result that every later call returns.
pub data Load : Type 0 where
  not_loaded : Load
  loaded : Result (Unit {0}) → Load

pub record StatFs : Type 0 where
  pub blocks : ℕ
  pub bsize : ℕ
  pub bavail : ℕ
  pub bfree : ℕ

-- What the store takes from outside: fresh UUIDs (github.com/google/uuid), the clock, SHA-256 in hex,
-- `mime.TypeByExtension` of a file name's extension, `unix.Statfs`, the JSON texts of the records, and
-- the digits of a number.
pub record Env : Type 0 where
  pub new_id : ℕ → String
  pub clock : ℕ → ℕ
  pub digest : List ℕ → String
  pub type_by_name : String → String
  pub stat_fs : Disk → StatFs
  pub file_text : File → List ℕ
  pub session_text : UploadSession → List ℕ
  pub decimal : ℕ → String

-- A system call passes or fails; a write that fails has written so many bytes.
pub data Fault : Type 0 where
  pass : Fault
  fail : ℕ → Fault

-- `drawn` counts the UUIDs and `ticks` the readings of the clock. `upload_ttl` is in nanoseconds.
pub record World : Type 0 where
  pub disk : Disk
  pub pause_at_percent : ℕ
  pub owner_quota_bytes : Int64
  pub upload_ttl : ℕ
  pub usage : UsageIndex
  pub usage_valid : Bool
  pub load : Load
  pub drawn : ℕ
  pub ticks : ℕ

-- `ctx.Err()` where an operation begins; a cancellation while bytes are read is the reader's failure.
pub data Ctx : Type 0 where
  live done : Ctx

abbrev pub bytes_of : Env → Content → List ℕ
bytes_of env (raw bs) = bs
bytes_of env (file_json f) = env.file_text f
bytes_of env (session_json s) = env.session_text s
