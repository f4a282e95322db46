-- ===== src/Files/Model.antt =====
-- pkg/files/model.go: errors, file records, upload sessions.
use astra_store_xion.Base.{ℕ, String, Bool, true, false, Option, List}
use astra_store_xion.Base.Dict.{Dict}
use astra_store_xion.Base.Int64.{Int64}

-- The package's error values, and those that come from outside: the context's, the reader's, those of
-- the operating system, and the two of a gateway's readers, which stop at a limit. Wrapping keeps what
-- `errors.Is` finds.
pub data Err : Type 0 where
  invalid_id invalid_upload not_found corrupt_metadata storage_paused upload_not_found : Err
  upload_offset_conflict upload_incomplete upload_checksum_mismatch upload_too_large : Err
  upload_chunk_size restore_conflict file_exists quota_exceeded : Err
  cancelled read_failed not_exist io_error : Err
  file_too_large max_bytes : Err

-- `Status` of a file; the code writes and accepts only `available`.
pub data FileStatus : Type 0 where
  available : FileStatus
  other_status : String → FileStatus

pub data UploadStatus : Type 0 where
  uploading completed : UploadStatus
  other_status : String → UploadStatus

-- Times are nanoseconds. A nil metadata map reads as an empty one.
pub record File : Type 0 where
  pub id : String
  pub name : String
  pub content_type : String
  pub size : Int64
  pub checksum : String
  pub status : FileStatus
  pub created_at : ℕ
  pub metadata : Dict String String
  pub deleted_at : Option ℕ

-- What a reader delivers until it ends, and the error that it ends with.
pub record Reader : Type 0 where
  pub bytes : List ℕ
  pub failure : Option Err

pub record UploadInput : Type 0 where
  pub id : String
  pub name : String
  pub content_type : String
  pub metadata : Dict String String
  pub reader : Option Reader

pub record MultipartStartInput : Type 0 where
  pub name : String
  pub content_type : String
  pub size : Int64
  pub checksum : String
  pub metadata : Dict String String

pub record UploadSession : Type 0 where
  pub id : String
  pub file_id : String
  pub name : String
  pub content_type : String
  pub size : Int64
  pub checksum : String
  pub received_bytes : Int64
  pub status : UploadStatus
  pub created_at : ℕ
  pub updated_at : ℕ
  pub metadata : Dict String String

-- `UsedPercent`, a float that is only shown, is left out.
pub record Capacity : Type 0 where
  pub total_bytes : ℕ
  pub used_bytes : ℕ
  pub available_bytes : ℕ
  pub object_count : ℕ
  pub object_bytes : Int64
  pub metadata_count : ℕ
  pub trash_count : ℕ
  pub trash_bytes : Int64
  pub pause_at_percent : ℕ
  pub writes_paused : Bool

pub record Quota : Type 0 where
  pub owner : String
  pub limit_bytes : Int64
  pub used_bytes : Int64
  pub available_bytes : Int64

unfoldable pub is_available : FileStatus → Bool
is_available FileStatus.available = true
is_available (FileStatus.other_status s) = false

unfoldable pub is_uploading : UploadStatus → Bool
is_uploading uploading = true
is_uploading completed = false
is_uploading (UploadStatus.other_status s) = false

unfoldable pub is_completed : UploadStatus → Bool
is_completed uploading = false
is_completed completed = true
is_completed (UploadStatus.other_status s) = false
