-- ===== src/Gateway/Model.antt =====
-- Requests, responses and handlers of core/apigateway/handlers.go. The messages of the responses and
-- the headers that do not depend on the request are left out.
use astra_store_xion.Base.{
  ℕ, String, Bool, true, false, Option, none, some, List, if◌then◌else◌, str_eq,
}
use astra_store_xion.Base.Dict.{Dict}
use astra_store_xion.Base.Int64.{Int64}
use astra_store_xion.Files.Model.{
  Err, invalid_id, invalid_upload, file_exists, restore_conflict, storage_paused, quota_exceeded,
  not_found, cancelled, max_bytes, upload_too_large, upload_chunk_size, upload_not_found,
  upload_offset_conflict, upload_incomplete, upload_checksum_mismatch, File, UploadSession,
  Capacity, Quota,
}
use astra_store_xion.Files.World.{Result, ok, err, Fault, World, Ctx, live, done}
use astra_store_xion.Files.Io.{M}
use astra_store_xion.Replication.Jobs.{Job, Manager, Persist, Operation}
use astra_store_xion.Replication.Manager.{enqueue}

-- The values that `writeJSON` encodes, and the streamed file of `download` with its headers.
pub data Body : Type 0 where
  no_body : Body
  error_body : String → Bool → Body
  status_body : String → Body
  file_body : File → Body
  file_list_body : ℕ → ℕ → List File → Body
  session_body : UploadSession → Body
  session_list_body : ℕ → ℕ → List UploadSession → Body
  removed_body : ℕ → Body
  capacity_body : Capacity → Body
  quota_body : Quota → Body
  replication_body : Option (Dict String Job) → Body
  download_body : String → Int64 → String → String → List ℕ → Body

pub record Response : Type 0 where
  pub status : ℕ
  pub body : Body

unfoldable pub write_error : ℕ → String → Response
write_error status code = record { status = status; body = error_body code false }

-- `writeErrorWithRetry` with `retryable`
unfoldable pub write_retryable : ℕ → String → Response
write_retryable status code = record { status = status; body = error_body code true }

unfoldable pub write_json : ℕ → Body → Response
write_json status body = record { status = status; body = body }

unfoldable pub handle_service_error : Err → Response
handle_service_error invalid_id = write_error 400 "invalid_request"
handle_service_error invalid_upload = write_error 400 "invalid_request"
handle_service_error file_exists = write_error 409 "file_exists"
handle_service_error restore_conflict = write_error 409 "file_restore_conflict"
handle_service_error storage_paused = write_retryable 507 "storage_paused"
handle_service_error quota_exceeded = write_retryable 507 "quota_exceeded"
handle_service_error not_found = write_error 404 "not_found"
handle_service_error cancelled = write_error 408 "request_timeout"
handle_service_error e = write_error 500 "internal_error"

unfoldable pub handle_upload_error : Err → Response
handle_upload_error max_bytes = write_error 413 "file_too_large"
handle_upload_error upload_too_large = write_error 413 "file_too_large"
handle_upload_error invalid_id = write_error 400 "invalid_upload"
handle_upload_error invalid_upload = write_error 400 "invalid_upload"
handle_upload_error upload_chunk_size = write_error 400 "invalid_upload"
handle_upload_error upload_not_found = write_error 404 "upload_not_found"
handle_upload_error upload_offset_conflict = write_error 409 "upload_offset_conflict"
handle_upload_error upload_incomplete = write_error 409 "upload_incomplete"
handle_upload_error upload_checksum_mismatch = write_error 422 "upload_checksum_mismatch"
handle_upload_error storage_paused = write_retryable 507 "storage_paused"
handle_upload_error quota_exceeded = write_retryable 507 "quota_exceeded"
handle_upload_error cancelled = write_error 408 "request_timeout"
handle_upload_error e = write_error 500 "internal_error"

pub record Gateway : Type 0 where
  pub token : String
  pub max_upload_bytes : Int64

pub record UploadStartRequest : Type 0 where
  pub filename : String
  pub content_type : String
  pub size : Int64
  pub checksum : String
  pub metadata : Dict String String

pub record PurgeTrashRequest : Type 0 where
  pub older_than : String
  pub all : Bool

-- encoding/json and the texts of package time. Metadata is decoded into the map that is there.
pub record Formats : Type 0 where
  pub metadata_json : List ℕ → Dict String String → Option (Dict String String)
  pub start_json : List ℕ → Option UploadStartRequest
  pub purge_json : List ℕ → Option PurgeTrashRequest
  pub parse_duration : String → Option Int64
  pub parse_time : String → Option ℕ

-- The headers and query values that the handlers read. An absent one is empty.
pub record Request : Type 0 where
  pub authorization : String
  pub replication : String
  pub replication_file_id : String
  pub content_range : String
  pub content_length : Int64
  pub chunk_checksum : String
  pub limit : String
  pub offset : String
  pub owner : String

-- What a request meets: its context at the first call and at the later ones, the clock, the writes
-- of the replication manager, and the random part of a temporary name.
pub record Occasion : Type 0 where
  pub ctx : Ctx
  pub later : Ctx
  pub clock : ℕ
  pub persist : Persist
  pub persists : Job → Persist
  pub random : String

-- The store with the faults that are to come, and the replication manager, if there is one.
pub record Site : Type 0 where
  pub world : World
  pub faults : List Fault
  pub replicator : Option Manager

-- A handler answers early or goes on.
pub data Step {ℓ} (A : Type ℓ) : Type ℓ where
  replied : Response → Step A
  goes_on : A → Step A

abbrev pub H {ℓ} : Type ℓ → Type ℓ
H A = Site → Step A × Site

unfoldable pub pure {ℓ} : {A : Type ℓ} → A → H A
pure a site = (goes_on a, site)

unfoldable pub reply {ℓ} : {A : Type ℓ} → Response → H A
reply r site = (replied r, site)

module _ {ℓ κ} {A : Type ℓ} {B : Type κ} where
  abbrev pub after : Step A → (A → H B) → H B
  after (replied r) f site = (replied r, site)
  after (goes_on a) f site = f a site

  infixl 5 ◌>>=◌
  unfoldable pub ◌>>=◌ : H A → (A → H B) → H B
  ◌>>=◌ m f site = let (s, site') = m site in after s f site'

infixl 5 ◌>>◌
abbrev pub ◌>>◌ {ℓ} : {B : Type ℓ} → H (Unit {0}) → H B → H B
m >> k = m >>= λ _. k

unfoldable pub reply_if : Bool → Response → H (Unit {0})
reply_if true r = reply r
reply_if false r = pure tt

abbrev pub answer {ℓ} : {A : Type ℓ} → (Err → Response) → Result A → Step A
answer on_err (ok a) = goes_on a
answer on_err (err e) = replied (on_err e)

-- An operation of the store, whose error is answered.
unfoldable pub call {ℓ} : {A : Type ℓ} → (Err → Response) → M A → H A
call on_err m site =
    let (r, w, p) = m site.world site.faults in
    (answer on_err r, record site { world = w; faults = p })

-- An operation of the store, whose error is only logged.
unfoldable pub try {ℓ} : {A : Type ℓ} → M A → H (Unit {0})
try m site =
    let (r, w, p) = m site.world site.faults in (goes_on tt, record site { world = w; faults = p })

-- The response of a handler that has gone on to its end is its result.
abbrev pub final : Step Response → Response
final (replied r) = r
final (goes_on r) = r

unfoldable pub is_marked : Request → Bool
is_marked request = str_eq request.replication "true"

-- An enqueue whose context has ended does nothing.
abbrev pub enqueue_in : Ctx → Occasion → Operation → String → Manager → Manager
enqueue_in live o operation id m = (enqueue o.clock o.persist operation id m).1
enqueue_in done o operation id m = m

abbrev pub queued : Occasion → Operation → String → Option Manager → Option Manager
queued o operation id none = none
queued o operation id (some m) = some (enqueue_in o.later o operation id m)

-- `enqueueUpload`, `enqueueDelete` and `enqueueRestore`: an error is only logged.
unfoldable pub enqueue_job : Request → Occasion → Operation → String → H (Unit {0})
enqueue_job request o operation id site =
    if is_marked request
    then (goes_on tt, site)
    else (goes_on tt, record site { replicator = queued o operation id site.replicator })
