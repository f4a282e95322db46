-- ===== src/Gateway/Handlers.antt =====
-- The handlers of core/apigateway/handlers.go, and the routes to them. The file service passes each call
-- on to the store, so that every optional interface of it is there.
use astra_store_xion.Base.{
  ℕ, ◌-◌, ◌*◌, String, Bool, true, false, ◌||◌, not, Option, none, some, List, length, take, leb,
  ◌==◌, str_eq, string_key, if◌then◌else◌,
}
use astra_store_xion.Base.Int64.{Int64, add64, sub64, is_neg, lt64, le64}
use astra_store_xion.Files.Model.{max_bytes, Reader, MultipartStartInput}
use astra_store_xion.Files.Text.{is_blank, trim_space}
use astra_store_xion.Files.World.{Env, live, done}
use astra_store_xion.Files.Read.{get, get_upload, open_file}
use astra_store_xion.Files.Account.{capacity, quota}
use astra_store_xion.Files.Upload.{start_upload, append_upload, complete_upload, abort_upload}
use astra_store_xion.Files.Sweep.{sweep_uploads}
use astra_store_xion.Files.Trash.{delete, restore, purge_trash}
use astra_store_xion.Files.Listing.{count, list, list_trash, list_uploads}
use astra_store_xion.Files.Ready.{ready}
use astra_store_xion.Replication.Jobs.{
  operation_upload, operation_delete, operation_restore, Manager, Outcome, failed, not_exist,
}
use astra_store_xion.Replication.Manager.{retry}
use astra_store_xion.Gateway.Model.{
  Body, no_body, status_body, file_body, file_list_body, session_body, session_list_body,
  removed_body, capacity_body, quota_body, replication_body, download_body, Response, write_error,
  write_json, handle_service_error, handle_upload_error, Gateway, UploadStartRequest,
  PurgeTrashRequest, Formats, Request, Occasion, Site, Step, H, pure, reply, ◌>>=◌, ◌>>◌, reply_if,
  call, final, enqueue_job, goes_on,
}
use astra_store_xion.Gateway.Text.{query_integer, parse_content_range, provided_token}
use astra_store_xion.Gateway.Multipart.{Parts, or_reply, upload}

-- The routes of `newRouter`, with what the path and the body hold.
pub data Route : Type 0 where
  get_health get_ready list_files get_capacity get_quota list_deleted get_replication : Route
  list_sessions sweep_sessions : Route
  post_file : Option Parts → Route
  post_restore get_status get_file delete_file retry_job complete_session get_session
        abort_session :
      String → Route
  post_purge start_session : List ℕ → Route
  put_chunk : String → Reader → Route

-- `http.MaxBytesReader`
unfoldable pub max_bytes_reader : Int64 → Reader → Reader
max_bytes_reader limit r =
    if leb (length r.bytes) limit
    then r
    else record { bytes = take limit r.bytes; failure = some max_bytes }

abbrev pub invalid_pagination : Response
invalid_pagination = write_error 400 "invalid_pagination"

-- The limit and the offset of a listing.
unfoldable pub pagination : Request → H (Int64 × Int64)
pagination request = do
  limit ← or_reply (query_integer request.limit 100) invalid_pagination
  reply_if (lt64 limit 1 || lt64 1000 limit) invalid_pagination
  offset ← or_reply (query_integer request.offset 0) invalid_pagination
  reply_if (is_neg offset) invalid_pagination
  pure (limit, offset)

abbrev pub before : ℕ → Option Int64 → Option ℕ → Option (Option ℕ)
before now (some duration) t = if is_neg duration then none else some (some (now - duration))
before now none (some t) = some (some t)
before now none none = none

-- `parsePurgeCutoff`: the zero time is `none`, and a time before the first is the first.
unfoldable pub parse_purge_cutoff : Formats → ℕ → PurgeTrashRequest → Option (Option ℕ)
parse_purge_cutoff fmt now payload =
    let value = trim_space payload.older_than in
    if payload.all
    then some none
    else if is_blank value
    then none
    else before now (fmt.parse_duration value) (fmt.parse_time value)

abbrev pub empty_purge : PurgeTrashRequest
empty_purge = record { older_than = ""; all = false }

-- The body is read only if the request has one.
abbrev pub purge_payload : Formats → Request → List ℕ → Option PurgeTrashRequest
purge_payload fmt request body =
    if request.content_length == 0 then some empty_purge else fmt.purge_json (take (4 * 1024) body)

abbrev pub start_input : UploadStartRequest → MultipartStartInput
start_input p = record {
  name = p.filename;
  content_type = p.content_type;
  size = p.size;
  checksum = p.checksum;
  metadata = p.metadata;
}

-- `Status`, of which the jobs are shown
abbrev pub replication_status : Option Manager → Body
replication_status none = replication_body none
replication_status (some m) = replication_body (some m.jobs)

abbrev pub retry_response : Outcome (Unit {0}) → Response
retry_response (Outcome.done u) = write_json 202 (status_body "queued")
retry_response (failed not_exist) = write_error 404 "replication_job_not_found"
retry_response (failed e) = write_error 500 "replication_retry_failed"

abbrev pub retried_site : Outcome (Unit {0}) × Manager → Site → Step Response × Site
retried_site (r, m) site = (goes_on (retry_response r), record site { replicator = some m })

abbrev pub retry_with : Occasion → String → Option Manager → H Response
retry_with o id none = reply (write_error 501 "replication_unavailable")
retry_with o id (some m) = elim o.ctx [
  | live ↦ retried_site (retry o.clock o.persists id m)
  | done ↦ reply (write_error 500 "replication_retry_failed")
]

unfoldable pub retry_replication : Occasion → String → H Response
retry_replication o id site = retry_with o id site.replicator site

-- The routes that `newRouter` leaves open.
unfoldable pub is_open : Route → Bool
is_open get_health = true
is_open get_ready = true
is_open route = false

module _ (env : Env) (fmt : Formats) (g : Gateway) (o : Occasion) where
  unfoldable pub download : String → H Response
  download id = do
    (stored, bytes) ← call handle_service_error (open_file env o.ctx id)
    pure (
        write_json 200
          (download_body stored.content_type stored.size stored.name stored.checksum bytes))

  unfoldable pub status : String → H Response
  status id = do
    stored ← call handle_service_error (get env o.ctx id)
    pure (write_json 200 (file_body stored))

  unfoldable pub list_handler : Request → H Response
  list_handler request = do
    (limit, offset) ← pagination request
    stored ← call handle_service_error (list env o.ctx limit offset)
    total ← call handle_service_error (count o.later)
    pure (write_json 200 (file_list_body (length stored) total stored))

  unfoldable pub capacity_handler : H Response
  capacity_handler = do
    c ← call handle_service_error (capacity env o.ctx)
    pure (write_json 200 (capacity_body c))

  unfoldable pub quota_handler : Request → H Response
  quota_handler request = do
    q ← call handle_service_error (quota env o.ctx request.owner)
    pure (write_json 200 (quota_body q))

  unfoldable pub list_trash_handler : Request → H Response
  list_trash_handler request = do
    (limit, offset) ← pagination request
    stored ← call handle_service_error (list_trash env o.ctx limit offset)
    pure (write_json 200 (file_list_body (length stored) 0 stored))

  unfoldable pub restore_handler : Request → String → H Response
  restore_handler request id = do
    stored ← call handle_service_error (restore env o.ctx id)
    enqueue_job request o operation_restore stored.id
    pure (write_json 200 (file_body stored))

  unfoldable pub delete_handler : Request → String → H Response
  delete_handler request id = do
    _ ← call handle_service_error (delete env o.ctx id)
    enqueue_job request o operation_delete id
    pure (write_json 204 no_body)

  unfoldable pub purge_trash_handler : Request → List ℕ → H Response
  purge_trash_handler request body = do
    payload ← or_reply (purge_payload fmt request body) (write_error 400 "invalid_request")
    cutoff ← or_reply (parse_purge_cutoff fmt o.clock payload) (write_error 400 "invalid_request")
    removed ← call handle_service_error (purge_trash env o.ctx cutoff)
    pure (write_json 200 (removed_body removed))

  unfoldable pub ready_handler : H Response
  ready_handler = do
    _ ← call (λ e. write_error 503 "not_ready") (ready env o.ctx o.random)
    pure (write_json 200 (status_body "ready"))

  unfoldable pub start_upload_handler : List ℕ → H Response
  start_upload_handler body = do
    payload ← or_reply (fmt.start_json (take (64 * 1024) body)) (write_error 400 "invalid_upload")
    reply_if (le64 payload.size 0) (write_error 400 "invalid_upload")
    reply_if (lt64 g.max_upload_bytes payload.size) (write_error 413 "file_too_large")
    session ← call handle_upload_error (start_upload env o.ctx (start_input payload))
    pure (write_json 201 (session_body session))

  unfoldable pub get_upload_handler : String → H Response
  get_upload_handler id = do
    session ← call handle_upload_error (get_upload env o.ctx id)
    pure (write_json 200 (session_body session))

  unfoldable pub append_upload_handler : Request → String → Reader → H Response
  append_upload_handler request id body = do
    (offset, end, total) ←
        or_reply (parse_content_range request.content_range)
          (write_error 400 "invalid_content_range")
    session ← call handle_upload_error (get_upload env o.ctx id)
    reply_if (not (total == session.size)) (write_error 400 "invalid_content_range")
    let chunk_size = add64 (sub64 end offset) 1
    reply_if (not (request.content_length == chunk_size)) (write_error 400 "invalid_content_length")
    updated ← call handle_upload_error (
        append_upload env o.later id offset chunk_size (some (max_bytes_reader chunk_size body))
          request.chunk_checksum)
    pure (write_json 200 (session_body updated))

  unfoldable pub complete_upload_handler : Request → String → H Response
  complete_upload_handler request id = do
    file ← call handle_upload_error (complete_upload env o.ctx id)
    enqueue_job request o operation_upload file.id
    pure (write_json 201 (file_body file))

  unfoldable pub abort_upload_handler : String → H Response
  abort_upload_handler id = do
    _ ← call handle_upload_error (abort_upload env o.ctx id)
    pure (write_json 204 no_body)

  unfoldable pub list_uploads_handler : H Response
  list_uploads_handler = do
    sessions ← call handle_upload_error (list_uploads env o.ctx)
    pure (write_json 200 (session_list_body (length sessions) (length sessions) sessions))

  unfoldable pub sweep_uploads_handler : H Response
  sweep_uploads_handler = do
    removed ← call handle_upload_error (sweep_uploads env o.ctx)
    pure (write_json 200 (removed_body removed))

  unfoldable pub serve : Request → Route → H Response
  serve request get_health = pure (write_json 200 (status_body "ok"))
  serve request get_ready = ready_handler
  serve request (post_file form) = upload env fmt g o request form
  serve request list_files = list_handler request
  serve request get_capacity = capacity_handler
  serve request get_quota = quota_handler request
  serve request (post_restore id) = restore_handler request id
  serve request (get_status id) = status id
  serve request (get_file id) = download id
  serve request (delete_file id) = delete_handler request id
  serve request list_deleted = list_trash_handler request
  serve request (post_purge body) = purge_trash_handler request body
  serve request get_replication =
      λ site. (goes_on (write_json 200 (replication_status site.replicator)), site)
  serve request (retry_job id) = retry_replication o id
  serve request (start_session body) = start_upload_handler body
  serve request list_sessions = list_uploads_handler
  serve request sweep_sessions = sweep_uploads_handler
  serve request (complete_session id) = complete_upload_handler request id
  serve request (get_session id) = get_upload_handler id
  serve request (put_chunk id body) = append_upload_handler request id body
  serve request (abort_session id) = abort_upload_handler id

  unfoldable pub authenticate : Request → H (Unit {0})
  authenticate request =
      reply_if (not (str_eq (provided_token request.authorization) g.token))
        (write_error 401 "unauthorized")

  unfoldable pub routed : Request → Route → H Response
  routed request route =
      if is_open route then serve request route else (do authenticate request; serve request route)

  unfoldable pub handle : Request → Route → Site → Response × Site
  handle request route site = let (s, site') = routed request route site in (final s, site')
