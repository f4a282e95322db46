-- ===== src/Gateway/Multipart.antt =====
-- The upload of a file in a multipart form: `upload`, `readMultipartField` and `uploadLimitReader` of
-- core/apigateway/handlers.go.
use astra_store_xion.Base.{
  ℕ, ◌+◌, ◌*◌, String, Bool, ◌&&◌, ◌||◌, not, Option, none, some, List, [], ◌∷◌, length, take, ltb,
  leb, str_eq, string_key, is_some, if◌then◌else◌,
}
use astra_store_xion.Base.Dict.{Dict}
use astra_store_xion.Base.Int64.{Int64}
use astra_store_xion.Files.Model.{Err, File, Reader, UploadInput, file_too_large, max_bytes}
use astra_store_xion.Files.Text.{is_blank, trim_space}
use astra_store_xion.Files.World.{Env}
use astra_store_xion.Files.Put.{put}
use astra_store_xion.Files.Trash.{delete}
use astra_store_xion.Replication.Jobs.{operation_upload}
use astra_store_xion.Gateway.Model.{
  Response, write_error, write_json, file_body, handle_service_error, Gateway, Formats, Request,
  Occasion, H, pure, reply, ◌>>=◌, ◌>>◌, reply_if, call, try, is_marked, enqueue_job,
}

pub record Part : Type 0 where
  pub form_name : String
  pub file_name : String
  pub content_type : String
  pub reader : Reader
  pub close_fails : Bool

-- What `NextPart` delivers of a body that is cut at the limit: parts, and how they end.
pub data Parts : Type 0 where
  no_more too_large malformed : Parts
  next : Part → Parts → Parts

abbrev pub too_large_failure : Option Err → Option Err
too_large_failure (some max_bytes) = some file_too_large
too_large_failure o = o

-- What an `uploadLimitReader` delivers: at most one byte above the limit, and then the error.
unfoldable pub upload_limit_reader : Int64 → Reader → Reader
upload_limit_reader remaining r =
    if leb (length r.bytes) remaining
    then record { bytes = r.bytes; failure = too_large_failure r.failure }
    else record { bytes = take (remaining + 1) r.bytes; failure = some file_too_large }

-- `readMultipartField`: more bytes than the limit are an error, and so is a failure before that.
unfoldable pub read_multipart_field : Reader → ℕ → Option (List ℕ)
read_multipart_field r limit =
    if ltb limit (length r.bytes) || is_some r.failure then none else some r.bytes

abbrev pub decoded : Formats → Option (List ℕ) → Dict String String → Option (Dict String String)
decoded fmt none metadata = none
decoded fmt (some []) metadata = some metadata
decoded fmt (some (c ∷ cs)) metadata = fmt.metadata_json (c ∷ cs) metadata

abbrev pub or_reply {ℓ} : {A : Type ℓ} → Option A → Response → H A
or_reply none r = reply r
or_reply (some a) r = pure a

-- Where the limit was passed the error is its own, and the service's else.
unfoldable pub upload_error : Err → Response
upload_error file_too_large = write_error 413 "file_too_large"
upload_error e = handle_service_error e

abbrev pub upload_input : Gateway → String → Dict String String → Part → UploadInput
upload_input g id metadata part = record {
  id = id;
  name = part.file_name;
  content_type = part.content_type;
  metadata = metadata;
  reader = some (upload_limit_reader g.max_upload_bytes part.reader);
}

module _ (env : Env) (fmt : Formats) (g : Gateway) (o : Occasion) where
  -- `cleanupCreated`
  unfoldable pub cleanup_created : Option File → H (Unit {0})
  cleanup_created none = pure tt
  cleanup_created (some f) = try (delete env o.later f.id)

  unfoldable pub metadata_part : Dict String String → Part → H (Dict String String)
  metadata_part metadata part =
      or_reply (decoded fmt (read_multipart_field part.reader (64 * 1024)) metadata)
        (write_error 400 "invalid_metadata")

  unfoldable pub file_part : String → Dict String String → Part → H File
  file_part id metadata part = do
    reply_if (is_blank part.file_name) (write_error 400 "file_required")
    created ← call upload_error (put env o.ctx (upload_input g id metadata part))
    if part.close_fails
        then (do cleanup_created (some created); reply (write_error 400 "invalid_multipart"))
        else pure created

  -- The loop over the parts. Once a file was created nothing may follow it.
  unfoldable pub take_parts : String → Dict String String → Option File → Parts → H File
  take_parts id metadata none no_more = reply (write_error 400 "file_required")
  take_parts id metadata (some f) no_more = pure f
  take_parts id metadata created too_large = do
    cleanup_created created
    reply (write_error 413 "file_too_large")
  take_parts id metadata created malformed = do
    cleanup_created created
    reply (write_error 400 "invalid_multipart")
  take_parts id metadata (some f) (next part rest) = do
    cleanup_created (some f)
    reply (write_error 400 "invalid_multipart")
  take_parts id metadata none (next part rest) =
      let others = λ (m : Dict String String). λ (c : Option File). take_parts id m c rest in
      if str_eq part.form_name "metadata"
      then (do m ← metadata_part metadata part; others m none)
      else if str_eq part.form_name "file"
      then (do created ← file_part id metadata part; others metadata (some created))
      else reply (write_error 400 "invalid_multipart")

  -- A body that is no multipart form has no parts.
  unfoldable pub upload : Request → Option Parts → H Response
  upload request form = do
    let id = trim_space request.replication_file_id
    reply_if (not (is_blank id) && not (is_marked request))
        (write_error 400 "invalid_replication_request")
    parts ← or_reply form (write_error 400 "invalid_multipart")
    created ← take_parts id [] none parts
    enqueue_job request o operation_upload created.id
    pure (write_json 201 (file_body created))
