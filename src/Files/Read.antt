-- ===== src/Files/Read.antt =====
-- Reading the manifests of pkg/files/store.go: `getUnlocked`, `getTrashUnlocked`,
-- `getUploadUnlocked`, and the public `Get`, `GetUpload` and `Open`.
pub mod Relates
pub mod Results
pub mod Session
use astra_store_xion.Base.{
  ℕ, String, Bool, true, false, not, ◌&&◌, ◌||◌, Option, none, some, List, str_eq, ◌==◌,
  if◌then◌else◌,
}
use astra_store_xion.Base.Int64.{is_neg, le64, lt64}
use astra_store_xion.Files.Model.{
  invalid_id, not_found, corrupt_metadata, upload_not_found, File, UploadSession, is_available,
  is_uploading, is_completed,
}
use astra_store_xion.Files.Text.{is_blank, valid_id}
use astra_store_xion.Files.Disk.{
  Content, raw, file_json, session_json, object_path, manifest_path, session_data_path,
  session_manifest_path, trash_object_path, trash_manifest_path,
}
use astra_store_xion.Files.World.{Env, Ctx, bytes_of}
use astra_store_xion.Files.Io.{
  M, pure, or_raise, ◌>>=◌, ◌>>◌, raise_if, if_missing, check, read_file, stat_size,
}

-- `json.Unmarshal` into a `File`
abbrev pub decode_file : Content → Option File
decode_file (raw bs) = none
decode_file (file_json f) = some f
decode_file (session_json s) = none

abbrev pub decode_session : Content → Option UploadSession
decode_session (raw bs) = none
decode_session (file_json f) = none
decode_session (session_json s) = some s

abbrev pub is_nil : Option ℕ → Bool
is_nil none = true
is_nil (some t) = false

-- The test that `getUnlocked` makes of a manifest.
unfoldable pub bad_file : String → File → Bool
bad_file id f =
    not (str_eq f.id id) || not (is_available f.status) || is_neg f.size || is_blank f.checksum

unfoldable pub bad_trash : String → File → Bool
bad_trash id f = bad_file id f || is_nil f.deleted_at

unfoldable pub bad_session : String → UploadSession → Bool
bad_session id s =
    not (str_eq s.id id)
    || not (is_uploading s.status || is_completed s.status)
    || le64 s.size 0
    || is_neg s.received_bytes
    || lt64 s.size s.received_bytes

-- A completed session must name a file.
unfoldable pub bad_completed : UploadSession → Bool
bad_completed s = is_completed s.status && (is_blank s.file_id || not (valid_id s.file_id))

unfoldable pub require_id : String → M (Unit {0})
require_id id = raise_if (not (valid_id id)) invalid_id

module _ (env : Env) where
  unfoldable pub get_unlocked : String → M File
  get_unlocked id = do
    text ← if_missing not_found (read_file (manifest_path id))
    stored ← or_raise (decode_file text) corrupt_metadata
    raise_if (bad_file id stored) corrupt_metadata
    pure stored

  unfoldable pub get_trash_unlocked : String → M File
  get_trash_unlocked id = do
    text ← if_missing not_found (read_file (trash_manifest_path id))
    stored ← or_raise (decode_file text) corrupt_metadata
    raise_if (bad_trash id stored) corrupt_metadata
    size ← if_missing corrupt_metadata (stat_size env (trash_object_path id))
    raise_if (not (size == stored.size)) corrupt_metadata
    pure stored

  -- A session that is still uploading has a part file of the length that it has received.
  unfoldable pub check_part : String → UploadSession → M (Unit {0})
  check_part id session =
      if is_uploading session.status
      then (do
        size ← if_missing corrupt_metadata (stat_size env (session_data_path id))
        raise_if (not (size == session.received_bytes)) corrupt_metadata)
      else pure tt

  unfoldable pub get_upload_unlocked : String → M UploadSession
  unfolding check_part
  get_upload_unlocked id = do
    text ← if_missing upload_not_found (read_file (session_manifest_path id))
    session ← or_raise (decode_session text) corrupt_metadata
    raise_if (bad_session id session) corrupt_metadata
    check_part id session
    raise_if (bad_completed session) corrupt_metadata
    pure session

  unfoldable pub get : Ctx → String → M File
  unfolding require_id get_unlocked
  get ctx id = do require_id id; check ctx; get_unlocked id

  unfoldable pub get_upload : Ctx → String → M UploadSession
  unfolding require_id get_upload_unlocked
  get_upload ctx id = do require_id id; check ctx; get_upload_unlocked id

  -- `Open`: the record, and the bytes that the body will deliver.
  unfoldable pub open_file : Ctx → String → M (File × List ℕ)
  unfolding require_id get_unlocked
  open_file ctx id = do
    require_id id
    check ctx
    stored ← get_unlocked id
    body ← if_missing not_found (read_file (object_path id))
    pure (stored, bytes_of env body)
