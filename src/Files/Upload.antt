-- ===== src/Files/Upload.antt =====
-- Uploads in chunks: `StartUpload`, `AppendUpload`, `CompleteUpload` and `AbortUpload` of
-- pkg/files/store.go.
pub mod Sessions
pub mod Chunks
pub mod Rollback
pub mod Complete
pub mod Sequence
pub mod Start
pub mod Abort
pub mod Unsynced
use astra_store_xion.Base.{
  ℕ, ◌+◌, String, Bool, true, false, not, ◌&&◌, ◌||◌, Option, none, some, List, [], ◌∷◌, length,
  take, ltb, ◌==◌, str_eq, if◌then◌else◌,
}
use astra_store_xion.Base.Int64.{Int64, int64, is_neg, add64, sub64, lt64, le64}
use astra_store_xion.Files.Model.{
  Err, invalid_upload, storage_paused, corrupt_metadata, upload_not_found, upload_offset_conflict,
  upload_incomplete, upload_checksum_mismatch, upload_too_large, upload_chunk_size, File, available,
  Reader, MultipartStartInput, UploadSession, uploading, completed, is_uploading, is_completed,
}
use astra_store_xion.Files.Text.{
  is_blank, trim_space, to_lower, equal_fold, is_sha256, owner_from_metadata, clean_display_name,
}
use astra_store_xion.Files.Usage.{UsageKind, usage_file, usage_upload}
use astra_store_xion.Files.Disk.{
  file_json, session_json, plain, uploads, object_path, manifest_path, session_data_path,
  session_manifest_path,
}
use astra_store_xion.Files.World.{Result, ok, err, Env, World, Ctx, bytes_of}
use astra_store_xion.Files.Io.{
  M, pure, raise, or_raise, ◌>>=◌, ◌>>◌, raise_if, from_result, ignore, on_error, attempt,
  if_missing, syscall, check, read_file, create_excl, copy_to, truncate, rename, remove, remove_all,
  mkdir, stat_size, sync_directory, now, draw_id, write_manifest,
}
use astra_store_xion.Files.Read.{require_id, get_unlocked, get_upload_unlocked}
use astra_store_xion.Files.Account.{
  ensure_usage_locked, enforce_quota_unlocked, writes_paused_unlocked,
}
use astra_store_xion.Files.Put.{content_type_for, move}
use astra_store_xion.Files.Sweep.{release, sweep_uploads_unlocked}

-- A checksum is left out, or is 64 hexadecimal digits.
unfoldable pub bad_checksum : String → Bool
bad_checksum checksum = not (is_blank checksum) && not (is_sha256 checksum)

-- Whether a digest differs from the checksum, if one is given.
unfoldable pub differs : String → String → Bool
differs checksum actual = not (is_blank checksum) && not (equal_fold checksum actual)

-- `io.LimitReader`: an error that comes after the limit is not seen.
unfoldable pub limited : Int64 → Reader → Reader
limited n r =
    if le64 n 0
    then record { bytes = []; failure = none }
    else if ltb (length r.bytes) n
    then r
    else record { bytes = take n r.bytes; failure = none }

module _ (env : Env) where
  abbrev pub new_session : MultipartStartInput → String → ℕ → UploadSession
  new_session input id created = record {
    id = id;
    file_id = "";
    name = clean_display_name input.name;
    content_type = content_type_for env input.content_type (clean_display_name input.name);
    size = input.size;
    checksum = to_lower (trim_space input.checksum);
    received_bytes = 0;
    status = uploading;
    created_at = created;
    updated_at = created;
    metadata = input.metadata;
  }

  -- From the new directory to the session on disk; a failure removes the directory.
  unfoldable pub create_session : UploadSession → M (Unit {0})
  create_session session =
      on_error
        (do
          create_excl (session_data_path session.id)
          syscall
          write_manifest env (session_manifest_path session.id) (session_json session)
          sync_directory)
        (ignore (remove_all uploads (plain session.id)))

  -- What `StartUpload` does under the lock.
  unfoldable pub start_locked : MultipartStartInput → UploadSession → M UploadSession
  start_locked input session = do
    paused ← writes_paused_unlocked env
    raise_if paused storage_paused
    t ← now env
    _ ← sweep_uploads_unlocked env t
    ensure_usage_locked env
    enforce_quota_unlocked env (owner_from_metadata input.metadata) input.size
    mkdir uploads (plain session.id)
    create_session session
    move (owner_from_metadata session.metadata) none (some usage_upload) session.size
    pure session

  unfoldable pub start_upload : Ctx → MultipartStartInput → M UploadSession
  start_upload ctx input = do
    check ctx
    raise_if (le64 input.size 0) invalid_upload
    raise_if (bad_checksum input.checksum) invalid_upload
    id ← draw_id env
    created ← now env
    start_locked input (new_session input id created)

  -- The closure `rollback`.
  unfoldable pub rollback : String → Int64 → M (Unit {0})
  rollback id initial = do ignore (truncate env (session_data_path id) initial); ignore syscall

  abbrev pub advanced : UploadSession → Int64 → ℕ → UploadSession
  advanced session written t = record session {
    received_bytes = add64 session.received_bytes written;
    updated_at = t;
  }

  -- From the first byte that is written; every failure rolls the part file back.
  unfoldable pub write_chunk : UploadSession → Int64 → Int64 → Reader → String → M UploadSession
  write_chunk session remaining chunk_size reader checksum =
      on_error
        (do
          bytes ← copy_to env (session_data_path session.id) (limited (add64 chunk_size 1) reader)
          raise_if (lt64 remaining (int64 (length bytes))) upload_too_large
          raise_if (not (int64 (length bytes) == chunk_size)) upload_chunk_size
          raise_if (differs (trim_space checksum) (env.digest bytes)) upload_checksum_mismatch
          syscall
          t ← now env
          let next = advanced session (int64 (length bytes)) t
          write_manifest env (session_manifest_path session.id) (session_json next)
          sync_directory
          pure next)
        (rollback session.id session.received_bytes)

  -- What `AppendUpload` does under the lock.
  unfoldable pub append_locked : String → Int64 → Int64 → Reader → String → M UploadSession
  append_locked id offset chunk_size reader checksum = do
    session ← get_upload_unlocked env id
    raise_if (not (is_uploading session.status)) upload_offset_conflict
    raise_if (not (offset == session.received_bytes)) upload_offset_conflict
    paused ← writes_paused_unlocked env
    raise_if paused storage_paused
    _ ← if_missing corrupt_metadata (read_file (session_data_path id))
    initial ← stat_size env (session_data_path id)
    raise_if (not (initial == session.received_bytes)) corrupt_metadata
    let remaining = sub64 session.size session.received_bytes
    raise_if (is_neg remaining) corrupt_metadata
    raise_if (lt64 remaining chunk_size) upload_too_large
    write_chunk session remaining chunk_size reader checksum

  unfoldable pub append_upload :
      Ctx → String → Int64 → Int64 → Option Reader → String → M UploadSession
  append_upload ctx id offset chunk_size body checksum = do
    require_id id
    reader ← or_raise body invalid_upload
    raise_if (is_neg offset || le64 chunk_size 0) invalid_upload
    raise_if (bad_checksum checksum) invalid_upload
    check ctx
    append_locked id offset chunk_size reader checksum

  abbrev pub completed_file : UploadSession → String → String → File
  completed_file session file_id checksum = record {
    id = file_id;
    name = session.name;
    content_type = session.content_type;
    size = session.size;
    checksum = checksum;
    status = available;
    created_at = session.created_at;
    metadata = session.metadata;
    deleted_at = none;
  }

  abbrev pub finished : UploadSession → String → ℕ → UploadSession
  finished session file_id t = record session {
    file_id = file_id;
    status = completed;
    updated_at = t;
  }

  -- From the renamed part file on; a failure removes the object and the manifest.
  unfoldable pub publish_upload : String → UploadSession → File → M (Unit {0})
  publish_upload id session stored =
      on_error
        (do
          sync_directory
          write_manifest env (manifest_path stored.id) (file_json stored)
          sync_directory
          t ← now env
          write_manifest env (session_manifest_path id)
              (session_json (finished session stored.id t))
          sync_directory)
        (do ignore (remove (object_path stored.id)); ignore (remove (manifest_path stored.id)))

  -- The part file becomes an object under a fresh id.
  unfoldable pub commit_upload : Ctx → String → UploadSession → M File
  commit_upload ctx id session = do
    raise_if (not (session.received_bytes == session.size)) upload_incomplete
    body ← if_missing corrupt_metadata (read_file (session_data_path id))
    check ctx
    syscall
    let actual = env.digest (bytes_of env body)
    raise_if (differs session.checksum actual) upload_checksum_mismatch
    file_id ← draw_id env
    rename (session_data_path id) (object_path file_id)
    let stored = completed_file session file_id actual
    publish_upload id session stored
    move (owner_from_metadata session.metadata) (some usage_upload) (some usage_file) session.size
    ignore (remove (session_data_path id))
    pure stored

  unfoldable pub complete_upload : Ctx → String → M File
  complete_upload ctx id = do
    require_id id
    check ctx
    session ← get_upload_unlocked env id
    if is_completed session.status && not (is_blank session.file_id)
        then get_unlocked env session.file_id
        else commit_upload ctx id session

  unfoldable pub abort_session : String → UploadSession → M (Unit {0})
  abort_session id session = do
    raise_if (is_completed session.status) invalid_upload
    remove_all uploads (plain id)
    sync_directory
    release (owner_from_metadata session.metadata) usage_upload session.size

  unfoldable pub abort_found : String → Result UploadSession → M (Unit {0})
  abort_found id (err upload_not_found) = pure tt
  abort_found id (err e) = raise e
  abort_found id (ok session) = abort_session id session

  unfoldable pub abort_upload : Ctx → String → M (Unit {0})
  abort_upload ctx id = do
    require_id id
    check ctx
    session ← attempt (get_upload_unlocked env id)
    abort_found id session
