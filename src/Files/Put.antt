-- ===== src/Files/Put.antt =====
-- `Put` of pkg/files/store.go.
pub mod Charges
pub mod Runs
pub mod RoundTrip
use astra_store_xion.Base.{
  ℕ, String, Bool, true, false, not, ◌&&◌, ◌||◌, Option, none, some, List, [], ◌∷◌, length,
  if◌then◌else◌,
}
use astra_store_xion.Base.Int64.{Int64, int64}
use astra_store_xion.Files.Model.{
  invalid_upload, storage_paused, file_exists, File, available, UploadInput, Reader,
}
use astra_store_xion.Files.Text.{is_blank, trim_space, owner_from_metadata, clean_display_name}
use astra_store_xion.Files.Usage.{UsageKind, usage_file, move_usage}
use astra_store_xion.Files.Disk.{
  Content, file_json, plain, json, objects, metadata, trash, object_path, manifest_path,
  temporary_path,
}
use astra_store_xion.Files.World.{Env, World, Ctx}
use astra_store_xion.Files.Io.{
  M, pure, raise, or_raise, gets, ◌>>=◌, ◌>>◌, raise_if, modify, ignore, on_error, syscall, check,
  path_exists, create_excl, copy_to, rename, remove, sync_directory, now, draw_id, write_manifest,
}
use astra_store_xion.Files.Read.{require_id}
use astra_store_xion.Files.Account.{
  ensure_usage_locked, enforce_quota_unlocked, writes_paused_unlocked,
}

-- `a() || b()`: the second call is made only if the first says no.
unfoldable pub or_else : M Bool → M Bool → M Bool
or_else a b = do x ← a; if x then pure true else b

-- The content type that is stored: the given one, else by the name's extension, else the default.
unfoldable pub content_type_for : Env → String → String → String
content_type_for env given name =
    let trimmed = trim_space given in
    let by_name = env.type_by_name name in
    if is_blank trimmed
    then if is_blank by_name then "application/octet-stream" else by_name
    else trimmed

unfoldable pub move : String → Option UsageKind → Option UsageKind → Int64 → M (Unit {0})
move owner from to size =
    modify λ w. record w { usage = move_usage w.usage_valid owner from to size 1 w.usage }

module _ (env : Env) where
  -- `uuid.NewString()` where the caller gives no id
  unfoldable pub choose_id : String → M String
  choose_id given =
      if is_blank (trim_space given)
      then draw_id env
      else (do require_id (trim_space given); pure (trim_space given))

  unfoldable pub id_taken : String → M Bool
  id_taken id =
      or_else (path_exists objects (plain id))
        (or_else (path_exists metadata (json id)) (path_exists trash (plain id)))

  -- From the open temporary file to the object in place; a failure removes the temporary file.
  unfoldable pub store_object : String → String → Reader → M (List ℕ)
  store_object id owner reader =
      on_error
        (do
          bytes ← copy_to env (temporary_path id) reader
          syscall
          syscall
          enforce_quota_unlocked env owner (int64 (length bytes))
          rename (temporary_path id) (object_path id)
          pure bytes)
        (ignore (remove (temporary_path id)))

  abbrev pub stored_file : UploadInput → String → List ℕ → ℕ → File
  stored_file input id bytes created = record {
    id = id;
    name = clean_display_name input.name;
    content_type = content_type_for env input.content_type (clean_display_name input.name);
    size = int64 (length bytes);
    checksum = env.digest bytes;
    status = available;
    created_at = created;
    metadata = input.metadata;
    deleted_at = none;
  }

  -- From the object in place to the manifest in place; a failure removes what was put there.
  unfoldable pub publish : File → M (Unit {0})
  publish stored = do
    on_error (write_manifest env (manifest_path stored.id) (file_json stored))
        (do ignore (remove (object_path stored.id)); ignore sync_directory)
    on_error sync_directory (do
      ignore (remove (manifest_path stored.id))
      ignore (remove (object_path stored.id))
      ignore sync_directory
      ignore sync_directory)

  -- What `Put` does under the lock, for an id that is fixed.
  unfoldable pub put_locked : UploadInput → Reader → String → M File
  put_locked input reader id = do
    paused ← writes_paused_unlocked env
    raise_if paused storage_paused
    ensure_usage_locked env
    taken ← id_taken id
    raise_if taken file_exists
    create_excl (temporary_path id)
    bytes ← store_object id (owner_from_metadata input.metadata) reader
    on_error sync_directory (ignore (remove (object_path id)))
    created ← now env
    let stored = stored_file input id bytes created
    publish stored
    move (owner_from_metadata input.metadata) none (some usage_file) stored.size
    pure stored

  unfoldable pub put : Ctx → UploadInput → M File
  put ctx input = do
    reader ← or_raise input.reader invalid_upload
    check ctx
    id ← choose_id input.id
    put_locked input reader id
