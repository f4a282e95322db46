-- ===== src/Files/Trash.antt =====
-- The recycle bin: `Delete` and `Restore` of pkg/files/store.go, `PurgeTrash` of
-- pkg/files/recovery.go.
pub mod RoundTrip
use astra_store_xion.Base.{
  ℕ, ◌+◌, String, Bool, true, false, not, ◌&&◌, ◌||◌, Option, none, some, List, [], ◌∷◌, str_eq,
  ltb, ◌==◌, if◌then◌else◌,
}
use astra_store_xion.Files.Model.{corrupt_metadata, restore_conflict, File}
use astra_store_xion.Files.Text.{valid_id, owner_from_metadata}
use astra_store_xion.Files.Usage.{usage_file, usage_trash}
use astra_store_xion.Files.Disk.{
  Name, plain, json, spelled, Item, plain_file, folder, file_json, objects, metadata, trash,
  object_path, manifest_path, trash_object_path, trash_manifest_path,
}
use astra_store_xion.Files.World.{Env, World, Ctx}
use astra_store_xion.Files.Io.{
  M, pure, raise, or_raise, ◌>>=◌, ◌>>◌, raise_if, ignore, on_error, check, read_file, path_exists,
  read_dir, rename, remove_folder, remove_all, mkdir, sync_directory, now, write_manifest,
}
use astra_store_xion.Files.Read.{decode_file, require_id, get_trash_unlocked}
use astra_store_xion.Files.Put.{or_else, move}
use astra_store_xion.Files.Sweep.{release, one_more}

module _ (env : Env) where
  abbrev pub deleted : File → ℕ → File
  deleted f t = record f { deleted_at = some t }

  abbrev pub undeleted : File → File
  undeleted f = record f { deleted_at = none }

  -- With the object in the trash; a failure moves both files back.
  unfoldable pub trash_manifest : String → M File
  trash_manifest id =
      on_error
        (do
          sync_directory
          rename (manifest_path id) (trash_manifest_path id)
          sync_directory
          text ← read_file (trash_manifest_path id)
          stored ← or_raise (decode_file text) corrupt_metadata
          raise_if (not (str_eq stored.id id)) corrupt_metadata
          t ← now env
          write_manifest env (trash_manifest_path id) (file_json (deleted stored t))
          sync_directory
          pure (deleted stored t))
        (do
          ignore (rename (trash_object_path id) (object_path id))
          ignore (rename (trash_manifest_path id) (manifest_path id))
          ignore (remove_all trash (plain id)))

  unfoldable pub move_to_trash : String → M (Unit {0})
  move_to_trash id = do
    mkdir trash (plain id)
    on_error (rename (object_path id) (trash_object_path id))
        (ignore (remove_folder trash (plain id)))
    stored ← trash_manifest id
    sync_directory
    move (owner_from_metadata stored.metadata) (some usage_file) (some usage_trash) stored.size

  unfoldable pub delete : Ctx → String → M (Unit {0})
  delete ctx id = do
    require_id id
    check ctx
    object_exists ← path_exists objects (plain id)
    manifest_exists ← path_exists metadata (json id)
    trash_exists ← path_exists trash (plain id)
    if not object_exists && not manifest_exists then pure tt else (do
      raise_if (not object_exists || not manifest_exists || trash_exists) corrupt_metadata
      move_to_trash id)

  -- With the object back in its place; a failure moves it to the trash again.
  unfoldable pub restore_manifest : String → M (Unit {0})
  restore_manifest id =
      on_error
        (do
          sync_directory
          rename (trash_manifest_path id) (manifest_path id)
          sync_directory
          remove_folder trash (plain id)
          sync_directory)
        (ignore (rename (object_path id) (trash_object_path id)))

  unfoldable pub restore : Ctx → String → M File
  restore ctx id = do
    require_id id
    check ctx
    trashed ← get_trash_unlocked env id
    taken ← or_else (path_exists objects (plain id)) (path_exists metadata (json id))
    raise_if taken restore_conflict
    write_manifest env (trash_manifest_path id) (file_json (undeleted trashed))
    sync_directory
    rename (trash_object_path id) (object_path id)
    restore_manifest id
    move (owner_from_metadata trashed.metadata) (some usage_trash) (some usage_file) trashed.size
    pure (undeleted trashed)

  abbrev pub deletion_time : File → Option ℕ → ℕ
  deletion_time f none = f.created_at
  deletion_time f (some t) = t

  -- `!olderThan.IsZero() && deletedAt.After(olderThan)`, where `none` is the zero time
  abbrev pub too_young : Option ℕ → ℕ → Bool
  too_young none t = false
  too_young (some older_than) t = ltb older_than t

  unfoldable pub purge_entry : Option ℕ → Name → Item → M Bool
  purge_entry older_than n (plain_file c) = pure false
  purge_entry older_than n (folder m) = do
    raise_if (not (valid_id (spelled n))) corrupt_metadata
    stored ← get_trash_unlocked env (spelled n)
    if too_young older_than (deletion_time stored stored.deleted_at) then pure false else (do
      remove_all trash n
      release (owner_from_metadata stored.metadata) usage_trash stored.size
      pure true)

  unfoldable pub purge_entries : Option ℕ → List (Name × Item) → ℕ → M ℕ
  purge_entries older_than [] purged = pure purged
  purge_entries older_than ((n, i) ∷ rest) purged = do
    gone ← purge_entry older_than n i
    purge_entries older_than rest (one_more gone purged)

  unfoldable pub purge_trash : Ctx → Option ℕ → M ℕ
  purge_trash ctx older_than = do
    check ctx
    entries ← read_dir trash
    purged ← purge_entries older_than entries 0
    if purged == 0 then pure purged else (do sync_directory; pure purged)
