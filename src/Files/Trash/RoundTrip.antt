-- ===== src/Files/Trash/RoundTrip.antt =====
-- `Delete`, then `Restore`, where nothing fails.
use astra_store_xion.Base.{
  ℕ, ◌+◌, ◌≡◌, ◌==◌, refl, true, false, some, none, List, [], arith, length, string_key, ap, sym,
}
use astra_store_xion.Base.Dict.{
  Dict, lookup-empty, lookup, insert, erase, lookup-insert_self, lookup-insert, lookup-erase,
  insert-insert, erase-insert, beq_refl,
}
use astra_store_xion.Base.Int64.{int64}
use astra_store_xion.Files.Model.{not_found, File}
use astra_store_xion.Files.Text.{valid_id, owner_from_metadata}
use astra_store_xion.Files.Usage.{usage_file, usage_trash, move_usage}
use astra_store_xion.Files.Disk.{
  trash_object_path, object_path, Name, plain, json, name_key, Content, raw, file_json, plain_file,
  folder, trash,
}
use astra_store_xion.Files.World.{Env, World, ok, err, live}
use astra_store_xion.Files.Io.{M, ◌>>◌, pure, block_steps, steps, on_error, rename, write_manifest}
use astra_store_xion.Files.Io.Runs.{bind_runs, on_error_runs, write_manifest-under}
use astra_store_xion.Files.Read.{
  bad_file, bad_trash, require_id, get, get_unlocked, get_trash_unlocked, open_file,
}
use astra_store_xion.Files.Put.{or_else, move}
use astra_store_xion.Files.Trash.{
  deleted, undeleted, trash_manifest, move_to_trash, delete, restore_manifest, restore,
}

-- A sound record with its object, of which the trash has nothing.
pub record IsStored (w : World) (f : File) (bytes : List ℕ) : Type 0 where
  pub object : lookup (plain f.id) w.disk.objects ≡ some (plain_file (raw bytes))
  pub manifest : lookup (json f.id) w.disk.metadata ≡ some (plain_file (file_json f))
  pub active : f.deleted_at ≡ none
  pub no_trash : lookup (plain f.id) w.disk.trash ≡ none
  pub sound : bad_file f.id f ≡ false
  pub valid : valid_id f.id ≡ true
  pub size : int64 (length bytes) ≡ f.size

abbrev pub trashed_files : File → List ℕ → Dict Name Content
trashed_files f bytes =
    insert (json "manifest") (file_json f) (insert (plain "object") (raw bytes) [])

module _ (env : Env) (w : World) (f : File) (bytes : List ℕ) where
  abbrev pub gone : File
  gone = deleted env f (env.clock w.ticks)

  abbrev pub after_delete : World
  after_delete = record w {
    disk = record w.disk {
      objects = erase (plain f.id) w.disk.objects;
      metadata = erase (json f.id) w.disk.metadata;
      trash = insert (plain f.id) (folder (trashed_files gone bytes)) w.disk.trash;
    };
    usage =
        move_usage w.usage_valid (owner_from_metadata f.metadata) (some usage_file)
          (some usage_trash) f.size 1 w.usage;
    ticks = w.ticks + 1;
  }

  -- The object is in the trash already.
  abbrev halfway : World
  halfway = record w {
    disk = record w.disk {
      objects = erase (plain f.id) w.disk.objects;
      trash = insert (plain f.id) (folder (insert (plain "object") (raw bytes) [])) w.disk.trash;
    };
  }

  abbrev trashed : World
  trashed = record halfway {
    disk = record halfway.disk {
      metadata = erase (json f.id) w.disk.metadata;
      trash = insert (plain f.id) (folder (trashed_files gone bytes)) w.disk.trash;
    };
    ticks = w.ticks + 1;
  }

  trash_manifest_runs :
      IsStored w f bytes → trash_manifest env f.id halfway [] ≡ (ok gone, trashed, [])
  unfolding trash_manifest block_steps
  trash_manifest_runs o = on_error_runs _ _ (
      simp (o.manifest, lookup-insert_self, lookup-insert, lookup-empty, beq_refl f.id)
        (bind_runs (write_manifest env _ _) _
          (write_manifest-under env trash (plain f.id)
            (insert (json "manifest") (file_json f) (insert (plain "object") (raw bytes) []))
            (file_json f) (file_json gone) _ (lookup-insert_self _ _ _)
            (simp (lookup-insert, lookup-empty)) (lookup-insert_self _ _ _))
          (simp insert-insert)))

  delete_runs : IsStored w f bytes → delete env live f.id w [] ≡ (ok tt, after_delete, [])
  unfolding delete move_to_trash require_id move block_steps on_error
  delete_runs o =
      simp
        (o.valid, o.object, o.manifest, o.no_trash, lookup-insert_self, lookup-empty, insert-insert)
        (bind_runs (trash_manifest env f.id) _ (trash_manifest_runs o) refl)

emptied :
    (f : File) (bytes : List ℕ)
    → erase (json "manifest") (erase (plain "object") (trashed_files f bytes)) ≡ []
unfolding insert erase
emptied f bytes = ground arith

module _ (env : Env) (w : World) (f : File) (bytes : List ℕ) (o : IsStored w f bytes) where
  get_trash_runs :
      get_trash_unlocked env f.id (after_delete env w f bytes) []
      ≡ (ok (gone env w f bytes), after_delete env w f bytes, [])
  unfolding get_trash_unlocked bad_trash bad_file block_steps
  get_trash_runs =
      let same : (f.size == f.size) ≡ true = ground arith in
      let sound : bad_file f.id f ≡ false = o.sound in
      simp (lookup-insert_self, lookup-insert, o.size, same, sound)

  kept : undeleted env f ≡ f
  kept = ap (λ d. record f { deleted_at = d }) (sym o.active)

  abbrev pub after_restore : World
  after_restore = record (after_delete env w f bytes) {
    disk = record w.disk {
      objects = insert (plain f.id) (plain_file (raw bytes)) (erase (plain f.id) w.disk.objects);
      metadata = insert (json f.id) (plain_file (file_json f)) (erase (json f.id) w.disk.metadata);
    };
    usage =
        move_usage w.usage_valid (owner_from_metadata f.metadata) (some usage_trash)
          (some usage_file) f.size 1 (after_delete env w f bytes).usage;
  }

  abbrev with_object : World
  with_object = record (after_delete env w f bytes) {
    disk = record (after_delete env w f bytes).disk {
      objects = insert (plain f.id) (plain_file (raw bytes)) (erase (plain f.id) w.disk.objects);
      trash =
          insert (plain f.id) (folder (erase (plain "object") (trashed_files f bytes)))
            w.disk.trash;
    };
  }

  abbrev restored : World
  restored = record (after_delete env w f bytes) { disk = after_restore.disk }

  restore_manifest_runs : restore_manifest env f.id with_object [] ≡ (ok tt, restored, [])
  unfolding restore_manifest block_steps
  restore_manifest_runs =
      let manifest = lookup-erase (plain "object") (json "manifest") (trashed_files f bytes) in
      let written =
        lookup-insert_self (json "manifest") (file_json f)
          (insert (plain "object") (raw bytes) []) in
      on_error_runs _ _ (
        simp (
          lookup-insert_self,
          manifest,
          lookup-erase (json f.id) (json f.id) w.disk.metadata,
          beq_refl (json f.id),
          insert-insert,
          emptied f bytes,
          erase-insert (plain f.id) (folder []) w.disk.trash o.no_trash,
        ))

  -- The manifest in the trash has lost its time of deletion.
  abbrev marked : World
  marked = record (after_delete env w f bytes) {
    disk = record (after_delete env w f bytes).disk {
      trash =
          insert (plain f.id)
            (folder (
              insert (json "manifest") (file_json (undeleted env f))
                (trashed_files (gone env w f bytes) bytes)))
            (insert (plain f.id) (folder (trashed_files (gone env w f bytes) bytes)) w.disk.trash);
    };
  }

  object_back :
      rename (trash_object_path f.id) (object_path f.id) marked [] ≡ (ok tt, with_object, [])
  unfolding block_steps
  object_back =
      let bytes_there : lookup (plain "object") (trashed_files f bytes) ≡ some (raw bytes) =
        simp lookup-insert in
      let vacated = lookup-erase (plain f.id) (plain f.id) w.disk.objects in
      simp (kept, insert-insert, lookup-insert_self, bytes_there, vacated, beq_refl (plain f.id))

  restore_runs : restore env live f.id (after_delete env w f bytes) [] ≡ (ok f, after_restore, [])
  unfolding restore or_else require_id move block_steps
  restore_runs =
      let last : M File =
        move (owner_from_metadata f.metadata) (some usage_trash) (some usage_file) f.size
        >> pure (undeleted env f) in
      simp (o.valid, get_trash_runs, lookup-erase, beq_refl (plain f.id))
        (bind_runs (write_manifest env _ _) _
          (write_manifest-under env trash (plain f.id) (trashed_files (gone env w f bytes) bytes)
            (file_json (gone env w f bytes)) (file_json (undeleted env f)) _
            (lookup-insert_self _ _ _) (simp (lookup-insert, lookup-empty))
            (lookup-insert_self _ _ _))
          (bind_runs (rename (trash_object_path f.id) (object_path f.id))
            (λ _. restore_manifest env f.id >> last) {w = marked} {p = []} object_back
            (bind_runs (restore_manifest env f.id) (λ _. last) restore_manifest_runs (simp kept))))

  -- For an active file with a sound record, its object and nothing in the trash, where no system
  -- call fails: `Delete` succeeds, `Get` then says that it is not found, `Restore` returns the
  -- record that the file had, and `Open` after that returns this record and its bytes.
  pub delete-restore :
      (delete env live f.id w [] ≡ (ok tt, after_delete env w f bytes, []))
      × (get env live f.id (after_delete env w f bytes) []
          ≡ (err not_found, after_delete env w f bytes, []))
      × (restore env live f.id (after_delete env w f bytes) [] ≡ (ok f, after_restore, []))
      × (open_file env live f.id after_restore [] ≡ (ok (f, bytes), after_restore, []))
  unfolding get open_file get_unlocked require_id steps
  delete-restore =
      let sound : bad_file f.id f ≡ false = o.sound in
      (
        delete_runs env w f bytes o,
        simp (o.valid, lookup-erase (json f.id) (json f.id) w.disk.metadata, beq_refl (json f.id)),
        restore_runs,
        simp (o.valid, lookup-insert_self, sound),
      )
