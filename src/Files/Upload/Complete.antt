-- ===== src/Files/Upload/Complete.antt =====
-- `CompleteUpload` of a session that has all its bytes.
use astra_store_xion.Base.{
  ℕ, ◌+◌, String, ◌≡◌, ◌==◌, refl, true, false, some, none, string_key, List, [], arith, length,
}
use astra_store_xion.Base.Dict.{
  Dict, lookup, insert, erase, lookup-insert_self, lookup-insert, lookup-erase, insert-insert,
  beq_refl,
}
use astra_store_xion.Base.Int64.{is_neg_small}
use astra_store_xion.Files.Model.{File, UploadSession, is_completed, is_available}
use astra_store_xion.Files.Text.{is_blank, valid_id, owner_from_metadata}
use astra_store_xion.Files.Usage.{usage_file, usage_upload, move_usage}
use astra_store_xion.Files.Disk.{
  Name, plain, json, json_tmp, part, name_key, Content, raw, file_json, session_json, plain_file,
  folder, uploads,
}
use astra_store_xion.Files.World.{Env, World, ok, live}
use astra_store_xion.Files.Io.{steps, block_steps, write_manifest}
use astra_store_xion.Files.Io.Runs.{
  bind_runs, on_error_runs, write_manifest-at, write_manifest-under,
}
use astra_store_xion.Files.Read.{bad_file, require_id, get_unlocked, open_file}
use astra_store_xion.Files.Put.{move}
use astra_store_xion.Files.Upload.{
  differs, completed_file, finished, publish_upload, commit_upload, complete_upload,
}
use astra_store_xion.Files.Upload.Sessions.{IsOpen, get_upload_runs}

-- No object and no manifest has the id.
pub record IsUnused (w : World) (id : String) : Type 0 where
  pub no_object : lookup (plain id) w.disk.objects ≡ none
  pub no_manifest : lookup (json id) w.disk.metadata ≡ none
  pub no_leftover : lookup (json_tmp id) w.disk.metadata ≡ none

module _ (env : Env) (w : World) (session : UploadSession) (files : Dict Name Content) where
  abbrev published : File → World
  published f = record w {
    disk = record w.disk {
      metadata = insert (json f.id) (plain_file (file_json f)) w.disk.metadata;
      uploads =
          insert (plain session.id)
            (folder (
              insert (json "manifest")
                (session_json (finished env session f.id (env.clock w.ticks))) files))
            w.disk.uploads;
    };
    ticks = w.ticks + 1;
  }

  publish_upload_runs :
      (f : File)
      → lookup (plain session.id) w.disk.uploads ≡ some (folder files)
      → lookup (json "manifest") files ≡ some (session_json session)
      → lookup (json_tmp "manifest") files ≡ none
      → lookup (json f.id) w.disk.metadata ≡ none
      → lookup (json_tmp f.id) w.disk.metadata ≡ none
      → publish_upload env session.id session f w [] ≡ (ok tt, published f, [])
  unfolding publish_upload block_steps
  publish_upload_runs f entry there fresh no_manifest no_leftover = on_error_runs _ _ (
      bind_runs (write_manifest env _ _) _
        (write_manifest-at env f.id (file_json f) w no_leftover no_manifest)
        (bind_runs (write_manifest env _ _) _
          (write_manifest-under env uploads (plain session.id) files (session_json session) _ _
            entry fresh there)
          refl))

module _ (env : Env) (w : World) (session : UploadSession) (bytes : List ℕ)
    (m : Dict Name Content) where
  abbrev pub completed_as : File
  completed_as = completed_file env session (env.new_id w.drawn) (env.digest bytes)

  abbrev pub after_complete : World
  after_complete = record w {
    disk = record w.disk {
      objects = insert (plain (env.new_id w.drawn)) (plain_file (raw bytes)) w.disk.objects;
      metadata =
          insert (json (env.new_id w.drawn)) (plain_file (file_json completed_as)) w.disk.metadata;
      uploads =
          insert (plain session.id)
            (folder (
              insert (json "manifest")
                (session_json (finished env session (env.new_id w.drawn) (env.clock w.ticks)))
                (erase (part "data") m)))
            w.disk.uploads;
    };
    usage =
        move_usage w.usage_valid (owner_from_metadata session.metadata) (some usage_upload)
          (some usage_file) session.size 1 w.usage;
    drawn = w.drawn + 1;
    ticks = w.ticks + 1;
  }

  -- The part file has become the object.
  abbrev renamed : World
  renamed = record w {
    disk = record w.disk {
      objects = insert (plain (env.new_id w.drawn)) (plain_file (raw bytes)) w.disk.objects;
      uploads = insert (plain session.id) (folder (erase (part "data") m)) w.disk.uploads;
    };
    drawn = w.drawn + 1;
  }

  complete_upload_runs :
      IsOpen w session bytes m
      → IsUnused w (env.new_id w.drawn)
      → valid_id session.id ≡ true
      → length bytes ≡ session.size
      → differs session.checksum (env.digest bytes) ≡ false
      → complete_upload env live session.id w [] ≡ (ok completed_as, after_complete, [])
  unfolding complete_upload commit_upload require_id is_completed move block_steps
  complete_upload_runs o unused valid whole agrees =
      let all_there : (session.received_bytes == session.size) ≡ true =
        rw o.received (ground (arith, whole)) in
      simp
        (
          valid,
          get_upload_runs w session bytes m env o,
          o.status,
          all_there,
          o.entry,
          o.part_file,
          agrees,
          unused.no_object,
        )
        (bind_runs (publish_upload env session.id session completed_as) _
          (publish_upload_runs env renamed session (erase (part "data") m) completed_as
            (lookup-insert_self _ _ _)
            (rw (lookup-erase (part "data") (json "manifest") m) o.manifest)
            (rw (lookup-erase (part "data") (json_tmp "manifest") m) o.no_leftover)
            unused.no_manifest unused.no_leftover)
          (simp (lookup-insert_self, lookup-insert, lookup-erase, insert-insert)))

  -- On an open session that has all its bytes, whose checksum is absent or agrees, with a fresh file
  -- id that is valid and unused and a digest that is not blank: `CompleteUpload` where no system
  -- call fails returns a file of the session's name and size, moves the owner's charge from uploads
  -- to files, and `Open` of that file returns the bytes of the session.
  pub complete_open :
      IsOpen w session bytes m
      → IsUnused w (env.new_id w.drawn)
      → valid_id session.id ≡ true
      → valid_id (env.new_id w.drawn) ≡ true
      → length bytes ≡ session.size
      → differs session.checksum (env.digest bytes) ≡ false
      → is_blank (env.digest bytes) ≡ false
      → (complete_upload env live session.id w [] ≡ (ok completed_as, after_complete, []))
        × (open_file env live completed_as.id after_complete []
            ≡ (ok (completed_as, bytes), after_complete, []))
  unfolding open_file get_unlocked require_id bad_file is_available steps
  complete_open o unused valid valid_new whole agrees sealed =
      let nonneg = is_neg_small session.size o.representable in
      (
        complete_upload_runs o unused valid whole agrees,
        simp (valid_new, lookup-insert_self, beq_refl (env.new_id w.drawn), nonneg, sealed),
      )
