-- ===== src/Files/Put/Runs.antt =====
-- `Put` where nothing fails: what it stores, and what `Get` and `Open` then return.
use astra_store_xion.Base.{ℕ, ◌+◌, String, ◌≡◌, refl, true, false, none, some, List, [], length}
use astra_store_xion.Base.Dict.{lookup, insert, lookup-insert_self, erase-insert-insert}
use astra_store_xion.Base.Int64.{int64}
use astra_store_xion.Files.Model.{File, UploadInput, Reader}
use astra_store_xion.Files.Text.{owner_from_metadata}
use astra_store_xion.Files.Usage.{usage_file, move_usage}
use astra_store_xion.Files.Disk.{
  plain, json, json_tmp, part, name_key, raw, file_json, plain_file, Disk,
}
use astra_store_xion.Files.World.{Env, World, ok}
use astra_store_xion.Files.Io.{◌>>=◌, steps, on_error, syscall}
use astra_store_xion.Files.Io.Runs.{with_disk, bind_runs, write_manifest-at}
use astra_store_xion.Files.Account.{is_paused}
use astra_store_xion.Files.Account.Quotas.{
  IsReady, admits, ensure_runs, enforce_runs, writes_paused_runs,
}
use astra_store_xion.Files.Put.{
  or_else, move, id_taken, store_object, publish, put_locked, stored_file,
}

-- No file, active or trashed, has the id, and no leftover of an earlier attempt is in the way.
pub record IsFree (w : World) (id : String) : Type 0 where
  pub no_object : lookup (plain id) w.disk.objects ≡ none
  pub no_manifest : lookup (json id) w.disk.metadata ≡ none
  pub no_leftover : lookup (json_tmp id) w.disk.metadata ≡ none
  pub no_part : lookup (part id) w.disk.tmp ≡ none
  pub no_trash : lookup (plain id) w.disk.trash ≡ none

-- The disk with the object and the manifest of a file.
abbrev pub with_file : Disk → File → List ℕ → Disk
with_file d f bytes = record d {
  objects = insert (plain f.id) (plain_file (raw bytes)) d.objects;
  metadata = insert (json f.id) (plain_file (file_json f)) d.metadata;
}

module _ (env : Env) (w : World) (ready : IsReady w) where
  store_object_runs :
      (id owner : String) (reader : Reader)
      → IsFree w id
      → reader.failure ≡ none
      → admits w owner (int64 (length reader.bytes)) ≡ true
      → store_object env id owner reader
          (with_disk w (record w.disk { tmp = insert (part id) (plain_file (raw [])) w.disk.tmp }))
          []
        ≡ (
          ok reader.bytes,
          with_disk w (record w.disk {
            objects = insert (plain id) (plain_file (raw reader.bytes)) w.disk.objects;
          }),
          [],
        )
  unfolding store_object steps
  store_object_runs id owner reader free whole fits =
      simp
        (
          lookup-insert_self,
          whole,
          enforce_runs env _ [] (record { load = ready.load; valid = ready.valid }) owner
              (int64 (length reader.bytes)) fits,
          free.no_object,
        )
        (rw (
          erase-insert-insert (part id) (plain_file (raw reader.bytes)) (plain_file (raw []))
            w.disk.tmp free.no_part))

  publish_runs :
      (f : File)
      → lookup (json_tmp f.id) w.disk.metadata ≡ none
      → lookup (json f.id) w.disk.metadata ≡ none
      → publish env f w [] ≡ (
        ok tt,
        with_disk w (record w.disk {
          metadata = insert (json f.id) (plain_file (file_json f)) w.disk.metadata;
        }),
        [],
      )
  unfolding publish on_error ◌>>=◌ syscall
  publish_runs f fresh free = simp (write_manifest-at env f.id (file_json f) w fresh free) refl

  id_taken_runs : (id : String) → IsFree w id → id_taken env id w [] ≡ (ok false, w, [])
  unfolding id_taken or_else steps
  id_taken_runs id free = simp (free.no_object, free.no_manifest, free.no_trash)

-- The world after a `Put` that nothing hinders.
abbrev pub after_put : World → File → List ℕ → World
after_put w f bytes = record w {
  disk = with_file w.disk f bytes;
  ticks = w.ticks + 1;
  usage =
      move_usage w.usage_valid (owner_from_metadata f.metadata) none (some usage_file) f.size 1
        w.usage;
}

module _ (env : Env) (w : World) (ready : IsReady w) where
  pub put_locked_runs :
      (input : UploadInput) (reader : Reader) (id : String)
      → IsFree w id
      → reader.failure ≡ none
      → is_paused w.pause_at_percent (env.stat_fs w.disk) ≡ false
      → admits w (owner_from_metadata input.metadata) (int64 (length reader.bytes)) ≡ true
      → let f = stored_file env input id reader.bytes (env.clock w.ticks) in
        put_locked env input reader id w [] ≡ (ok f, after_put w f reader.bytes, [])
  unfolding put_locked move steps
  put_locked_runs input reader id free whole running fits =
      let f = stored_file env input id reader.bytes (env.clock w.ticks) in
      simp
        (
          writes_paused_runs env w ready,
          running,
          ensure_runs env w [] ready,
          id_taken_runs env w ready id free,
          free.no_part,
          store_object_runs env w ready id (owner_from_metadata input.metadata) reader free whole
              fits,
        )
        (bind_runs (publish env f) _
          (publish_runs env _ (record { load = ready.load; valid = ready.valid }) f free.no_leftover
            free.no_manifest)
          refl)
