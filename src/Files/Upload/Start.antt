-- ===== src/Files/Upload/Start.antt =====
-- `StartUpload` where nothing fails: the session that it opens.
use astra_store_xion.Base.{
  ℕ, ◌+◌, ◌≤◌, ◌<◌, ◌^◌, ◌≡◌, refl, true, false, some, none, [], ◌∷◌, arith,
}
use astra_store_xion.Base.Dict.{
  Dict, lookup, insert, lookup-insert_self, lookup-insert, lookup-empty, insert-insert,
}
use astra_store_xion.Base.Int64.{le64, le64_nonneg}
use astra_store_xion.Files.Model.{UploadSession, MultipartStartInput}
use astra_store_xion.Files.Text.{owner_from_metadata}
use astra_store_xion.Files.Usage.{usage_upload, move_usage}
use astra_store_xion.Files.Disk.{
  Name, plain, json, part, name_key, Content, raw, session_json, folder, uploads,
}
use astra_store_xion.Files.World.{Env, World, ok, live}
use astra_store_xion.Files.Io.{block_steps, write_manifest}
use astra_store_xion.Files.Io.Runs.{bind_runs, on_error_runs, write_manifest-first}
use astra_store_xion.Files.Account.{is_paused}
use astra_store_xion.Files.Account.Quotas.{
  IsReady, admits, ensure_runs, enforce_runs, writes_paused_runs,
}
use astra_store_xion.Files.Put.{move}
use astra_store_xion.Files.Sweep.{sweep_uploads_unlocked}
use astra_store_xion.Files.Upload.{
  bad_checksum, new_session, create_session, start_locked, start_upload,
}
use astra_store_xion.Files.Upload.Sessions.{IsOpen}

abbrev pub first_files : UploadSession → Dict Name Content
first_files session =
    insert (json "manifest") (session_json session) (insert (part "data") (raw []) [])

sweep_off :
    (env : Env) (w : World) (t : ℕ)
    → w.upload_ttl ≡ 0
    → sweep_uploads_unlocked env t w [] ≡ (ok 0, w, [])
unfolding sweep_uploads_unlocked block_steps
sweep_off env w t off = rw off

module _ (env : Env) where
  create_session_runs :
      (w : World) (session : UploadSession)
      → lookup (plain session.id) w.disk.uploads ≡ some (folder [])
      → create_session env session w [] ≡ (
        ok tt,
        record w {
          disk = record w.disk {
            uploads = insert (plain session.id) (folder (first_files session)) w.disk.uploads;
          };
        },
        [],
      )
  unfolding create_session block_steps lookup insert
  create_session_runs w session entry = on_error_runs _ _ (
      simp entry (
        bind_runs (write_manifest env _ _) _
          (write_manifest-first env uploads (plain session.id) ((part "data", raw []) ∷ [])
            (session_json session) _ (lookup-insert_self (plain session.id) _ w.disk.uploads) refl
            refl)
          (simp insert-insert)))

module _ (env : Env) (w : World) where
  abbrev pub opened : MultipartStartInput → UploadSession
  opened input = new_session env input (env.new_id w.drawn) (env.clock w.ticks)

  abbrev pub after_start : UploadSession → World
  after_start session = record w {
    disk = record w.disk {
      uploads = insert (plain session.id) (folder (first_files session)) w.disk.uploads;
    };
    usage =
        move_usage w.usage_valid (owner_from_metadata session.metadata) none (some usage_upload)
          session.size 1 w.usage;
    drawn = w.drawn + 1;
    ticks = w.ticks + 1 + 1;
  }

  start_upload_runs :
      (input : MultipartStartInput)
      → IsReady w
      → w.upload_ttl ≡ 0
      → 1 ≤ input.size
      → input.size < 2 ^ 63
      → bad_checksum input.checksum ≡ false
      → is_paused w.pause_at_percent (env.stat_fs w.disk) ≡ false
      → admits w (owner_from_metadata input.metadata) input.size ≡ true
      → lookup (plain (env.new_id w.drawn)) w.disk.uploads ≡ none
      → start_upload env live input w [] ≡ (ok (opened input), after_start (opened input), [])
  unfolding start_upload start_locked move block_steps
  start_upload_runs input ready off positive small formed running fits free =
      let sized : le64 input.size 0 ≡ false =
        rw (le64_nonneg input.size 0 small (omega arith)) (ground (arith, positive)) in
      let v = record w { drawn = w.drawn + 1; ticks = w.ticks + 1 } in
      let u = record v { ticks = v.ticks + 1 } in
      let v_ready : IsReady v = record { load = ready.load; valid = ready.valid } in
      let u_ready : IsReady u = record { load = ready.load; valid = ready.valid } in
      simp
        (
          sized,
          formed,
          writes_paused_runs env v v_ready,
          running,
          sweep_off env u _ off,
          ensure_runs env u [] u_ready,
          enforce_runs env u [] u_ready (owner_from_metadata input.metadata) input.size fits,
          free,
        )
        (bind_runs (create_session env (opened input)) _
          (create_session_runs env _ (opened input) (lookup-insert_self _ _ _))
          (simp insert-insert))

  opened-IsOpen :
      (input : MultipartStartInput)
      → 1 ≤ input.size
      → input.size < 2 ^ 63
      → IsOpen (after_start (opened input)) (opened input) [] (first_files (opened input))
  opened-IsOpen input positive small = record {
    entry = lookup-insert_self _ _ _;
    manifest = lookup-insert_self _ _ _;
    no_leftover = simp (lookup-insert, lookup-empty);
    part_file = simp lookup-insert;
    status = refl;
    received = refl;
    bounded = omega arith;
    positive = positive;
    representable = small;
  }

  -- On a ready store that is not paused, with the expiry of sessions off, a positive size below 2 ^
  -- 63 that the quota lets in, a checksum that is absent or well formed and a fresh session id
  -- without a directory: `StartUpload` where no system call fails opens an empty session of that
  -- size, charges the owner with it, and the session is open on disk.
  pub start_opens :
      (input : MultipartStartInput)
      → IsReady w
      → w.upload_ttl ≡ 0
      → 1 ≤ input.size
      → input.size < 2 ^ 63
      → bad_checksum input.checksum ≡ false
      → is_paused w.pause_at_percent (env.stat_fs w.disk) ≡ false
      → admits w (owner_from_metadata input.metadata) input.size ≡ true
      → lookup (plain (env.new_id w.drawn)) w.disk.uploads ≡ none
      → (start_upload env live input w [] ≡ (ok (opened input), after_start (opened input), []))
        × IsOpen (after_start (opened input)) (opened input) [] (first_files (opened input))
  start_opens input ready off positive small formed running fits free = (
    start_upload_runs input ready off positive small formed running fits free,
    opened-IsOpen input positive small,
  )
