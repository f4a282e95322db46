-- ===== src/Files/Upload/Unsynced.antt =====
-- `AppendUpload` whose last call, the sync of the session's directory, fails.
use astra_store_xion.Base.{
  ℕ, ◌+◌, ◌-◌, ◌≤◌, ◌<◌, ◌^◌, String, ◌≡◌, ◌==◌, refl, true, false, some, none, List, [], ◌∷◌, ◌++◌,
  arith, length, length-append, take-append_self,
}
use astra_store_xion.Base.Dict.{
  Dict, lookup, insert, lookup-insert_self, lookup-insert, insert-insert,
}
use astra_store_xion.Base.Int64.{Int64, lt64, int64, int64_small, add64, add64_small, lt64_nonneg}
use astra_store_xion.Files.Model.{corrupt_metadata, io_error, UploadSession, Reader, is_uploading}
use astra_store_xion.Files.Text.{trim_space}
use astra_store_xion.Files.Disk.{
  Name, plain, json, json_tmp, part, name_key, Content, raw, session_json, folder, uploads,
}
use astra_store_xion.Files.World.{Env, World, Fault, pass, fail, ok, err}
use astra_store_xion.Files.Io.{steps, block_steps, write_manifest}
use astra_store_xion.Files.Io.Runs.{bind_runs, on_error_fails, write_manifest-passes}
use astra_store_xion.Files.Read.{bad_session, get_upload_unlocked, check_part}
use astra_store_xion.Files.Upload.{differs, advanced, rollback, write_chunk}
use astra_store_xion.Files.Upload.Sessions.{IsOpen, IsOpen-sound}
use astra_store_xion.Files.Upload.Chunks.{files_after, after_append-IsOpen, limited_whole}

-- The write, the sync, five calls for the manifest, and then the failure.
abbrev pub last_fails : List Fault
last_fails = pass ∷ pass ∷ pass ∷ pass ∷ pass ∷ pass ∷ pass ∷ fail 0 ∷ []

-- The manifest counts the chunk; `bytes` are those of the part file.
abbrev pub torn : World → UploadSession → List ℕ → List ℕ → Dict Name Content → World
torn w next bytes appended m = record w {
  disk = record w.disk {
    uploads =
        insert (plain next.id)
          (folder (insert (part "data") (raw bytes) (files_after m next appended))) w.disk.uploads;
  };
  ticks = w.ticks + 1;
}

module _ (env : Env) (w : World) (session : UploadSession) (bytes : List ℕ) (m : Dict Name Content)
    (o : IsOpen w session bytes m) where
  rolled :
      (chunk : List ℕ) (next : UploadSession)
      → next.id ≡ session.id
      → rollback env session.id session.received_bytes
          (record w {
            disk = record w.disk {
              uploads = insert (plain session.id) (folder (files_after m next (bytes ++ chunk))) (
                  insert
                    (plain session.id)
                    (folder (insert (part "data") (raw (bytes ++ chunk)) m))
                    w.disk.uploads);
            };
            ticks = w.ticks + 1;
          })
          []
        ≡ (ok tt, torn w next bytes (bytes ++ chunk) m, [])
  unfolding rollback block_steps
  rolled chunk next same =
      let there : lookup (part "data") (files_after m next (bytes ++ chunk))
          ≡ some (raw (bytes ++ chunk)) =
        simp lookup-insert in
      simp
        (lookup-insert_self, there, o.received, take-append_self bytes chunk, insert-insert, same)

  torn_runs :
      (reader : Reader) (remaining : Int64) (checksum : String)
      → reader.failure ≡ none
      → remaining < 2 ^ 63 - 1
      → length reader.bytes ≤ remaining
      → differs (trim_space checksum) (env.digest reader.bytes) ≡ false
      → let next = advanced env session (length reader.bytes) (env.clock w.ticks) in
        write_chunk env session remaining (length reader.bytes) reader checksum w last_fails
        ≡ (err io_error, torn w next bytes (bytes ++ reader.bytes) m, [])
  unfolding write_chunk block_steps
  torn_runs reader remaining checksum whole small fits agrees =
      let next = advanced env session (length reader.bytes) (env.clock w.ticks) in
      let written = insert (part "data") (raw (bytes ++ reader.bytes)) m in
      let less : length reader.bytes < 2 ^ 63 - 1 = omega (arith, small, fits) in
      let short = int64_small (length reader.bytes) (omega (arith, less)) in
      let within : lt64 remaining (length reader.bytes) ≡ false =
        rw (lt64_nonneg remaining (length reader.bytes) (omega arith) (omega (arith, less)))
          (ground (arith, fits)) in
      let exact : (length reader.bytes == length reader.bytes) ≡ true = ground arith in
      let unrolled : World = record w {
        disk = record w.disk {
          uploads =
              insert (plain session.id) (folder (files_after m next (bytes ++ reader.bytes)))
                (insert (plain session.id) (folder written) w.disk.uploads);
        };
        ticks = w.ticks + 1;
      } in
      on_error_fails _ _ {w' = unrolled} {p' = []} {r = ok tt}
        (simp (limited_whole reader less, whole, short, o.entry, o.part_file, within, exact, agrees)
          (bind_runs (write_manifest env _ _) _
            (write_manifest-passes env uploads (plain session.id) written (session_json session)
              (session_json next) _ (fail 0 ∷ []) (lookup-insert_self _ _ _)
              (rw
                (lookup-insert (part "data") (json_tmp "manifest") (raw (bytes ++ reader.bytes)) m)
                o.no_leftover)
              (rw (lookup-insert (part "data") (json "manifest") (raw (bytes ++ reader.bytes)) m)
                o.manifest))
            refl))
        (rolled reader.bytes next refl)

  torn_read :
      (chunk : List ℕ) (t : ℕ)
      → 1 ≤ length chunk
      → length bytes + length chunk ≤ session.size
      → let next = advanced env session (length chunk) t in
        get_upload_unlocked env session.id (torn w next bytes (bytes ++ chunk) m) []
        ≡ (err corrupt_metadata, torn w next bytes (bytes ++ chunk) m, [])
  unfolding get_upload_unlocked check_part is_uploading steps
  torn_read chunk t nonempty fits =
      let next = advanced env session (length chunk) t in
      let grown = after_append-IsOpen env w session bytes m o chunk t fits in
      let sound : bad_session session.id next ≡ false =
        IsOpen-sound _ next (bytes ++ chunk) _ grown in
      let total = length-append bytes chunk in
      let count : add64 session.received_bytes (length chunk) ≡ length bytes + length chunk =
        rw o.received
          (add64_small (length bytes) (length chunk) (omega (arith, fits, o.representable))) in
      let short = int64_small (length bytes) (omega (arith, fits, o.representable)) in
      let fewer : (int64 (length bytes) == add64 session.received_bytes (length chunk)) ≡ false =
        rw (count, short) (ground (arith, nonempty)) in
      let active : is_uploading session.status ≡ true = rw o.status in
      simp (lookup-insert_self, lookup-insert, sound, active, fewer)

  -- When the last call of an append, the sync of the session's directory, fails after all else has
  -- passed, the part file is cut back to its old bytes but the manifest already counts the chunk, and
  -- the session reads as corrupt. This holds for an open session and a chunk that is not empty, fits
  -- into what is missing, has the announced length and a digest that agrees.
  pub append_unsynced :
      (reader : Reader) (checksum : String)
      → reader.failure ≡ none
      → 1 ≤ length reader.bytes
      → length bytes + length reader.bytes ≤ session.size
      → session.size < 2 ^ 63 - 1
      → differs (trim_space checksum) (env.digest reader.bytes) ≡ false
      → let w' =
          torn w
            (advanced env session (length reader.bytes) (env.clock w.ticks))
            bytes
            (bytes ++ reader.bytes)
            m in
        (write_chunk env session
            (session.size - length bytes)
            (length reader.bytes)
            reader
            checksum
            w
            last_fails
          ≡ (err io_error, w', []))
        × (get_upload_unlocked env session.id w' [] ≡ (err corrupt_metadata, w', []))
  append_unsynced reader checksum whole nonempty fits room agrees = (
    torn_runs reader (session.size - length bytes) checksum whole (omega (arith, room))
        (omega (arith, fits)) agrees,
    torn_read reader.bytes (env.clock w.ticks) nonempty fits,
  )
