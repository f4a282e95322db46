-- ===== src/Files/Upload/Chunks.antt =====
-- `AppendUpload` of a good chunk on an open session.
use astra_store_xion.Base.{
  ℕ, ◌+◌, ◌-◌, ◌≤◌, ◌<◌, ◌^◌, String, ◌≡◌, ◌==◌, true, false, some, none, List, [], ◌++◌, arith,
  length, length-append, string_key,
}
use astra_store_xion.Base.Dict.{Dict, insert, lookup-insert_self, lookup-insert, insert-insert}
use astra_store_xion.Base.Int64.{
  Int64, le64, lt64, add64, int64_small, is_neg_small, le64_nonneg, lt64_nonneg, sub64_le,
  add64_small,
}
use astra_store_xion.Files.Model.{UploadSession, Reader, is_uploading}
use astra_store_xion.Files.Text.{trim_space, valid_id}
use astra_store_xion.Files.Disk.{
  Name, plain, json, json_tmp, part, name_key, Content, raw, session_json, folder, uploads,
}
use astra_store_xion.Files.World.{Env, World, ok, live}
use astra_store_xion.Files.Io.{Out, block_steps, write_manifest}
use astra_store_xion.Files.Io.Runs.{bind_runs, on_error_runs, write_manifest-under}
use astra_store_xion.Files.Account.{is_paused}
use astra_store_xion.Files.Account.Quotas.{IsReady, writes_paused_runs}
use astra_store_xion.Files.Read.{require_id}
use astra_store_xion.Files.Upload.{
  differs, bad_checksum, limited, advanced, rollback, write_chunk, append_locked, append_upload,
}
use astra_store_xion.Files.Upload.Sessions.{IsOpen, get_upload_runs}

-- A chunk of the announced length is read whole.
pub limited_whole :
    (reader : Reader)
    → length reader.bytes < 2 ^ 63 - 1
    → limited (add64 (length reader.bytes) 1) reader ≡ reader
unfolding limited le64 add64
limited_whole reader small = ground (arith, small)

abbrev pub files_after : Dict Name Content → UploadSession → List ℕ → Dict Name Content
files_after m session bytes =
    insert (json "manifest") (session_json session) (insert (part "data") (raw bytes) m)

abbrev pub after_append : World → UploadSession → List ℕ → Dict Name Content → World
after_append w next bytes m = record w {
  disk = record w.disk {
    uploads = insert (plain next.id) (folder (files_after m next bytes)) w.disk.uploads;
  };
  ticks = w.ticks + 1;
}

module _ (env : Env) (w : World) (session : UploadSession) (bytes : List ℕ) (m : Dict Name Content)
    (o : IsOpen w session bytes m) where
  write_chunk_runs :
      (reader : Reader) (remaining : Int64) (checksum : String)
      → reader.failure ≡ none
      → remaining < 2 ^ 63 - 1
      → length reader.bytes ≤ remaining
      → differs (trim_space checksum) (env.digest reader.bytes) ≡ false
      → let next = advanced env session (length reader.bytes) (env.clock w.ticks) in
        write_chunk env session remaining (length reader.bytes) reader checksum w []
        ≡ (ok next, after_append w next (bytes ++ reader.bytes) m, [])
  unfolding write_chunk rollback block_steps
  write_chunk_runs reader remaining checksum whole small fits agrees =
      let less : length reader.bytes < 2 ^ 63 - 1 = omega (arith, small, fits) in
      let next = advanced env session (length reader.bytes) (env.clock w.ticks) in
      let short = int64_small (length reader.bytes) (omega (arith, less)) in
      let within : lt64 remaining (length reader.bytes) ≡ false =
        rw (lt64_nonneg remaining (length reader.bytes) (omega arith) (omega (arith, less)))
          (ground (arith, fits)) in
      let exact : (length reader.bytes == length reader.bytes) ≡ true = ground arith in
      on_error_runs _ _ (
        simp (limited_whole reader less, whole, short, o.entry, o.part_file, within, exact, agrees)
          (bind_runs (write_manifest env _ _) _
            (write_manifest-under env uploads (plain session.id)
              (insert (part "data") (raw (bytes ++ reader.bytes)) m) (session_json session)
              (session_json next) _ (lookup-insert_self _ _ _)
              (rw
                (lookup-insert (part "data") (json_tmp "manifest") (raw (bytes ++ reader.bytes)) m)
                o.no_leftover)
              (rw (lookup-insert (part "data") (json "manifest") (raw (bytes ++ reader.bytes)) m)
                o.manifest))
            (simp insert-insert)))

  pub after_append-IsOpen :
      (chunk : List ℕ) (t : ℕ)
      → length bytes + length chunk ≤ session.size
      → let next = advanced env session (length chunk) t in
        IsOpen
          (after_append w next (bytes ++ chunk) m)
          next
          (bytes ++ chunk)
          (files_after m next (bytes ++ chunk))
  after_append-IsOpen chunk t fits =
      let sum = length-append bytes chunk in
      record {
        entry = lookup-insert_self _ _ _;
        manifest = lookup-insert_self _ _ _;
        no_leftover = simp (lookup-insert, o.no_leftover);
        part_file = simp lookup-insert;
        status = o.status;
        received = simp (
          o.received,
          sum,
          add64_small (length bytes) (length chunk) (omega (arith, fits, o.representable)),
        );
        bounded = omega (arith, sum, fits);
        positive = o.positive;
        representable = o.representable;
      }

  -- A chunk that fits by its announced length reaches the part file.
  pub append_reaches :
      (n : ℕ) (reader : Reader) (checksum : String) {out : Out UploadSession}
      → IsReady w
      → valid_id session.id ≡ true
      → bad_checksum checksum ≡ false
      → 1 ≤ n
      → length bytes + n ≤ session.size
      → is_paused w.pause_at_percent (env.stat_fs w.disk) ≡ false
      → write_chunk env session (session.size - length bytes) n reader checksum w [] ≡ out
      → append_upload env live session.id session.received_bytes n (some reader) checksum w [] ≡ out
  unfolding append_upload append_locked require_id is_uploading block_steps
  append_reaches n reader checksum ready valid formed nonempty fits running e =
      let less : length bytes < 2 ^ 63 = omega (arith, fits, o.representable) in
      let less_chunk : n < 2 ^ 63 = omega (arith, fits, o.representable) in
      let nonneg = is_neg_small (length bytes) less in
      let some_bytes : le64 n 0 ≡ false =
        rw (le64_nonneg n 0 less_chunk (omega arith)) (ground (arith, nonempty)) in
      let left = sub64_le session.size (length bytes) o.representable o.bounded in
      let sound = is_neg_small (session.size - length bytes) (omega (arith, o.representable)) in
      let enough : lt64 (session.size - length bytes) n ≡ false =
        rw (lt64_nonneg (session.size - length bytes) n (omega (arith, o.representable)) less_chunk)
          (ground (arith, fits)) in
      let short = int64_small (length bytes) less in
      let same : (length bytes == length bytes) ≡ true = ground arith in
      simp
        (
          valid,
          formed,
          nonneg,
          some_bytes,
          get_upload_runs w session bytes m env o,
          o.status,
          o.received,
          same,
          writes_paused_runs env w ready,
          running,
          o.entry,
          o.part_file,
          short,
          left,
          sound,
          enough,
        )
        e

  -- On an open session and a ready store that is not paused, a chunk whose offset is what was
  -- received, whose body has the announced length and ends without an error, which fits into what is
  -- missing and whose checksum is absent or agrees: `AppendUpload` where no system call fails
  -- returns the session with its length added, and the session on disk then holds the old bytes
  -- followed by the chunk. The declared size is below 2 ^ 63 - 1.
  pub append_extends :
      (reader : Reader) (checksum : String)
      → IsReady w
      → valid_id session.id ≡ true
      → bad_checksum checksum ≡ false
      → reader.failure ≡ none
      → 1 ≤ length reader.bytes
      → length bytes + length reader.bytes ≤ session.size
      → session.size < 2 ^ 63 - 1
      → differs (trim_space checksum) (env.digest reader.bytes) ≡ false
      → is_paused w.pause_at_percent (env.stat_fs w.disk) ≡ false
      → let next = advanced env session (length reader.bytes) (env.clock w.ticks) in
        let w' = after_append w next (bytes ++ reader.bytes) m in
        (append_upload env live session.id session.received_bytes
            (length reader.bytes)
            (some reader)
            checksum
            w
            []
          ≡ (ok next, w', []))
        × IsOpen w' next (bytes ++ reader.bytes) (files_after m next (bytes ++ reader.bytes))
  append_extends reader checksum ready valid formed whole nonempty fits room agrees running = (
    append_reaches (length reader.bytes) reader checksum ready valid formed nonempty fits running (
        write_chunk_runs reader (session.size - length bytes) checksum whole (omega (arith, room))
          (omega (arith, fits)) agrees),
    after_append-IsOpen reader.bytes (env.clock w.ticks) fits,
  )
