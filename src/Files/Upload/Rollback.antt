-- ===== src/Files/Upload/Rollback.antt =====
-- `AppendUpload` of a chunk that turns out bad once its bytes are read.
use astra_store_xion.Base.{
  ℕ, ◌+◌, ◌-◌, ◌≤◌, String, ◌≡◌, ◌==◌, true, false, not, Option, some, none, List, [], ◌++◌, length,
  take-append_self, Bool-cases, inl, inr, Option-cases, if◌then◌else◌,
}
use astra_store_xion.Base.Dict.{Dict, insert, lookup-insert_self, lookup-insert, insert-insert}
use astra_store_xion.Base.Int64.{Int64, lt64, int64, add64}
use astra_store_xion.Files.Model.{
  Err, upload_too_large, upload_chunk_size, upload_checksum_mismatch, UploadSession, Reader,
}
use astra_store_xion.Files.Text.{trim_space, valid_id}
use astra_store_xion.Files.Disk.{Name, plain, part, name_key, Content, raw, folder}
use astra_store_xion.Files.World.{Env, World, Fault, ok, err, live}
use astra_store_xion.Files.Io.{Out, block_steps, on_error}
use astra_store_xion.Files.Account.{is_paused}
use astra_store_xion.Files.Account.Quotas.{IsReady}
use astra_store_xion.Files.Upload.{
  differs, bad_checksum, limited, rollback, write_chunk, append_upload,
}
use astra_store_xion.Files.Upload.Sessions.{IsOpen}
use astra_store_xion.Files.Upload.Chunks.{append_reaches}

-- What is wrong with a chunk, by the order of the tests: its reader fails, it is longer than what is
-- missing or not of the length announced, or its digest is another.
abbrev pub chunk_fault_of : Env → Int64 → Int64 → String → List ℕ → Option Err → Option Err
chunk_fault_of env remaining n checksum bytes (some e) = some e
chunk_fault_of env remaining n checksum bytes none =
    if lt64 remaining (int64 (length bytes))
    then some upload_too_large
    else if not (int64 (length bytes) == n)
    then some upload_chunk_size
    else if differs (trim_space checksum) (env.digest bytes)
    then some upload_checksum_mismatch
    else none

unfoldable pub chunk_fault : Env → Int64 → Int64 → String → Reader → Option Err
chunk_fault env remaining n checksum reader =
    let r = limited (add64 n 1) reader in chunk_fault_of env remaining n checksum r.bytes r.failure

-- The session's directory with the part file written anew.
abbrev pub with_part : World → UploadSession → List ℕ → Dict Name Content → World
with_part w session bytes m = record w {
  disk = record w.disk {
    uploads =
        insert (plain session.id) (folder (insert (part "data") (raw bytes) m)) w.disk.uploads;
  };
}

same_err :
    {A : Type 0} {a b : Err} {w : World} {p : List Fault}
    → some a ≡ some b
    → ◌≡◌ {A = Out A} (err a, w, p) (err b, w, p)
same_err e = cc

no_error : {a : Err} → ◌≡◌ {A = Option Err} none (some a) → ⊥
no_error e = cc

module _ (env : Env) (w : World) (session : UploadSession) (bytes : List ℕ) (m : Dict Name Content)
    (o : IsOpen w session bytes m) where
  with_part-IsOpen :
      IsOpen (with_part w session bytes m) session bytes (insert (part "data") (raw bytes) m)
  with_part-IsOpen = record {
    entry = lookup-insert_self _ _ _;
    manifest = simp (lookup-insert, o.manifest);
    no_leftover = simp (lookup-insert, o.no_leftover);
    part_file = lookup-insert_self _ _ _;
    status = o.status;
    received = o.received;
    bounded = o.bounded;
    positive = o.positive;
    representable = o.representable;
  }

  rollback_runs :
      (extra : List ℕ)
      → rollback env session.id session.received_bytes (with_part w session (bytes ++ extra) m) []
        ≡ (ok tt, with_part w session bytes m, [])
  unfolding rollback block_steps
  rollback_runs extra =
      simp (lookup-insert_self, o.received, take-append_self bytes extra, insert-insert)

  write_chunk_fails :
      (n remaining : Int64) (reader : Reader) (checksum : String) (e : Err)
      → chunk_fault env remaining n checksum reader ≡ some e
      → write_chunk env session remaining n reader checksum w []
        ≡ (err e, with_part w session bytes m, [])
  unfolding write_chunk on_error block_steps chunk_fault
  write_chunk_fails n remaining reader checksum e h =
      let r = limited (add64 n 1) reader in
      let undo = rollback_runs r.bytes in
      elim (Option-cases r.failure) [
        | inl f ↦ elim (Bool-cases (lt64 remaining (int64 (length r.bytes)))) [
          | inl a ↦ simp (o.entry, o.part_file, f, a, undo) (same_err (simp (f, a) at h))
          | inr a ↦ elim (Bool-cases (int64 (length r.bytes) == n)) [
            | inl b ↦ elim (Bool-cases (differs (trim_space checksum) (env.digest r.bytes))) [
              | inl c ↦
                  simp (o.entry, o.part_file, f, a, b, c, undo) (same_err (simp (f, a, b, c) at h))
              | inr c ↦ absurd (no_error (simp (f, a, b, c) at h))
            ]
            | inr b ↦ simp (o.entry, o.part_file, f, a, b, undo) (same_err (simp (f, a, b) at h))
          ]
        ]
        | inr (e', f) ↦ simp (o.entry, o.part_file, f, undo) (same_err (simp f at h))
      ]

  -- On an open session and a ready store that is not paused, a chunk of an announced length that
  -- fits but whose body fails, is longer or shorter than announced, or has another digest:
  -- `AppendUpload` where no system call fails returns the first of these errors, and the session on
  -- disk is open with the bytes that it had, its manifest unchanged.
  pub append_rolls_back :
      (n : Int64) (reader : Reader) (checksum : String) (e : Err)
      → IsReady w
      → valid_id session.id ≡ true
      → bad_checksum checksum ≡ false
      → 1 ≤ n
      → length bytes + n ≤ session.size
      → is_paused w.pause_at_percent (env.stat_fs w.disk) ≡ false
      → chunk_fault env (session.size - length bytes) n checksum reader ≡ some e
      → let w' = with_part w session bytes m in
        (append_upload env live session.id session.received_bytes n (some reader) checksum w []
          ≡ (err e, w', []))
        × IsOpen w' session bytes (insert (part "data") (raw bytes) m)
  append_rolls_back n reader checksum e ready valid formed nonempty fits running h = (
    append_reaches env w session bytes m o n reader checksum ready valid formed nonempty fits
        running (write_chunk_fails n (session.size - length bytes) reader checksum e h),
    with_part-IsOpen,
  )
