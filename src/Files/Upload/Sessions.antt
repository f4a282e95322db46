-- ===== src/Files/Upload/Sessions.antt =====
-- An upload session that is open on disk, and how `getUploadUnlocked` reads it.
use astra_store_xion.Base.{
  ℕ, ◌≤◌, ◌<◌, ◌^◌, ◌≡◌, ◌==◌, true, false, some, none, List, [], arith, length, string_key,
}
use astra_store_xion.Base.Dict.{Dict, lookup, beq_refl}
use astra_store_xion.Base.Int64.{int64, is_neg_small, le64_nonneg, lt64_nonneg}
use astra_store_xion.Files.Model.{UploadSession, uploading, is_uploading, is_completed}
use astra_store_xion.Files.Disk.{
  Name, plain, json, json_tmp, part, name_key, Content, raw, session_json, folder,
}
use astra_store_xion.Files.World.{Env, World, ok}
use astra_store_xion.Files.Io.{steps}
use astra_store_xion.Files.Read.{bad_session, bad_completed, check_part, get_upload_unlocked}

-- The directory `m` of the session holds its manifest and, as the part file, the bytes so far.
pub record IsOpen (w : World) (session : UploadSession) (bytes : List ℕ) (m : Dict Name Content)
    : Type 0 where
  pub entry : lookup (plain session.id) w.disk.uploads ≡ some (folder m)
  pub manifest : lookup (json "manifest") m ≡ some (session_json session)
  pub no_leftover : lookup (json_tmp "manifest") m ≡ none
  pub part_file : lookup (part "data") m ≡ some (raw bytes)
  pub status : session.status ≡ uploading
  pub received : session.received_bytes ≡ length bytes
  pub bounded : length bytes ≤ session.size
  pub positive : 1 ≤ session.size
  pub representable : session.size < 2 ^ 63

module _ (w : World) (session : UploadSession) (bytes : List ℕ) (m : Dict Name Content) where
  pub IsOpen-sound : IsOpen w session bytes m → bad_session session.id session ≡ false
  unfolding bad_session is_uploading
  IsOpen-sound o =
      let small : length bytes < 2 ^ 63 = omega (arith, o.bounded, o.representable) in
      simp
        (
          beq_refl session.id,
          o.status,
          o.received,
          le64_nonneg session.size 0 o.representable (omega arith),
          lt64_nonneg session.size (length bytes) o.representable small,
          is_neg_small (length bytes) small,
        )
        (ground (arith, o.bounded, o.positive))

  pub get_upload_runs :
      (env : Env)
      → IsOpen w session bytes m
      → get_upload_unlocked env session.id w [] ≡ (ok session, w, [])
  unfolding get_upload_unlocked check_part bad_completed is_completed is_uploading steps
  get_upload_runs env o =
      let sound = IsOpen-sound o in
      let whole : (int64 (length bytes) == length bytes) ≡ true =
        ground (arith, o.bounded, o.representable) in
      simp (o.entry, o.manifest, o.part_file, sound, o.status, o.received, whole)
