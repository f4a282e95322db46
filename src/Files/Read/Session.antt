-- ===== src/Files/Read/Session.antt =====
-- What the reading of an upload session returns on a run without faults.
use astra_store_xion.Base.{
  List, ◌∙◌, sym, String, ◌≡◌, refl, true, false, Option, none, some, [], ◌==◌, if◌then◌else◌,
  Bool-cases, Option-cases, inl, inr, length,
}
use astra_store_xion.Base.Int64.{int64}
use astra_store_xion.Files.Model.{
  upload_not_found, corrupt_metadata, io_error, UploadSession, is_uploading,
}
use astra_store_xion.Files.Disk.{
  Content, Found, missing, blocked, found, find, session_manifest_path, session_data_path,
}
use astra_store_xion.Files.World.{Fault, Result, ok, err, Env, World, bytes_of}
use astra_store_xion.Files.Io.{steps}
use astra_store_xion.Files.Read.{
  decode_session, bad_session, bad_completed, check_part, get_upload_unlocked,
}

abbrev completed_session : UploadSession → Result UploadSession
completed_session s = if bad_completed s then err corrupt_metadata else ok s

abbrev part_session : Env → UploadSession → Found → Result UploadSession
part_session env s missing = err corrupt_metadata
part_session env s blocked = err io_error
part_session env s (found c) =
    if int64 (length (bytes_of env c)) == s.received_bytes
    then completed_session s
    else err corrupt_metadata

abbrev pub checked_session : Env → String → UploadSession → Found → Result UploadSession
checked_session env id s o =
    if bad_session id s
    then err corrupt_metadata
    else if is_uploading s.status
    then part_session env s o
    else completed_session s

abbrev decoded_session : Env → String → Option UploadSession → Found → Result UploadSession
decoded_session env id none o = err corrupt_metadata
decoded_session env id (some s) o = checked_session env id s o

-- The session in a manifest that was found, beside the part file that was found.
abbrev pub session_result : Env → String → Found → Found → Result UploadSession
session_result env id missing o = err upload_not_found
session_result env id blocked o = err io_error
session_result env id (found c) o = decoded_session env id (decode_session c) o

module _ (env : Env) (id : String) (w : World) where
  finished_session :
      (s : UploadSession) (c : Content)
      → find (session_manifest_path id) w.disk ≡ found c
      → decode_session c ≡ some s
      → bad_session id s ≡ false
      → is_uploading s.status ≡ false
      → get_upload_unlocked env id w [] ≡ (completed_session s, w, [])
  unfolding get_upload_unlocked check_part steps
  finished_session s c m d b u = elim (Bool-cases (bad_completed s)) [
    | inl z ↦ simp (m, d, b, u, z)
    | inr z ↦ simp (m, d, b, u, z)
  ]

  part_checked :
      (s : UploadSession) (o : Found) (c : Content)
      → find (session_manifest_path id) w.disk ≡ found c
      → decode_session c ≡ some s
      → bad_session id s ≡ false
      → is_uploading s.status ≡ true
      → find (session_data_path id) w.disk ≡ o
      → get_upload_unlocked env id w [] ≡ (part_session env s o, w, [])
  unfolding get_upload_unlocked check_part steps
  part_checked s missing c m d b u p = simp (m, d, b, u, p)
  part_checked s blocked c m d b u p = simp (m, d, b, u, p)
  part_checked s (found e) c m d b u p =
      elim (Bool-cases (int64 (length (bytes_of env e)) == s.received_bytes)) [
        | inr z ↦ simp (m, d, b, u, p, z)
        | inl z ↦ elim (Bool-cases (bad_completed s)) [
          | inl y ↦ simp (m, d, b, u, p, z, y)
          | inr y ↦ simp (m, d, b, u, p, z, y)
        ]
      ]

  pub get_upload_unlocked-session_result : get_upload_unlocked env id w [] ≡ (
    session_result env id
        (find (session_manifest_path id) w.disk)
        (find (session_data_path id) w.disk),
    w,
    [],
  )
  unfolding get_upload_unlocked check_part steps
  get_upload_unlocked-session_result =
      go (find (session_manifest_path id) w.disk) (find (session_data_path id) w.disk) refl refl
    where
      go :
          (m o : Found)
          → find (session_manifest_path id) w.disk ≡ m
          → find (session_data_path id) w.disk ≡ o
          → get_upload_unlocked env id w [] ≡ (session_result env id m o, w, [])
      go missing o e p = simp e
      go blocked o e p = simp e
      go (found c) o e p = elim (Option-cases (decode_session c)) [
        | inl d ↦ simp (e, d)
        | inr (s, d) ↦ elim (Bool-cases (bad_session id s)) [
          | inl b ↦ simp (e, d, b)
          | inr b ↦ elim (Bool-cases (is_uploading s.status)) [
            | inl u ↦ part_checked s o c e d b u p ∙ sym (checked s o d b ∙ rw u refl)
            | inr u ↦ finished_session s c e d b u ∙ sym (checked s o d b ∙ rw u refl)
          ]
        ]
      ]
        where
          checked :
              (s : UploadSession) (o : Found)
              → decode_session c ≡ some s
              → bad_session id s ≡ false
              → ◌≡◌ {A = Result UploadSession × World × List Fault}
                  (decoded_session env id (decode_session c) o, w, [])
                  (
                    if is_uploading s.status then part_session env s o else completed_session s,
                    w,
                    [],
                  )
          checked s o d b = rw (d, b) refl
