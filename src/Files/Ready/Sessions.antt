-- ===== src/Files/Ready/Sessions.antt =====
-- The checks of the upload sessions and of the recycle bin, entry by entry.
use astra_store_xion.Files.Ready.Entries.{read_folder-folder, read_folder-fails}
use astra_store_xion.Base.{inl, inr}
use astra_store_xion.Files.Ready.{ready_trashed}
use astra_store_xion.Files.Read.{get_trash_unlocked, get_upload_unlocked}
use astra_store_xion.Files.Ready.Consistent.{
  part_free, good_files, good_session, all_sessions, good_pair, good_trash, all_trash,
}
use astra_store_xion.Files.Ready.{as_corrupt}
use astra_store_xion.Files.Disk.{is_folder}
use astra_store_xion.Files.Model.{Err}
use astra_store_xion.Base.{Bool-cases, ◌≡◌, refl, false, ◌&&◌, Option, none, some, List, [], ◌∷◌}
use astra_store_xion.Base.Dict.{Dict, lookup}
use astra_store_xion.Files.Model.{Err, UploadSession, is_completed, corrupt_metadata}
use astra_store_xion.Files.Text.{valid_id}
use astra_store_xion.Files.Disk.{
  Name, plain, json, part, spelled, name_key, Content, Item, plain_file, folder, uploads, trash,
  find, trash_manifest_path, trash_object_path, session_manifest_path, session_data_path,
}
use astra_store_xion.Files.World.{Result, ok, err, Env, World}
use astra_store_xion.Files.Io.{pure, raise, raise_if, ◌>>=◌, attempt, from_result, M}
use astra_store_xion.Files.Io.Decides.{
  Decides-stops, Decides-then, Decides-last, Decides-guard, Decides, Decides-pure, Decides-raise,
  Decides-run, Decides-bind, Decides-raise_if,
}
use astra_store_xion.Files.Read.Results.{trash_result, get_trash_unlocked-trash_result}
use astra_store_xion.Files.Read.Session.{session_result, get_upload_unlocked-session_result}
use astra_store_xion.Files.Ready.{only_files, has_file, ready_session, ready_uploads, ready_trash}

module _ (env : Env) (w : World) where
  -- The last checks of a session, on the outcome of its reading.
  abbrev session_checks : Dict Name Content → Result UploadSession → M (Unit {0})
  session_checks files outcome = do
    session ← from_result (as_corrupt outcome)
    raise_if (is_completed session.status && has_file (part "data") files) corrupt_metadata

  session_checks-Decides :
      (files : Dict Name Content) (r : Result UploadSession)
      → Decides (session_checks files r) w (part_free files r) (λ u. Unit)
  unfolding from_result ◌>>=◌ raise_if raise pure
  session_checks-Decides files (err e) = (corrupt_metadata, refl)
  session_checks-Decides files (ok s) =
      elim (Bool-cases (is_completed s.status && has_file (part "data") files)) [
        | inl e ↦ rw e (corrupt_metadata, rw e refl)
        | inr e ↦ rw e (tt, rw e refl, tt)
      ]

  attempt-run :
      {A : Type 0} (m : M A) (r : Result A) → m w [] ≡ (r, w, []) → attempt m w [] ≡ (ok r, w, [])
  unfolding attempt
  attempt-run m r e = rw (e, attempt) refl

  session_files-Decides :
      (n : Name) (files : Dict Name Content)
      → lookup n w.disk.uploads ≡ some (folder files)
      → Decides (ready_session env n) w (good_files env w.disk n files) (λ u. Unit)
  unfolding ready_session
  session_files-Decides n files e =
      let id = spelled n in
      let outcome =
        session_result env id (find (session_manifest_path id) w.disk)
          (find (session_data_path id) w.disk) in
      Decides-then _ _ w (λ u. Unit) (λ u. Unit) files _
        (read_folder-folder env w uploads n files e)
        (Decides-guard _ w (only_files (json "manifest") (part "data") files) corrupt_metadata _ _
          (λ o. Decides-guard _ w (has_file (json "manifest") files) corrupt_metadata _ _ (λ h.
            Decides-then _ _ w (λ u. Unit) (λ u. Unit) outcome _
              (attempt-run (get_upload_unlocked env id) outcome
                (get_upload_unlocked-session_result env id w))
              (session_checks-Decides files outcome))))

  ready_session-Decides :
      (n : Name)
      → Decides
          (ready_session env n)
          w
          (good_session env w.disk n (lookup n w.disk.uploads))
          (λ u. Unit)
  unfolding ready_session
  ready_session-Decides n = go (lookup n w.disk.uploads) refl
    where
      unread :
          (o : Option Item)
          → lookup n w.disk.uploads ≡ o
          → is_folder o ≡ false
          → (e : Err) × (ready_session env n w [] ≡ (err e, w, []))
      unread o e f = Decides-stops _ _ w (read_folder-fails env w uploads n o e f)

      go :
          (o : Option Item)
          → lookup n w.disk.uploads ≡ o
          → Decides (ready_session env n) w (good_session env w.disk n o) (λ u. Unit)
      go (some (folder m)) e = session_files-Decides n m e
      go none e = unread none e refl
      go (some (plain_file c)) e = unread (some (plain_file c)) e refl

  pub ready_uploads-Decides :
      (entries : List (Name × Item))
      → Decides (ready_uploads env entries) w (all_sessions env w.disk entries) (λ u. Unit)
  unfolding ready_uploads
  ready_uploads-Decides [] = Decides-pure tt w _ tt
  ready_uploads-Decides ((n, plain_file c) ∷ rest) = Decides-raise corrupt_metadata w
  ready_uploads-Decides ((n, folder m) ∷ rest) =
      Decides-guard _ w (valid_id (spelled n)) corrupt_metadata _ _ (λ v.
        Decides-bind _ _ w (λ u. Unit) _ _ _ (ready_session-Decides n)
          (λ u x. ready_uploads-Decides rest))

  trashed_files-Decides :
      (n : Name) (files : Dict Name Content)
      → lookup n w.disk.trash ≡ some (folder files)
      → Decides (ready_trashed env n) w (good_pair env w.disk n files) (λ u. Unit)
  unfolding ready_trashed
  trashed_files-Decides n files e =
      let id = spelled n in
      let stored =
        trash_result env id (find (trash_manifest_path id) w.disk)
          (find (trash_object_path id) w.disk) in
      Decides-then _ _ w (λ u. Unit) (λ u. Unit) files _ (read_folder-folder env w trash n files e)
        (Decides-guard _ w (only_files (plain "object") (json "manifest") files) corrupt_metadata _
          _
          (λ o.
            Decides-bind _ _ w (λ u. _) (λ u. Unit) _ _ (Decides-raise_if _ corrupt_metadata w)
              (λ u x.
                Decides-last (λ u. Unit) w (get_trash_unlocked env id) _ (λ f. stored ≡ ok f) _
                  (Decides-run (get_trash_unlocked env id) w stored
                    (get_trash_unlocked-trash_result env id w))
                  (λ f r. Decides-pure tt w _ tt))))

  ready_trashed-Decides :
      (n : Name)
      → Decides
          (ready_trashed env n)
          w
          (good_trash env w.disk n (lookup n w.disk.trash))
          (λ u. Unit)
  unfolding ready_trashed
  ready_trashed-Decides n = go (lookup n w.disk.trash) refl
    where
      unread :
          (o : Option Item)
          → lookup n w.disk.trash ≡ o
          → is_folder o ≡ false
          → (e : Err) × (ready_trashed env n w [] ≡ (err e, w, []))
      unread o e f = Decides-stops _ _ w (read_folder-fails env w trash n o e f)

      go :
          (o : Option Item)
          → lookup n w.disk.trash ≡ o
          → Decides (ready_trashed env n) w (good_trash env w.disk n o) (λ u. Unit)
      go (some (folder m)) e = trashed_files-Decides n m e
      go none e = unread none e refl
      go (some (plain_file c)) e = unread (some (plain_file c)) e refl

  pub ready_trash-Decides :
      (entries : List (Name × Item))
      → Decides (ready_trash env entries) w (all_trash env w.disk entries) (λ u. Unit)
  unfolding ready_trash
  ready_trash-Decides [] = Decides-pure tt w _ tt
  ready_trash-Decides ((n, plain_file c) ∷ rest) = Decides-raise corrupt_metadata w
  ready_trash-Decides ((n, folder m) ∷ rest) =
      Decides-guard _ w (valid_id (spelled n)) corrupt_metadata _ _ (λ v.
        Decides-bind _ _ w (λ u. Unit) _ _ _ (ready_trashed-Decides n)
          (λ u x. ready_trash-Decides rest))
