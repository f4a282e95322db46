-- ===== src/Files/Upload/Abort.antt =====
-- `AbortUpload` of an open session.
use astra_store_xion.Base.{ℕ, ◌≡◌, true, List, []}
use astra_store_xion.Base.Dict.{Dict, erase, lookup-erase, beq_refl}
use astra_store_xion.Files.Model.{UploadSession, upload_not_found, is_completed}
use astra_store_xion.Files.Text.{valid_id, owner_from_metadata}
use astra_store_xion.Files.Usage.{usage_upload, release_usage}
use astra_store_xion.Files.Disk.{Name, plain, name_key, Content}
use astra_store_xion.Files.World.{Env, World, ok, err, live}
use astra_store_xion.Files.Io.{steps}
use astra_store_xion.Files.Read.{require_id, get_upload, get_upload_unlocked}
use astra_store_xion.Files.Sweep.{release}
use astra_store_xion.Files.Upload.{abort_session, abort_found, abort_upload}
use astra_store_xion.Files.Upload.Sessions.{IsOpen, get_upload_runs}

module _ (env : Env) (w : World) (session : UploadSession) (bytes : List ℕ)
    (m : Dict Name Content) where
  abbrev pub after_abort : World
  after_abort = record w {
    disk = record w.disk { uploads = erase (plain session.id) w.disk.uploads };
    usage =
        release_usage w.usage_valid (owner_from_metadata session.metadata) usage_upload session.size
          w.usage;
  }

  -- Aborting an open session with a valid id, where no system call fails, removes its directory and
  -- releases what it reserved; the session is then not found, and aborting it again succeeds and
  -- changes nothing.
  pub abort_forgets :
      IsOpen w session bytes m
      → valid_id session.id ≡ true
      → (abort_upload env live session.id w [] ≡ (ok tt, after_abort, []))
        × (get_upload env live session.id after_abort [] ≡ (err upload_not_found, after_abort, []))
        × (abort_upload env live session.id after_abort [] ≡ (ok tt, after_abort, []))
  unfolding abort_upload abort_found abort_session get_upload get_upload_unlocked require_id release
      is_completed steps
  abort_forgets o valid =
      let absent = lookup-erase (plain session.id) (plain session.id) w.disk.uploads in
      (
        simp (valid, get_upload_runs w session bytes m env o, o.status),
        simp (valid, absent, beq_refl (plain session.id)),
        simp (valid, absent, beq_refl (plain session.id)),
      )
