-- ===== src/Files/Sweep.antt =====
-- Abandoned upload sessions: `sweepUploadsUnlocked` and `SweepUploads` of pkg/files/recovery.go.
use astra_store_xion.Base.{
  ℕ, ◌+◌, ◌-◌, String, Bool, true, false, List, [], ◌∷◌, ltb, ◌==◌, if◌then◌else◌,
}
use astra_store_xion.Files.Model.{upload_not_found, corrupt_metadata, UploadSession, is_completed}
use astra_store_xion.Files.Text.{valid_id, owner_from_metadata}
use astra_store_xion.Files.Usage.{UsageKind, usage_upload, release_usage}
use astra_store_xion.Files.Disk.{Name, plain, Item, folder, uploads}
use astra_store_xion.Files.World.{Result, ok, err, Env, Ctx}
use astra_store_xion.Files.Io.{
  M, pure, raise, gets, ◌>>=◌, ◌>>◌, modify, attempt, check, read_dir, remove_all, sync_directory,
  now,
}
use astra_store_xion.Files.Read.{get_upload_unlocked}

unfoldable pub release : String → UsageKind → ℕ → M (Unit {0})
release owner kind size =
    modify λ w. record w { usage = release_usage w.usage_valid owner kind size w.usage }

abbrev pub one_more : Bool → ℕ → ℕ
one_more true n = n + 1
one_more false n = n

module _ (env : Env) where
  -- What becomes of an entry whose session was read; whether it was removed.
  unfoldable pub sweep_session : ℕ → String → Result UploadSession → M Bool
  sweep_session t id (err upload_not_found) = pure false
  sweep_session t id (err corrupt_metadata) = pure false
  sweep_session t id (err e) = raise e
  sweep_session t id (ok session) =
      if is_completed session.status then (do remove_all uploads (plain id); pure true) else (do
        ttl ← gets (λ w. w.upload_ttl)
        if ltb (t - session.updated_at) ttl then pure false else (do
          remove_all uploads (plain id)
          release (owner_from_metadata session.metadata) usage_upload session.size
          pure true))

  unfoldable pub sweep_entry : ℕ → Name → Item → M Bool
  sweep_entry t (plain id) (folder m) =
      if valid_id id
      then (do session ← attempt (get_upload_unlocked env id); sweep_session t id session)
      else pure false
  sweep_entry t n i = pure false

  unfoldable pub sweep_entries : ℕ → List (Name × Item) → ℕ → M ℕ
  sweep_entries t [] removed = pure removed
  sweep_entries t ((n, i) ∷ rest) removed = do
    gone ← sweep_entry t n i
    sweep_entries t rest (one_more gone removed)

  unfoldable pub sweep_uploads_unlocked : ℕ → M ℕ
  sweep_uploads_unlocked t = do
    ttl ← gets (λ w. w.upload_ttl)
    if ttl == 0 then pure 0 else (do
      entries ← read_dir uploads
      removed ← sweep_entries t entries 0
      if removed == 0 then pure removed else (do sync_directory; pure removed))

  unfoldable pub sweep_uploads : Ctx → M ℕ
  sweep_uploads ctx = do check ctx; t ← now env; sweep_uploads_unlocked t
