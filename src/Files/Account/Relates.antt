-- ===== src/Files/Account/Relates.antt =====
-- The scan of the accounts keeps every relation between worlds that does not speak of the accounts.
use astra_store_xion.Base.{true, String, Option, none, some, List, [], ◌∷◌, refl, ◌≡◌}
use astra_store_xion.Files.Usage.{UsageIndex}
use astra_store_xion.Files.Disk.{Name, Item}
use astra_store_xion.Files.World.{World, Env}
use astra_store_xion.Files.Io.{M, modify}
use astra_store_xion.Files.Io.Relates.{IsOrder, Relates, Relates-pure, relates_rules}
use astra_store_xion.Files.Read.Relates.{
  get_unlocked-Relates, get_trash_unlocked-Relates, get_upload_unlocked-Relates,
}
use astra_store_xion.Files.Account.{
  add_upload, add_trashed, add_file, manifest_entry, folder_entry, add_files, add_trash,
  add_uploads, rebuild_usage_locked,
}

module _ {R : World → World → Type 0} (order : IsOrder R) (env : Env) where
  add_file-Relates :
      (others : UsageIndex → M UsageIndex) (o : Option String) (index : UsageIndex)
      → ((i : UsageIndex) → Relates R (others i))
      → Relates R (add_file env others o index)
  add_file-Relates others none index h = h index
  add_file-Relates others (some id) index h =
      search (relates_rules, order, get_unlocked-Relates, h) depth 14

  add_trashed-Relates :
      (others : UsageIndex → M UsageIndex) (o : Option String) (index : UsageIndex)
      → ((i : UsageIndex) → Relates R (others i))
      → Relates R (add_trashed env others o index)
  add_trashed-Relates others none index h = h index
  add_trashed-Relates others (some id) index h =
      search (relates_rules, order, get_trash_unlocked-Relates, h) depth 14

  add_upload-Relates :
      (others : UsageIndex → M UsageIndex) (o : Option String) (index : UsageIndex)
      → ((i : UsageIndex) → Relates R (others i))
      → Relates R (add_upload env others o index)
  add_upload-Relates others none index h = h index
  add_upload-Relates others (some id) index h =
      search (relates_rules, order, get_upload_unlocked-Relates, h) depth 14

  add_files-Relates :
      (entries : List (Name × Item)) (index : UsageIndex) → Relates R (add_files env entries index)
  unfolding add_files
  add_files-Relates [] index = Relates-pure order index
  add_files-Relates ((n, i) ∷ rest) index =
      add_file-Relates (add_files env rest) (manifest_entry n i) index (add_files-Relates rest)

  add_trash-Relates :
      (entries : List (Name × Item)) (index : UsageIndex) → Relates R (add_trash env entries index)
  unfolding add_trash
  add_trash-Relates [] index = Relates-pure order index
  add_trash-Relates ((n, i) ∷ rest) index =
      add_trashed-Relates (add_trash env rest) (folder_entry n i) index (add_trash-Relates rest)

  add_uploads-Relates :
      (entries : List (Name × Item)) (index : UsageIndex)
      → Relates R (add_uploads env entries index)
  unfolding add_uploads
  add_uploads-Relates [] index = Relates-pure order index
  add_uploads-Relates ((n, i) ∷ rest) index =
      add_upload-Relates (add_uploads env rest) (folder_entry n i) index (add_uploads-Relates rest)

  pub rebuild_usage_locked-Relates :
      ((f : World → World) → ((w : World) → (f w).disk ≡ w.disk) → Relates R (modify f))
      → Relates R (rebuild_usage_locked env)
  unfolding rebuild_usage_locked
  rebuild_usage_locked-Relates accounts =
      search
        (
          relates_rules,
          order,
          add_files-Relates,
          add_trash-Relates,
          add_uploads-Relates,
          λ (index : UsageIndex).
              accounts (λ w. record w { usage = index; usage_valid = true }) (λ w. refl),
        )
        depth 14
