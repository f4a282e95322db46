-- ===== src/Files/Recovery/Swept.antt =====
-- The sweep of a recovery leaves the objects, the recycle bin and the committed manifests alone.
use astra_store_xion.Files.Usage.{UsageKind}
use astra_store_xion.Files.Model.{Err, upload_not_found, corrupt_metadata}
use astra_store_xion.Files.Sweep.{
  release, one_more, sweep_session, sweep_entry, sweep_entries, sweep_uploads_unlocked,
}
use astra_store_xion.Base.{ap, ℕ, ◌≡◌, refl, String, true, false, List, [], ◌∷◌}
use astra_store_xion.Base.Dict.{lookup}
use astra_store_xion.Files.Model.{UploadSession}
use astra_store_xion.Files.Disk.{
  Name, plain, json, json_tmp, part, name_key, Item, plain_file, folder, Disk, Area, uploads, at,
}
use astra_store_xion.Files.World.{Result, ok, err, Env, World}
use astra_store_xion.Files.Io.{syscall, modify, remove_all}
use astra_store_xion.Files.Io.Relates.{
  Relates-gets, Relates-raise, Relates, Relates-bind, Relates-pure, Relates-if, Relates-syscall,
  relates_rules,
}
use astra_store_xion.Files.Read.Relates.{get_upload_unlocked-Relates}
use astra_store_xion.Files.Recovery.{sweep_uploads_unlocked}
use astra_store_xion.Files.Recovery.Scrap.{
  drop_scrap, Kept, Kept-order, IsScrap, modify-Relates, on_disk-Relates,
}

pub remove_all-Relates : (a : Area) (n : Name) → IsScrap (at a n) → Relates Kept (remove_all a n)
unfolding remove_all
remove_all-Relates a n s =
    Relates-bind Kept-order syscall _ (Relates-syscall Kept-order)
      (λ u. on_disk-Relates _ (λ d. drop_scrap (at a n) d s))

pub accounts-Relates :
    (f : World → World) → ((w : World) → (f w).disk ≡ w.disk) → Relates Kept (modify f)
accounts-Relates f same = modify-Relates f (λ w. record {
  objects_kept = ap (λ (d : Disk). d.objects) (same w);
  trash_kept = ap (λ (d : Disk). d.trash) (same w);
  manifests_kept = λ id. ap (λ (d : Disk). lookup (json id) d.metadata) (same w);
})

release-Relates :
    (owner : String) (kind : UsageKind) (size : ℕ) → Relates Kept (release owner kind size)
unfolding release
release-Relates owner kind size = accounts-Relates _ (λ w. refl)

module _ (env : Env) where
  sweep_session-Relates :
      (t : ℕ) (id : String) (r : Result UploadSession) → Relates Kept (sweep_session env t id r)
  unfolding sweep_session
  sweep_session-Relates t id (ok s) =
      let gone = remove_all-Relates uploads (plain id) tt in
      Relates-if Kept-order _ _ _
        (Relates-bind Kept-order _ _ gone (λ u. Relates-pure Kept-order true))
        (Relates-bind Kept-order _ _ (Relates-gets Kept-order _) (λ ttl.
          Relates-if Kept-order _ _ _ (Relates-pure Kept-order false) (
            Relates-bind Kept-order _ _ gone (λ u.
              Relates-bind Kept-order _ _ (release-Relates _ _ _)
                (λ v. Relates-pure Kept-order true)))))
  sweep_session-Relates t id (err e) = swept e
    where
      swept : (e : Err) → Relates Kept (sweep_session env t id (err e))
      swept upload_not_found = Relates-pure Kept-order false
      swept corrupt_metadata = Relates-pure Kept-order false
      swept _ = Relates-raise Kept-order _

  sweep_entry-Relates : (t : ℕ) (n : Name) (i : Item) → Relates Kept (sweep_entry env t n i)
  unfolding sweep_entry
  sweep_entry-Relates t (plain id) (folder m) =
      search (relates_rules, Kept-order, get_upload_unlocked-Relates, sweep_session-Relates) depth
        14
  sweep_entry-Relates t (plain id) (plain_file c) = Relates-pure Kept-order false
  sweep_entry-Relates t (json id) i = Relates-pure Kept-order false
  sweep_entry-Relates t (json_tmp id) i = Relates-pure Kept-order false
  sweep_entry-Relates t (part id) i = Relates-pure Kept-order false

  sweep_entries-Relates :
      (t : ℕ) (entries : List (Name × Item)) (removed : ℕ)
      → Relates Kept (sweep_entries env t entries removed)
  unfolding sweep_entries
  sweep_entries-Relates t [] removed = Relates-pure Kept-order removed
  sweep_entries-Relates t ((n, i) ∷ rest) removed =
      Relates-bind Kept-order _ _ (sweep_entry-Relates t n i)
        (λ gone. sweep_entries-Relates t rest (one_more gone removed))

  pub sweep_uploads_unlocked-Relates : (t : ℕ) → Relates Kept (sweep_uploads_unlocked env t)
  unfolding sweep_uploads_unlocked
  sweep_uploads_unlocked-Relates t =
      search (relates_rules, Kept-order, sweep_entries-Relates) depth 14
