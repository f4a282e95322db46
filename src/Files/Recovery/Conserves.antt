-- ===== src/Files/Recovery/Conserves.antt =====
-- What a recovery leaves alone, however it ends.
use astra_store_xion.Files.Read.{open_file, get_trash_unlocked}
use astra_store_xion.Files.Read.Results.{open_file-open_result, get_trash_unlocked-trash_result}
use astra_store_xion.Base.{
  ℕ, suc, ◌≡◌, sym, ◌∙◌, String, Bool, true, false, List, [], ◌∷◌, Bool-cases, inl, inr,
}
use astra_store_xion.Files.Disk.{
  Name, plain, json, json_tmp, part, name_key, Content, Item, plain_file, folder, Area, objects,
  metadata, tmp, uploads, trash, FilePath, at, under,
}
use astra_store_xion.Files.World.{Env, Fault, World, Ctx}
use astra_store_xion.Files.Io.Relates.{
  Relates-read_dir, Relates-check, Relates, Relates-bind, Relates-pure, Relates-if, Relates-syscall,
  relates_rules,
}
use astra_store_xion.Files.Recovery.{
  RecoveryReport, is_part, is_json_tmp, read_folder, stat_item, copy_file, copy_files, copy_tree,
  move_artifact, target_of, quarantine_path, quarantine_picked, recover_children, recover_sessions,
  reconcile, recover, entry_of_path,
}
use astra_store_xion.Files.Account.Relates.{rebuild_usage_locked-Relates}
use astra_store_xion.Files.Recovery.Swept.{
  remove_all-Relates, accounts-Relates, sweep_uploads_unlocked-Relates,
}
use astra_store_xion.Files.Recovery.Scrap.{
  Kept, Kept-order, IsScrap, change-Relates, make_group-Keeps, make_target-Keeps,
  create_child-Keeps, put_target-Keeps, now-Relates, target_exists-Relates, write_child-Relates,
}

read_folder-Relates : (a : Area) (n : Name) → Relates Kept (read_folder a n)
unfolding read_folder
read_folder-Relates a n = search (relates_rules, Kept-order) depth 14

stat_item-Relates : (path : FilePath) → Relates Kept (stat_item path)
unfolding stat_item
stat_item-Relates path = search (relates_rules, Kept-order) depth 14

module _ (env : Env) where
  copy_file-Relates :
      (g : String) (target n : Name) (c : Content) → Relates Kept (copy_file env g target n c)
  unfolding copy_file
  copy_file-Relates g target n c = Relates-bind Kept-order _ _ (Relates-syscall Kept-order) (λ u.
      Relates-bind Kept-order _ _ (change-Relates _ (λ d. create_child-Keeps _ g target n d))
        (λ v. search (relates_rules, Kept-order, write_child-Relates) depth 14))

  copy_files-Relates :
      (g : String) (target : Name) (files : List (Name × Content))
      → Relates Kept (copy_files env g target files)
  unfolding copy_files
  copy_files-Relates g target [] = Relates-syscall Kept-order
  copy_files-Relates g target ((n, c) ∷ rest) =
      Relates-bind Kept-order _ _ (copy_file-Relates g target n c)
        (λ u. copy_files-Relates g target rest)

  copy_tree-Relates :
      (a : Area) (n : Name) (g : String) (target : Name) → Relates Kept (copy_tree env a n g target)
  unfolding copy_tree
  copy_tree-Relates a n g target =
      Relates-bind Kept-order _ _ (change-Relates _ (λ d. make_target-Keeps _ g target d)) (λ u.
        Relates-bind Kept-order _ _ (read_folder-Relates a n)
          (λ files. copy_files-Relates g target files))

  target_of-Relates : (g : String) (n : Name) → Relates Kept (target_of env g n)
  unfolding target_of
  target_of-Relates g n =
      search (relates_rules, Kept-order, target_exists-Relates, now-Relates) depth 14

  move_artifact-Relates :
      (path : FilePath) (g : String) (target : Name) (i : Item)
      → IsScrap path
      → Relates Kept (move_artifact env path g target i)
  unfolding move_artifact
  move_artifact-Relates path g target (plain_file c) s =
      change-Relates _ (λ d. put_target-Keeps _ (plain_file c) g target path d s)
  move_artifact-Relates path g target (folder m) s =
      Relates-bind Kept-order _ _
        (copy_tree-Relates (entry_of_path path).0 (entry_of_path path).1 g target)
        (λ u. remove_all-Relates (entry_of_path path).0 (entry_of_path path).1 (entry_scrap path s))
    where
      entry_scrap :
          (path : FilePath)
          → IsScrap path
          → IsScrap (at (entry_of_path path).0 (entry_of_path path).1)
      entry_scrap (at a n) s = s
      entry_scrap (under uploads n m) s = tt
      entry_scrap (under objects n m) s = elim s [ ]
      entry_scrap (under metadata n m) s = elim s [ ]
      entry_scrap (under tmp n m) s = elim s [ ]
      entry_scrap (under trash n m) s = elim s [ ]

  quarantine_path-Relates :
      (path : FilePath) (g : String) (n : Name)
      → IsScrap path
      → Relates Kept (quarantine_path env path g n)
  unfolding quarantine_path
  quarantine_path-Relates path g n s =
      Relates-bind Kept-order _ _ (change-Relates _ (λ d. make_group-Keeps _ g d)) (λ u.
        Relates-bind Kept-order _ _ (target_of-Relates g n) (λ target.
          Relates-bind Kept-order _ _ (stat_item-Relates path) (λ item.
            Relates-bind Kept-order _ _ (move_artifact-Relates path g target item s)
              (λ v. Relates-syscall Kept-order))))

  quarantine_picked-Relates :
      (pick : Name → Bool) (a : Area) (g : String) (entries : List (Name × Item)) (count : ℕ)
      → ((n : Name) → pick n ≡ true → IsScrap (at a n))
      → Relates Kept (quarantine_picked env pick a g entries count)
  unfolding quarantine_picked
  quarantine_picked-Relates pick a g [] count s = Relates-pure Kept-order count
  quarantine_picked-Relates pick a g ((n, folder m) ∷ rest) count s =
      quarantine_picked-Relates pick a g rest count s
  quarantine_picked-Relates pick a g ((n, plain_file c) ∷ rest) count s =
      elim (Bool-cases (pick n)) [
        | inr e ↦ rw e (quarantine_picked-Relates pick a g rest count s)
        | inl e ↦ rw e (
            Relates-bind Kept-order _ _ (quarantine_path-Relates (at a n) g n (s n e))
              (λ u. quarantine_picked-Relates pick a g rest (suc count) s))
      ]

  recover_children-Relates :
      (n : Name) (files : List (Name × Content)) (has_manifest : Bool) (count : ℕ)
      → Relates Kept (recover_children env n files has_manifest count)
  unfolding recover_children
  recover_children-Relates n [] has_manifest count = Relates-pure Kept-order (has_manifest, count)
  recover_children-Relates n ((m, c) ∷ rest) has_manifest count =
      Relates-if Kept-order _ _ _ (recover_children-Relates n rest true count) (
        Relates-if Kept-order _ _ _
          (Relates-bind Kept-order _ _ (quarantine_path-Relates (under uploads n m) "uploads" _ tt)
            (λ u. recover_children-Relates n rest has_manifest (suc count)))
          (recover_children-Relates n rest has_manifest count))

  recover_sessions-Relates :
      (entries : List (Name × Item)) (manifests sessions : ℕ)
      → Relates Kept (recover_sessions env entries manifests sessions)
  unfolding recover_sessions
  recover_sessions-Relates [] manifests sessions = Relates-pure Kept-order (manifests, sessions)
  recover_sessions-Relates ((n, plain_file c) ∷ rest) manifests sessions =
      recover_sessions-Relates rest manifests sessions
  recover_sessions-Relates ((n, folder m) ∷ rest) manifests sessions =
      Relates-bind Kept-order _ _ (read_folder-Relates uploads n) (λ files.
        Relates-bind Kept-order _ _ (recover_children-Relates n files false manifests) (λ r.
          Relates-if Kept-order _ _ _ (recover_sessions-Relates rest r.1 sessions) (
            Relates-bind Kept-order _ _ (quarantine_path-Relates (at uploads n) "uploads" n tt)
              (λ u. recover_sessions-Relates rest r.1 (suc sessions)))))

  reconcile-Relates : (r : RecoveryReport) → Relates Kept (reconcile env r)
  unfolding reconcile
  reconcile-Relates r =
      Relates-if Kept-order _ _ _
        (Relates-bind Kept-order _ _ (rebuild_usage_locked-Relates Kept-order env accounts-Relates)
          (λ u. Relates-pure Kept-order r))
        (Relates-pure Kept-order r)

  picked_part : (n : Name) → is_part n ≡ true → IsScrap (at tmp n)
  picked_part n e = tt

  picked_json_tmp : (n : Name) → is_json_tmp n ≡ true → IsScrap (at metadata n)
  picked_json_tmp (json_tmp s) e = tt
  picked_json_tmp (plain s) e = tt
  picked_json_tmp (part s) e = tt
  picked_json_tmp (json s) e = cc

  -- `Recover` leaves every object, every committed manifest and the whole recycle bin as they are,
  -- for every plan of faults and whether it succeeds or fails.
  pub recover-Kept : (ctx : Ctx) (w : World) (p : List Fault) → Kept w (recover env ctx w p).1
  unfolding recover
  recover-Kept ctx w p = (all ctx).at w p
    where
      all : (ctx : Ctx) → Relates Kept (recover env ctx)
      all ctx = Relates-bind Kept-order _ _ (Relates-check Kept-order ctx) (λ u.
          Relates-bind Kept-order _ _ (Relates-read_dir Kept-order tmp) (λ partials.
            Relates-bind Kept-order _ _
              (quarantine_picked-Relates is_part tmp "partials" partials 0 picked_part)
              (λ n. Relates-bind Kept-order _ _ (Relates-read_dir Kept-order metadata) (λ manifests.
                Relates-bind Kept-order _ _
                  (quarantine_picked-Relates is_json_tmp metadata "metadata" manifests 0
                    picked_json_tmp)
                  (λ m.
                    Relates-bind Kept-order _ _ (Relates-read_dir Kept-order uploads) (λ sessions.
                      Relates-bind Kept-order _ _ (recover_sessions-Relates sessions 0 0) (λ r.
                        Relates-bind Kept-order _ _ (now-Relates env) (λ t.
                          Relates-bind Kept-order _ _ (sweep_uploads_unlocked-Relates env t)
                            (λ expired. reconcile-Relates _)))))))))

Kept-open_file :
    (env : Env) (ctx : Ctx) (id : String) (v w : World)
    → Kept v w
    → (open_file env ctx id w []).0 ≡ (open_file env ctx id v []).0
Kept-open_file env ctx id v w h =
    open_file-open_result env ctx id w
    ∙ simp (h.manifests_kept id, h.objects_kept) (sym (open_file-open_result env ctx id v))

Kept-get_trash_unlocked :
    (env : Env) (id : String) (v w : World)
    → Kept v w
    → (get_trash_unlocked env id w []).0 ≡ (get_trash_unlocked env id v []).0
Kept-get_trash_unlocked env id v w h = simp (
  get_trash_unlocked-trash_result env id w,
  get_trash_unlocked-trash_result env id v,
  h.trash_kept,
)

-- However `Recover` ends, under any plan of faults, `Open` gives the same afterwards as before, for
-- every id, and so does the reading of every entry of the recycle bin.
pub recover_conserves :
    (env : Env) (c ctx : Ctx) (id : String) (w : World) (p : List Fault)
    → ((open_file env ctx id (recover env c w p).1 []).0 ≡ (open_file env ctx id w []).0)
      × ((get_trash_unlocked env id (recover env c w p).1 []).0
          ≡ (get_trash_unlocked env id w []).0)
recover_conserves env c ctx id w p =
    let h = recover-Kept env c w p in
    (
      Kept-open_file env ctx id w (recover env c w p).1 h,
      Kept-get_trash_unlocked env id w (recover env c w p).1 h,
    )
