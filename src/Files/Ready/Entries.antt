-- ===== src/Files/Ready/Entries.antt =====
-- The checks of the manifests, the objects and the quarantine, entry by entry.
use astra_store_xion.Base.{is_some}
use astra_store_xion.Files.Read.{get_unlocked}
use astra_store_xion.Files.Ready.Consistent.{
  good_manifest, all_manifests, id_of, ids_of, all_objects, all_groups,
}
use astra_store_xion.Files.Ready.{stat_entry}
use astra_store_xion.Files.Disk.{json_tmp, dir, is_folder}
use astra_store_xion.Files.Model.{Err, not_exist, io_error}
use astra_store_xion.Base.{◌≡◌, refl, String, false, Option, none, some, List, [], ◌∷◌}
use astra_store_xion.Base.Dict.{Dict, lookup}
use astra_store_xion.Files.Model.{Err, corrupt_metadata}
use astra_store_xion.Files.Text.{valid_id}
use astra_store_xion.Files.Disk.{
  dir, Name, plain, json, part, spelled, name_key, Content, Item, plain_file, folder, GroupEntry,
  group_dir, group_file, Area, objects, find, manifest_path,
}
use astra_store_xion.Files.World.{ok, err, Env, World}
use astra_store_xion.Files.Io.{if_missing, steps}
use astra_store_xion.Files.Io.Decides.{
  Decides-last, Decides-guard, Decides, Decides-pure, Decides-raise, Decides-run, Decides-bind,
}
use astra_store_xion.Files.Read.Results.{file_result, get_unlocked-file_result}
use astra_store_xion.Files.Recovery.{read_folder}
use astra_store_xion.Files.Ready.{
  stat_entry, is_known, ready_manifest, ready_manifests, ready_objects, ready_groups,
}

stat_entry-Decides :
    (a : Area) (n : Name) (e : Err) (w : World)
    → Decides (if_missing e (stat_entry a n)) w (is_some (lookup n (dir a w.disk))) (λ u. Unit)
unfolding stat_entry steps
stat_entry-Decides a n e w = go (lookup n (dir a w.disk)) refl
  where
    go :
        (o : Option Item)
        → lookup n (dir a w.disk) ≡ o
        → Decides (if_missing e (stat_entry a n)) w (is_some o) (λ u. Unit)
    go none h = (e, simp h)
    go (some i) h = (tt, simp h, tt)

module _ (env : Env) (w : World) where
  ready_manifest-Decides :
      (n : Name) (i : Item)
      → Decides (ready_manifest env n i) w (good_manifest w.disk n i) (λ id. id ≡ id_of n)
  unfolding ready_manifest
  ready_manifest-Decides (json id) (plain_file c) =
      Decides-guard _ w (valid_id id) corrupt_metadata _ _ (λ v.
        let stored = file_result id (find (manifest_path id) w.disk) in
        Decides-bind (get_unlocked env id) _ w (λ f. stored ≡ ok f) _ _ _
          (Decides-run (get_unlocked env id) w stored (get_unlocked-file_result env id w))
          (λ f r.
            Decides-last _ w _ _ _ _ (stat_entry-Decides objects (plain id) corrupt_metadata w)
              (λ u x. Decides-pure id w _ refl)))
  ready_manifest-Decides (json id) (folder m) = Decides-raise corrupt_metadata w
  ready_manifest-Decides (plain id) i = Decides-raise corrupt_metadata w
  ready_manifest-Decides (json_tmp id) i = Decides-raise corrupt_metadata w
  ready_manifest-Decides (part id) i = Decides-raise corrupt_metadata w

  pub ready_manifests-Decides :
      (entries : List (Name × Item))
      → Decides
          (ready_manifests env entries)
          w
          (all_manifests w.disk entries)
          (λ ids. ids ≡ ids_of entries)
  unfolding ready_manifests
  ready_manifests-Decides [] = Decides-pure [] w _ refl
  ready_manifests-Decides ((n, i) ∷ rest) =
      Decides-bind _ _ w _ _ _ _ (ready_manifest-Decides n i) (λ id e.
        Decides-last _ w _ _ _ _ (ready_manifests-Decides rest)
          (λ ids es. Decides-pure (id ∷ ids) w _ (cc (e, es))))

  pub ready_objects-Decides :
      (ids : List String) (entries : List (Name × Item))
      → Decides (ready_objects ids entries) w (all_objects ids entries) (λ u. Unit)
  unfolding ready_objects
  ready_objects-Decides ids [] = Decides-pure tt w _ tt
  ready_objects-Decides ids ((n, folder m) ∷ rest) = Decides-raise corrupt_metadata w
  ready_objects-Decides ids ((n, plain_file c) ∷ rest) =
      Decides-guard _ w (valid_id (spelled n)) corrupt_metadata _ _ (λ v.
        Decides-guard _ w (is_known (spelled n) ids) corrupt_metadata _ _
          (λ k. ready_objects-Decides ids rest))

  pub ready_groups-Decides :
      (groups : List (String × GroupEntry))
      → Decides (ready_groups groups) w (all_groups groups) (λ u. Unit)
  unfolding ready_groups
  ready_groups-Decides [] = Decides-pure tt w _ tt
  ready_groups-Decides ((g, group_file c) ∷ rest) = Decides-raise corrupt_metadata w
  ready_groups-Decides ((g, group_dir m) ∷ rest) =
      Decides-guard _ w _ corrupt_metadata _ _ (λ v. ready_groups-Decides rest)

  pub read_folder-folder :
      (a : Area) (n : Name) (m : Dict Name Content)
      → lookup n (dir a w.disk) ≡ some (folder m)
      → read_folder a n w [] ≡ (ok m, w, [])
  unfolding read_folder steps
  read_folder-folder a n m e = simp e

  pub read_folder-fails :
      (a : Area) (n : Name) (o : Option Item)
      → lookup n (dir a w.disk) ≡ o
      → is_folder o ≡ false
      → (e : Err) × (read_folder a n w [] ≡ (err e, w, []))
  unfolding read_folder steps
  read_folder-fails a n none h f = (not_exist, simp h)
  read_folder-fails a n (some (plain_file c)) h f = (io_error, simp h)
  read_folder-fails a n (some (folder m)) h f = cc
