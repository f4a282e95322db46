-- ===== src/Files/Ready/Filed.antt =====
-- The checks of the manifests, the objects, the quarantine and `tmp`, against the description of a
-- consistent data directory.
use astra_store_xion.Base.{
  String, ◌≡◌, ◌↔◌, refl, subst, true, is_some, Option, none, some, List, [], ◌∷◌, All, str_eq,
  eq_iff,
}
use astra_store_xion.Base.Dict.{Dict, lookup}
use astra_store_xion.Files.Model.{File}
use astra_store_xion.Files.Text.Ids.{valid_id_iff}
use astra_store_xion.Files.Disk.{
  Name, plain, json, json_tmp, part, spelled, name_key, Content, Item, plain_file, folder,
  GroupEntry, group_dir, group_file, Disk, found, file_json, find, manifest_path,
}
use astra_store_xion.Files.Ready.{is_known, no_entries}
use astra_store_xion.Files.Ready.Consistent.{
  good_manifest, all_manifests, id_of, ids_of, all_objects, all_groups,
}
use astra_store_xion.Files.Ready.Records.{and_iff, or_iff, file_result_iff}
use astra_store_xion.Files.Ready.Described.{IsId, IsRecord, HasEntry, IsManifest, IsObject, IsGroup}

is_some_iff : {A : Type 0} (o : Option A) → (is_some o ≡ true) ↔ ((a : A) × (o ≡ some a))
is_some_iff none = (λ e. cc, λ p. let t = p.1 in cc)
is_some_iff (some a) = (λ e. (a, refl), λ p. refl)

module _ (d : Disk) where
  abbrev IsFiled : String → Type 0
  IsFiled id =
      IsId id
      × (((f : File) × (find (manifest_path id) d ≡ found (file_json f)) × IsRecord id f)
          × ((object : Item) × (lookup (plain id) d.objects ≡ some object)))

  json_entry_iff :
      (id : String) (c : Content)
      → (good_manifest d (json id) (plain_file c) ≡ true) ↔ IsManifest d (json id, plain_file c)
  json_entry_iff id c =
      let record_iff = file_result_iff id (find (manifest_path id) d) in
      let object_iff = is_some_iff (lookup (plain id) d.objects) in
      let pair = and_iff _ _ record_iff (λ e. object_iff) in
      let all = and_iff _ _ (valid_id_iff id) (λ e. pair) in
      (
        λ e.
            let p = all.0 e in
            (id, p.1.0.0, c, p.1.1.0, refl, refl, p.0, p.1.0.1, p.1.0.2, p.1.1.1),
        λ p.
            let same : p.0 ≡ id = (let t = p.4 in cc) in
            all.1 (subst IsFiled same (p.6, ((p.1, p.7, p.8), (p.3, p.9)))),
      )

  good_manifest_iff : (n : Name) (i : Item) → (good_manifest d n i ≡ true) ↔ IsManifest d (n, i)
  good_manifest_iff (json id) (plain_file c) = json_entry_iff id c
  good_manifest_iff (json id) (folder m) = (λ e. cc, λ p. let t = p.5 in cc)
  good_manifest_iff (plain id) i = (λ e. cc, λ p. let t = p.4 in cc)
  good_manifest_iff (json_tmp id) i = (λ e. cc, λ p. let t = p.4 in cc)
  good_manifest_iff (part id) i = (λ e. cc, λ p. let t = p.4 in cc)

  pub all_manifests_iff :
      (entries : List (Name × Item)) → (all_manifests d entries ≡ true) ↔ All (IsManifest d) entries
  all_manifests_iff [] = (λ e. tt, λ p. refl)
  all_manifests_iff ((n, i) ∷ rest) =
      let both = and_iff _ _ (good_manifest_iff n i) (λ e. all_manifests_iff rest) in
      (λ e. both.0 e, λ p. both.1 p)

  is_known_iff :
      (id : String) (entries : List (Name × Item))
      → All (IsManifest d) entries
      → (is_known id (ids_of entries) ≡ true) ↔ HasEntry (json id) entries
  is_known_iff id [] h = (λ e. cc, λ p. absurd p)
  is_known_iff id ((n, i) ∷ rest) (first, others) =
      let e = first.4 in
      let named : id_of n ≡ first.0 = rw e refl in
      let same = eq_iff (id_of n) id in
      let one : (str_eq (id_of n) id ≡ true) ↔ (n ≡ json id) =
        (λ h. let k = same.0 h in cc, λ h. same.1 (rw h refl)) in
      or_iff _ _ one (is_known_iff id rest others)

  pub all_objects_iff :
      All (IsManifest d) d.metadata
      → (entries : List (Name × Item))
      → (all_objects (ids_of d.metadata) entries ≡ true) ↔ All (IsObject d) entries
  all_objects_iff h [] = (λ e. tt, λ p. refl)
  all_objects_iff h ((n, folder m) ∷ rest) = (λ e. cc, λ p. let t = p.0.1 in cc)
  all_objects_iff h ((n, plain_file c) ∷ rest) =
      let known = is_known_iff (spelled n) d.metadata h in
      let more = and_iff _ _ known (λ e. all_objects_iff h rest) in
      let all = and_iff _ _ (valid_id_iff (spelled n)) (λ e. more) in
      (λ e. let p = all.0 e in ((c, refl, p.0, p.1.0), p.1.1), λ p. all.1 (p.0.2, (p.0.3, p.1)))

  pub all_groups_iff :
      (entries : List (String × GroupEntry)) → (all_groups entries ≡ true) ↔ All IsGroup entries
  all_groups_iff [] = (λ e. tt, λ p. refl)
  all_groups_iff ((g, group_file c) ∷ rest) = (λ e. cc, λ p. let t = p.0.1 in cc)
  all_groups_iff ((g, group_dir m) ∷ rest) =
      let two = or_iff _ _ (eq_iff g "partials") (eq_iff g "metadata") in
      let three = or_iff _ _ two (eq_iff g "uploads") in
      let both = and_iff _ _ three (λ e. all_groups_iff rest) in
      (λ e. let p = both.0 e in ((m, refl, p.0), p.1), λ p. both.1 (p.0.2, p.1))

  pub no_entries_iff : (m : Dict Name Item) → (no_entries m ≡ true) ↔ (m ≡ [])
  no_entries_iff [] = (λ e. refl, λ e. refl)
  no_entries_iff (e ∷ rest) = (λ e. cc, λ e. cc)
