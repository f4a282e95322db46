-- ===== src/Files/Ready/Exact.antt =====
-- The checks of the sessions and of the recycle bin, and all checks together, against the
-- description of a consistent data directory.
use astra_store_xion.Base.{
  String, ◌≡◌, ◌↔◌, ◌∙◌, sym, refl, subst, Bool, true, false, not, ◌&&◌, ◌||◌, Option, none, some,
  List, [], ◌∷◌, All, arith,
}
use astra_store_xion.Base.Dict.{Dict, lookup}
use astra_store_xion.Files.Model.{File, UploadSession}
use astra_store_xion.Files.Text.{valid_id}
use astra_store_xion.Files.Text.Ids.{valid_id_iff}
use astra_store_xion.Files.Disk.{
  Name, plain, json, part, spelled, name_key, Content, Item, plain_file, folder, Disk, found,
  file_json, session_json, find, trash_manifest_path, trash_object_path, session_manifest_path,
  session_data_path,
}
use astra_store_xion.Files.World.{Env}
use astra_store_xion.Files.Ready.{has_file}
use astra_store_xion.Files.Ready.Consistent.{
  good_session, all_sessions, good_trash, all_trash, is_consistent,
}
use astra_store_xion.Files.Ready.Records.{and_iff, has_file_iff, only_files_iff}
use astra_store_xion.Files.Ready.Filed.{
  all_manifests_iff, all_objects_iff, all_groups_iff, no_entries_iff,
}
use astra_store_xion.Files.Ready.Binned.{TrashAgrees, trash_result_iff}
use astra_store_xion.Files.Ready.Beside.{Agrees, session_result_iff}
use astra_store_xion.Files.Ready.Described.{IsOneOf, HasEntry, IsUpload, IsTrashed, IsConsistent}

and_assoc : (a b c : Bool) → ((a && b) && c) ≡ (a && (b && c))
and_assoc true b c = refl
and_assoc false b c = refl

de_morgan : (a b : Bool) → not (not a || not b) ≡ (a && b)
de_morgan true true = refl
de_morgan true false = refl
de_morgan false b = refl

module _ (env : Env) (d : Disk) where
  abbrev UploadFits : String → Dict Name Content → Type 0
  UploadFits id files =
      All (IsOneOf (json "manifest") (part "data")) files
      × (HasEntry (json "manifest") files
          × ((s : UploadSession) × (find (session_manifest_path id) d ≡ found (session_json s))
              × Agrees env id s files (find (session_data_path id) d)))

  good_session_iff :
      (n : Name) (m : Dict Name Content) (o : Option Item)
      → lookup n d.uploads ≡ o
      → (valid_id (spelled n) && good_session env d n o ≡ true) ↔ IsUpload env d (n, folder m)
  good_session_iff n m none e = (λ h. absurd (ground (arith, h)), λ p. let t = p.5 in cc)
  good_session_iff n m (some (plain_file c)) e =
      (λ h. absurd (ground (arith, h)), λ p. let t = p.5 in cc)
  good_session_iff n m (some (folder files)) e =
      let id = spelled n in
      let agrees =
        session_result_iff env id files (find (session_manifest_path id) d)
          (find (session_data_path id) d) in
      let has = has_file_iff (json "manifest") files in
      let only = only_files_iff (json "manifest") (part "data") files in
      let all =
        and_iff _ _ (valid_id_iff id)
          (λ x. and_iff _ _ only (λ x. and_iff _ _ has (λ x. agrees))) in
      (
        λ h.
            let p = all.0 h in
            let r = p.1.1.1 in (m, files, r.0, refl, p.0, e, p.1.0, p.1.1.0, r.1, r.2.0, r.2.1),
        λ p.
            let same : p.1 ≡ files = (let t = p.5 in cc) in
            all.1 (p.4, subst (UploadFits id) same (p.6, (p.7, (p.2, p.8, (p.9, p.10))))),
      )

  all_sessions_iff :
      (entries : List (Name × Item))
      → (all_sessions env d entries ≡ true) ↔ All (IsUpload env d) entries
  all_sessions_iff [] = (λ e. tt, λ p. refl)
  all_sessions_iff ((n, plain_file c) ∷ rest) = (λ e. cc, λ p. let t = p.0.3 in cc)
  all_sessions_iff ((n, folder m) ∷ rest) =
      let one = good_session_iff n m (lookup n d.uploads) refl in
      let both = and_iff _ _ one (λ e. all_sessions_iff rest) in
      let same =
        and_assoc (valid_id (spelled n)) (good_session env d n (lookup n d.uploads))
          (all_sessions env d rest) in
      (λ e. both.0 (same ∙ e), λ p. sym same ∙ both.1 p)

  abbrev TrashFits : String → Dict Name Content → Type 0
  TrashFits id files =
      All (IsOneOf (plain "object") (json "manifest")) files
      × ((HasEntry (plain "object") files × HasEntry (json "manifest") files)
          × ((f : File) × (find (trash_manifest_path id) d ≡ found (file_json f))
              × TrashAgrees env id f (find (trash_object_path id) d)))

  pair_iff :
      (files : Dict Name Content)
      → (not (not (has_file (plain "object") files) || not (has_file (json "manifest") files))
          ≡ true)
        ↔ (HasEntry (plain "object") files × HasEntry (json "manifest") files)
  pair_iff files =
      let both =
        and_iff _ _ (has_file_iff (plain "object") files)
          (λ e. has_file_iff (json "manifest") files) in
      rw (de_morgan (has_file (plain "object") files) (has_file (json "manifest") files)) both

  good_trash_iff :
      (n : Name) (m : Dict Name Content) (o : Option Item)
      → lookup n d.trash ≡ o
      → (valid_id (spelled n) && good_trash env d n o ≡ true) ↔ IsTrashed env d (n, folder m)
  good_trash_iff n m none e = (λ h. absurd (ground (arith, h)), λ p. let t = p.7 in cc)
  good_trash_iff n m (some (plain_file c)) e =
      (λ h. absurd (ground (arith, h)), λ p. let t = p.7 in cc)
  good_trash_iff n m (some (folder files)) e =
      let id = spelled n in
      let agrees =
        trash_result_iff env id (find (trash_manifest_path id) d) (find (trash_object_path id) d) in
      let only = only_files_iff (plain "object") (json "manifest") files in
      let all =
        and_iff _ _ (valid_id_iff id)
          (λ x. and_iff _ _ only (λ x. and_iff _ _ (pair_iff files) (λ x. agrees))) in
      (
        λ h.
            let p = all.0 h in
            let r = p.1.1.1 in
            let pair = p.1.1.0 in
            let record_of = r.2.0 in
            let body = r.2.1 in
            (
              m, files, r.0, record_of.1.0, body.0, refl, p.0, e, p.1.0, pair.0, pair.1, r.1,
              record_of.0, record_of.1.1, body.1, body.2,
            ),
        λ p.
            let same : p.1 ≡ files = (let t = p.7 in cc) in
            all.1 (
              p.6,
              subst (TrashFits id) same
                  (p.8, ((p.9, p.10), (p.2, p.11, ((p.12, (p.3, p.13)), (p.4, p.14, p.15))))),
            ),
      )

  all_trash_iff :
      (entries : List (Name × Item))
      → (all_trash env d entries ≡ true) ↔ All (IsTrashed env d) entries
  all_trash_iff [] = (λ e. tt, λ p. refl)
  all_trash_iff ((n, plain_file c) ∷ rest) = (λ e. cc, λ p. let t = p.0.5 in cc)
  all_trash_iff ((n, folder m) ∷ rest) =
      let one = good_trash_iff n m (lookup n d.trash) refl in
      let both = and_iff _ _ one (λ e. all_trash_iff rest) in
      let same =
        and_assoc (valid_id (spelled n)) (good_trash env d n (lookup n d.trash))
          (all_trash env d rest) in
      (λ e. both.0 (same ∙ e), λ p. sym same ∙ both.1 p)

  -- The checks entry by entry describe a consistent data directory.
  pub is_consistent_iff : (is_consistent env d ≡ true) ↔ IsConsistent env d
  unfolding is_consistent
  is_consistent_iff =
      let all = and_iff _ _ (all_manifests_iff d d.metadata) (λ e.
        and_iff _ _ (all_objects_iff d ((all_manifests_iff d d.metadata).0 e) d.objects) (λ x.
          and_iff _ _ (all_sessions_iff d.uploads) (λ x.
            and_iff _ _ (all_trash_iff d.trash)
              (λ x. and_iff _ _ (all_groups_iff d d.quarantine) (λ x. no_entries_iff d d.tmp))))) in
      (
        λ e. let p = all.0 e in let q = p.1.1 in (p.0, p.1.0, q.0, q.1.0, q.1.1.0, q.1.1.1),
        λ p. all.1 (p.0, (p.1, (p.2, (p.3, (p.4, p.5))))),
      )
