-- ===== src/Files/Ready/Consistent.antt =====
-- A consistent data directory, described entry by entry.
use astra_store_xion.Base.{
  is_some, String, Bool, true, false, not, ◌&&◌, ◌||◌, Option, some, List, [], ◌∷◌, str_eq,
}
use astra_store_xion.Base.Dict.{Dict, lookup}
use astra_store_xion.Files.Model.{UploadSession, is_completed}
use astra_store_xion.Files.Text.{valid_id}
use astra_store_xion.Files.Disk.{
  Name, plain, json, json_tmp, part, spelled, name_key, Content, Item, plain_file, folder,
  GroupEntry, group_dir, group_file, Disk, find, manifest_path, trash_manifest_path,
  trash_object_path, session_manifest_path, session_data_path,
}
use astra_store_xion.Files.World.{Result, ok, err, Env}
use astra_store_xion.Files.Io.Decides.{is_ok}
use astra_store_xion.Files.Read.Results.{file_result, trash_result}
use astra_store_xion.Files.Read.Session.{session_result}
use astra_store_xion.Files.Ready.{only_files, has_file, is_known, no_entries}

-- A manifest among others: a valid id, a good record, and an object of that name.
abbrev pub good_manifest : Disk → Name → Item → Bool
good_manifest d (json id) (plain_file c) =
    valid_id id
    && (is_ok (file_result id (find (manifest_path id) d)) && is_some (lookup (plain id) d.objects))
good_manifest d n i = false

abbrev pub all_manifests : Disk → List (Name × Item) → Bool
all_manifests d [] = true
all_manifests d ((n, i) ∷ rest) = good_manifest d n i && all_manifests d rest

abbrev pub id_of : Name → String
id_of (json s) = s
id_of (plain s) = s
id_of (json_tmp s) = s
id_of (part s) = s

-- The ids that have a manifest.
abbrev pub ids_of : List (Name × Item) → List String
ids_of [] = []
ids_of ((n, i) ∷ rest) = id_of n ∷ ids_of rest

-- An object: a file that is named by a valid id which has a manifest.
abbrev pub all_objects : List String → List (Name × Item) → Bool
all_objects ids [] = true
all_objects ids ((n, folder m) ∷ rest) = false
all_objects ids ((n, plain_file c) ∷ rest) =
    valid_id (spelled n) && (is_known (spelled n) ids && all_objects ids rest)

abbrev pub part_free : Dict Name Content → Result UploadSession → Bool
part_free files (ok s) = not (is_completed s.status && has_file (part "data") files)
part_free files (err e) = false

-- A session: a manifest and perhaps a part file, which the record allows.
abbrev pub good_files : Env → Disk → Name → Dict Name Content → Bool
good_files env d n files =
    only_files (json "manifest") (part "data") files
    && (has_file (json "manifest") files
        && part_free files (
            session_result env (spelled n) (find (session_manifest_path (spelled n)) d)
              (find (session_data_path (spelled n)) d)))

abbrev pub good_session : Env → Disk → Name → Option Item → Bool
good_session env d n (some (folder m)) = good_files env d n m
good_session env d n _ = false

abbrev pub all_sessions : Env → Disk → List (Name × Item) → Bool
all_sessions env d [] = true
all_sessions env d ((n, plain_file c) ∷ rest) = false
all_sessions env d ((n, folder m) ∷ rest) =
    valid_id (spelled n) && (good_session env d n (lookup n d.uploads) && all_sessions env d rest)

-- An entry of the recycle bin: an object and a manifest, and nothing else, that go together.
abbrev pub good_pair : Env → Disk → Name → Dict Name Content → Bool
good_pair env d n files =
    only_files (plain "object") (json "manifest") files
    && (not (not (has_file (plain "object") files) || not (has_file (json "manifest") files))
        && is_ok (
            trash_result env (spelled n) (find (trash_manifest_path (spelled n)) d)
              (find (trash_object_path (spelled n)) d)))

abbrev pub good_trash : Env → Disk → Name → Option Item → Bool
good_trash env d n (some (folder m)) = good_pair env d n m
good_trash env d n _ = false

abbrev pub all_trash : Env → Disk → List (Name × Item) → Bool
all_trash env d [] = true
all_trash env d ((n, plain_file c) ∷ rest) = false
all_trash env d ((n, folder m) ∷ rest) =
    valid_id (spelled n) && (good_trash env d n (lookup n d.trash) && all_trash env d rest)

abbrev pub all_groups : List (String × GroupEntry) → Bool
all_groups [] = true
all_groups ((g, group_file c) ∷ rest) = false
all_groups ((g, group_dir m) ∷ rest) =
    (str_eq g "partials" || str_eq g "metadata" || str_eq g "uploads") && all_groups rest

-- Manifests and objects go together, one for one; the sessions, the recycle bin and the quarantine
-- hold what the store puts there; nothing is left in `tmp`.
unfoldable pub is_consistent : Env → Disk → Bool
is_consistent env d =
    all_manifests d d.metadata
    && (all_objects (ids_of d.metadata) d.objects
        && (all_sessions env d d.uploads
            && (all_trash env d d.trash && (all_groups d.quarantine && no_entries d.tmp))))
