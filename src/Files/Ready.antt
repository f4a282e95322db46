-- ===== src/Files/Ready.antt =====
-- The checks before a store takes requests: `Ready` and `readyQuarantineUnlocked` of
-- pkg/files/store.go.
pub mod Consistent
pub mod Entries
pub mod Sessions
pub mod Accepts
pub mod Described
pub mod Records
pub mod Beside
pub mod Binned
pub mod Filed
pub mod Exact
use Prim.Native.String
use astra_store_xion.Base.{
  ℕ, String, Bool, true, false, ◌||◌, ◌&&◌, not, Option, none, some, List, [], ◌∷◌, str_eq,
  string_key, if◌then◌else◌,
}
use astra_store_xion.Base.Dict.{Dict, lookup}
use astra_store_xion.Files.Model.{corrupt_metadata, not_exist, UploadSession, is_completed}
use astra_store_xion.Files.Text.{valid_id}
use astra_store_xion.Files.Disk.{
  Name, plain, json, part, spelled, name_key, Content, Item, plain_file, folder, GroupEntry,
  group_dir, group_file, Area, objects, metadata, tmp, uploads, trash, dir, at,
}
use astra_store_xion.Files.World.{Result, ok, err, Env, World, Ctx}
use astra_store_xion.Files.Io.{
  M, pure, raise, gets, test, from_result, ◌>>=◌, ◌>>◌, raise_if, attempt, if_missing, syscall,
  check, read_dir, create_excl, remove,
}
use astra_store_xion.Files.Read.{get_unlocked, get_trash_unlocked, get_upload_unlocked}
use astra_store_xion.Files.Recovery.{read_folder}

abbrev pub present : Option Item → Result (Unit {0})
present none = err not_exist
present (some i) = ok tt

-- `os.Stat` of an entry
unfoldable pub stat_entry : Area → Name → M (Unit {0})
stat_entry a n = do syscall; test (λ w. present (lookup n (dir a w.disk)))

abbrev pub is_known : String → List String → Bool
is_known id [] = false
is_known id (i ∷ is) = let rest = is_known id is in str_eq i id || rest

abbrev pub has_file : Name → Dict Name Content → Bool
has_file n [] = false
has_file n ((m, c) ∷ rest) = let more = has_file n rest in name_key.beq m n || more

-- Whether each file is one of the two.
abbrev pub only_files : Name → Name → Dict Name Content → Bool
only_files a b [] = true
only_files a b ((m, c) ∷ rest) =
    let more = only_files a b rest in (name_key.beq m a || name_key.beq m b) && more

-- Any error of the read is a corrupt upload.
abbrev pub as_corrupt : {A : Type 0} → Result A → Result A
as_corrupt (ok a) = ok a
as_corrupt (err e) = err corrupt_metadata

-- `CreateTemp`, whose random part is the argument; it is drawn again while the name is taken.
unfoldable pub probe : String → M (Unit {0})
probe random = do
  create_excl (at tmp (plain (String.◌++◌ ".ready-" random)))
  syscall
  remove (at tmp (plain (String.◌++◌ ".ready-" random)))

unfoldable pub ready_groups : List (String × GroupEntry) → M (Unit {0})
ready_groups [] = pure tt
ready_groups ((g, group_file c) ∷ rest) = raise corrupt_metadata
ready_groups ((g, group_dir m) ∷ rest) = do
  raise_if (not (str_eq g "partials" || str_eq g "metadata" || str_eq g "uploads")) corrupt_metadata
  ready_groups rest

unfoldable pub ready_quarantine_unlocked : M (Unit {0})
ready_quarantine_unlocked = do syscall; groups ← gets (λ w. w.disk.quarantine); ready_groups groups

unfoldable pub ready_objects : List String → List (Name × Item) → M (Unit {0})
ready_objects ids [] = pure tt
ready_objects ids ((n, folder m) ∷ rest) = raise corrupt_metadata
ready_objects ids ((n, plain_file c) ∷ rest) = do
  raise_if (not (valid_id (spelled n))) corrupt_metadata
  raise_if (not (is_known (spelled n) ids)) corrupt_metadata
  ready_objects ids rest

abbrev pub no_entries : Dict Name Item → Bool
no_entries [] = true
no_entries (e ∷ rest) = false

module _ (env : Env) where
  -- The entry's id, once the manifest and the object are found good.
  unfoldable pub ready_manifest : Name → Item → M String
  ready_manifest (json id) (plain_file c) = do
    raise_if (not (valid_id id)) corrupt_metadata
    _ ← get_unlocked env id
    if_missing corrupt_metadata (stat_entry objects (plain id))
    pure id
  ready_manifest n i = raise corrupt_metadata

  unfoldable pub ready_manifests : List (Name × Item) → M (List String)
  ready_manifests [] = pure []
  ready_manifests ((n, i) ∷ rest) = do
    id ← ready_manifest n i
    ids ← ready_manifests rest
    pure (id ∷ ids)

  unfoldable pub ready_session : Name → M (Unit {0})
  ready_session n = do
    children ← read_folder uploads n
    raise_if (not (only_files (json "manifest") (part "data") children)) corrupt_metadata
    raise_if (not (has_file (json "manifest") children)) corrupt_metadata
    outcome ← attempt (get_upload_unlocked env (spelled n))
    session ← from_result (as_corrupt outcome)
    raise_if (is_completed session.status && has_file (part "data") children) corrupt_metadata

  unfoldable pub ready_uploads : List (Name × Item) → M (Unit {0})
  ready_uploads [] = pure tt
  ready_uploads ((n, plain_file c) ∷ rest) = raise corrupt_metadata
  ready_uploads ((n, folder m) ∷ rest) = do
    raise_if (not (valid_id (spelled n))) corrupt_metadata
    ready_session n
    ready_uploads rest

  unfoldable pub ready_trashed : Name → M (Unit {0})
  ready_trashed n = do
    children ← read_folder trash n
    raise_if (not (only_files (plain "object") (json "manifest") children)) corrupt_metadata
    raise_if (not (has_file (plain "object") children) || not (has_file (json "manifest") children))
        corrupt_metadata
    _ ← get_trash_unlocked env (spelled n)
    pure tt

  unfoldable pub ready_trash : List (Name × Item) → M (Unit {0})
  ready_trash [] = pure tt
  ready_trash ((n, plain_file c) ∷ rest) = raise corrupt_metadata
  ready_trash ((n, folder m) ∷ rest) = do
    raise_if (not (valid_id (spelled n))) corrupt_metadata
    ready_trashed n
    ready_trash rest

  unfoldable pub ready : Ctx → String → M (Unit {0})
  ready ctx random = do
    check ctx
    probe random
    manifests ← read_dir metadata
    ids ← ready_manifests manifests
    stored ← read_dir objects
    ready_objects ids stored
    sessions ← read_dir uploads
    ready_uploads sessions
    trashed ← read_dir trash
    ready_trash trashed
    ready_quarantine_unlocked
    partials ← read_dir tmp
    raise_if (not (no_entries partials)) corrupt_metadata
