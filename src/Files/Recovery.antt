-- ===== src/Files/Recovery.antt =====
-- What a start after a crash repairs: `Recover`, `quarantinePath`, `copyTree` and `copyFile` of
-- pkg/files/recovery.go. The report that accompanies an error is left out.
pub mod Scrap
pub mod Swept
pub mod Conserves
use Prim.Native.String
use astra_store_xion.Base.{
  is_some, ℕ, suc, ◌+◌, String, Bool, true, false, ◌||◌, not, Option, none, some, List, [], ◌∷◌,
  ltb, str_eq, string_key, if◌then◌else◌, take,
}
use astra_store_xion.Base.Dict.{Dict, lookup, insert, erase}
use astra_store_xion.Files.Model.{not_exist, io_error}
use astra_store_xion.Files.Disk.{
  Name, plain, json, json_tmp, part, spelled, name_key, Content, raw, Item, plain_file, folder,
  GroupEntry, group_dir, group_file, Disk, Area, tmp, metadata, uploads, dir, FilePath, at, under,
  Found, found, missing, blocked, find, drop_file,
}
use astra_store_xion.Files.World.{Result, ok, err, Env, Fault, pass, fail, World, Ctx, bytes_of}
use astra_store_xion.Files.Io.{
  M, pure, raise, gets, test, ◌>>=◌, ◌>>◌, on_disk, syscall, check, read_file, read_dir, remove_all,
  sync_directory, now, contents,
}
use astra_store_xion.Files.Account.{rebuild_usage_locked}
use astra_store_xion.Files.Sweep.{sweep_uploads_unlocked, one_more}

pub record RecoveryReport : Type 0 where
  pub partial_objects : ℕ
  pub metadata_manifests : ℕ
  pub upload_manifests : ℕ
  pub upload_sessions : ℕ
  pub expired_uploads : ℕ

-- `ExpiredTrash` stays 0.
unfoldable pub recovered : RecoveryReport → Bool
recovered r = ltb 0 (
    r.partial_objects + r.metadata_manifests + r.upload_manifests + r.upload_sessions
    + r.expired_uploads)

abbrev pub items_of : Option GroupEntry → Dict Name Item
items_of none = []
items_of (some (group_dir m)) = m
items_of (some (group_file c)) = []

abbrev pub group_of : String → Disk → Dict Name Item
group_of g d = items_of (lookup g d.quarantine)

abbrev pub set_group : String → Dict Name Item → Disk → Disk
set_group g m d = record d { quarantine = insert g (group_dir m) d.quarantine }

abbrev pub make_group : Option GroupEntry → String → Disk → Result Disk
make_group none g d = ok (set_group g [] d)
make_group (some (group_dir m)) g d = ok d
make_group (some (group_file c)) g d = err io_error

-- The name with a time before it.
abbrev pub stamped : String → Name → Name
stamped t (plain s) = plain (String.◌++◌ t (String.◌++◌ "-" s))
stamped t (json s) = json (String.◌++◌ t (String.◌++◌ "-" s))
stamped t (json_tmp s) = json_tmp (String.◌++◌ t (String.◌++◌ "-" s))
stamped t (part s) = part (String.◌++◌ t (String.◌++◌ "-" s))

abbrev pub found_item : Found → Result Item
found_item missing = err not_exist
found_item blocked = err io_error
found_item (found c) = ok (plain_file c)

abbrev pub entry_item : Option Item → Result Item
entry_item none = err not_exist
entry_item (some i) = ok i

abbrev pub item_at : FilePath → Disk → Result Item
item_at (at a n) d = entry_item (lookup n (dir a d))
item_at (under a n m) d = found_item (find (under a n m) d)

abbrev pub vacant_child : Option Item → Name → Result (Unit {0})
vacant_child (some (folder m)) n = elim (lookup n m) [ none ↦ ok tt | some c ↦ err io_error ]
vacant_child (some (plain_file c)) n = err io_error
vacant_child none n = err not_exist

abbrev pub with_child : Name → Content → Option Item → Item
with_child n c (some (folder m)) = folder (insert n c m)
with_child n c (some (plain_file d)) = plain_file d
with_child n c none = folder (insert n c [])

abbrev pub put_child : String → Name → Name → Content → Disk → Disk
put_child g target n c d =
    let m = group_of g d in set_group g (insert target (with_child n c (lookup target m)) m) d

-- `os.MkdirAll` of the target: a directory that is there may stay.
abbrev pub make_target : Option Item → String → Name → Disk → Result Disk
make_target none g target d = ok (set_group g (insert target (folder []) (group_of g d)) d)
make_target (some (folder m)) g target d = ok d
make_target (some (plain_file c)) g target d = err io_error

-- What stands at the end of a rename.
abbrev pub put_target : Option Item → Item → String → Name → Disk → Result Disk
put_target none i g target d = ok (set_group g (insert target i (group_of g d)) d)
put_target (some (plain_file c)) i g target d = ok (set_group g (insert target i (group_of g d)) d)
put_target (some (folder m)) i g target d = err io_error

abbrev pub create_child : Result (Unit {0}) → String → Name → Name → Disk → Result Disk
create_child (ok u) g target n d = ok (put_child g target n (raw []) d)
create_child (err e) g target n d = err e

abbrev pub changed : Result Disk → World → List Fault → Result (Unit {0}) × World × List Fault
changed (ok d) w p = (ok tt, record w { disk = d }, p)
changed (err e) w p = (err e, w, p)

-- A system call that changes the disk or fails.
unfoldable pub change : (Disk → Result Disk) → M (Unit {0})
change f = do syscall; λ w p. changed (f w.disk) w p

-- `pathExists` of the target
unfoldable pub target_exists : String → Name → M Bool
target_exists g n w [] = (ok (is_some (lookup n (group_of g w.disk))), w, [])
target_exists g n w (pass ∷ p) = (ok (is_some (lookup n (group_of g w.disk))), w, p)
target_exists g n w (fail k ∷ p) = (ok false, w, p)

-- `os.ReadDir` of a directory in an area
abbrev pub folder_files : Option Item → Result (Dict Name Content)
folder_files none = err not_exist
folder_files (some (plain_file c)) = err io_error
folder_files (some (folder m)) = ok m

unfoldable pub read_folder : Area → Name → M (Dict Name Content)
read_folder a n = do syscall; test (λ w. folder_files (lookup n (dir a w.disk)))

unfoldable pub stat_item : FilePath → M Item
stat_item path = do syscall; test (λ w. item_at path w.disk)

abbrev pub entry_of_path : FilePath → Area × Name
entry_of_path (at a n) = (a, n)
entry_of_path (under a n m) = (a, n)

-- `"uploads"`, entry and child: `entry.Name()+"-"+child.Name()`
abbrev pub child_name : Name → Name → Name
child_name n m = stamped (spelled n) m

abbrev pub is_part : Name → Bool
is_part (part s) = true
is_part _ = false

abbrev pub is_json_tmp : Name → Bool
is_json_tmp (json_tmp s) = true
is_json_tmp _ = false

module _ (env : Env) where
  -- The bytes of a file that was just created below the target; a write that fails has written some.
  unfoldable pub write_child : String → Name → Name → Content → M (Unit {0})
  write_child g target n c w [] = (ok tt, record w { disk = put_child g target n c w.disk }, [])
  write_child g target n c w (pass ∷ p) =
      (ok tt, record w { disk = put_child g target n c w.disk }, p)
  write_child g target n c w (fail k ∷ p) = (
    err io_error,
    record w { disk = put_child g target n (raw (take k (bytes_of env c))) w.disk },
    p,
  )

  -- The file is opened, created, copied, synchronised and closed.
  unfoldable pub copy_file : String → Name → Name → Content → M (Unit {0})
  copy_file g target n c = do
    syscall
    change (λ d. create_child (vacant_child (lookup target (group_of g d)) n) g target n d)
    write_child g target n c
    syscall
    syscall

  unfoldable pub copy_files : String → Name → List (Name × Content) → M (Unit {0})
  copy_files g target [] = sync_directory
  copy_files g target ((n, c) ∷ rest) = do copy_file g target n c; copy_files g target rest

  -- A directory of the store's holds files only.
  unfoldable pub copy_tree : Area → Name → String → Name → M (Unit {0})
  copy_tree a n g target = do
    change (λ d. make_target (lookup target (group_of g d)) g target d)
    children ← read_folder a n
    copy_files g target children

  unfoldable pub move_artifact : FilePath → String → Name → Item → M (Unit {0})
  move_artifact path g target (plain_file c) =
      change
        (λ d. put_target (lookup target (group_of g d)) (plain_file c) g target (drop_file path d))
  move_artifact path g target (folder m) = do
    copy_tree (entry_of_path path).0 (entry_of_path path).1 g target
    remove_all (entry_of_path path).0 (entry_of_path path).1

  unfoldable pub target_of : String → Name → M Name
  target_of g n = do
    taken ← target_exists g n
    if taken then (do t ← now env; pure (stamped (env.decimal t) n)) else pure n

  unfoldable pub quarantine_path : FilePath → String → Name → M (Unit {0})
  quarantine_path path g n = do
    change (λ d. make_group (lookup g d.quarantine) g d)
    target ← target_of g n
    item ← stat_item path
    move_artifact path g target item
    sync_directory

  -- The loop over `tmp`, and that over `metadata`: the files that `pick` picks are quarantined.
  unfoldable pub quarantine_picked : (Name → Bool) → Area → String → List (Name × Item) → ℕ → M ℕ
  quarantine_picked pick a g [] count = pure count
  quarantine_picked pick a g ((n, plain_file c) ∷ rest) count =
      let others = quarantine_picked pick a g rest in
      if pick n then (do quarantine_path (at a n) g n; others (suc count)) else others count
  quarantine_picked pick a g ((n, folder m) ∷ rest) count = quarantine_picked pick a g rest count

  -- The loop over a session's files: whether a manifest is there, and the temporary ones moved away.
  unfoldable pub recover_children : Name → List (Name × Content) → Bool → ℕ → M (Bool × ℕ)
  recover_children n [] has_manifest count = pure (has_manifest, count)
  recover_children n ((m, c) ∷ rest) has_manifest count =
      let others = recover_children n rest in
      if name_key.beq m (json "manifest")
      then others true count
      else if is_json_tmp m
      then (do
        quarantine_path (under uploads n m) "uploads" (child_name n m)
        others has_manifest (suc count))
      else others has_manifest count

  unfoldable pub recover_sessions : List (Name × Item) → ℕ → ℕ → M (ℕ × ℕ)
  recover_sessions [] manifests sessions = pure (manifests, sessions)
  recover_sessions ((n, plain_file c) ∷ rest) manifests sessions =
      recover_sessions rest manifests sessions
  recover_sessions ((n, folder m) ∷ rest) manifests sessions = do
    children ← read_folder uploads n
    (has_manifest, moved) ← recover_children n children false manifests
    if has_manifest then recover_sessions rest moved sessions else (do
      quarantine_path (at uploads n) "uploads" n
      recover_sessions rest moved (suc sessions))

  unfoldable pub reconcile : RecoveryReport → M RecoveryReport
  reconcile r = if recovered r then (do rebuild_usage_locked env; pure r) else pure r

  unfoldable pub recover : Ctx → M RecoveryReport
  recover ctx = do
    check ctx
    partials ← read_dir tmp
    partial_objects ← quarantine_picked is_part tmp "partials" partials 0
    manifests ← read_dir metadata
    metadata_manifests ← quarantine_picked is_json_tmp metadata "metadata" manifests 0
    sessions ← read_dir uploads
    (upload_manifests, upload_sessions) ← recover_sessions sessions 0 0
    t ← now env
    expired ← sweep_uploads_unlocked env t
    reconcile (record {
      partial_objects = partial_objects;
      metadata_manifests = metadata_manifests;
      upload_manifests = upload_manifests;
      upload_sessions = upload_sessions;
      expired_uploads = expired;
    })
