-- ===== src/Files/Account.antt =====
-- The accounting of pkg/files/store.go: the scan that rebuilds the index, the quota check, the
-- capacity and the pause threshold.
pub mod Quotas
pub mod Relates
use astra_store_xion.Base.{
  ℕ, zero, suc, ◌+◌, ◌-◌, ◌*◌, ◌%◌, ◌^◌, String, Bool, true, false, not, ◌&&◌, ◌||◌, Option, none,
  some, List, [], ◌∷◌, string_key, ltb, leb, ◌==◌, if◌then◌else◌,
}
use astra_store_xion.Base.Dict.{Dict, lookup, insert}
use astra_store_xion.Base.Int64.{Int64, is_neg, add64, sub64, lt64}
use astra_store_xion.Files.Model.{
  corrupt_metadata, invalid_upload, quota_exceeded, File, Capacity, Quota, is_uploading,
}
use astra_store_xion.Files.Text.{normalize_owner, owner_from_metadata, valid_id}
use astra_store_xion.Files.Usage.{
  UsageIndex, UsageKind, usage_file, usage_trash, usage_upload, new_usage_index, or_zero, bucket,
  set_bucket, credited, total, bytes_in, records_in,
}
use astra_store_xion.Files.Disk.{
  Name, json, spelled, Item, plain_file, folder, metadata, trash, uploads,
}
use astra_store_xion.Files.World.{
  Result, ok, err, Env, World, Load, not_loaded, loaded, Ctx, StatFs,
}
use astra_store_xion.Files.Io.{
  M, pure, raise, gets, from_result, ◌>>=◌, ◌>>◌, raise_if, modify, syscall, check, read_dir,
}
use astra_store_xion.Files.Read.{get_unlocked, get_trash_unlocked, get_upload_unlocked}

-- `entry.IsDir() || filepath.Ext(entry.Name()) != ".json"` skips an entry of `metadata`; the name
-- of any other, less its suffix, is an id.
abbrev pub manifest_entry : Name → Item → Option String
manifest_entry (json id) (plain_file c) = some id
manifest_entry _ _ = none

-- Of `trash` and `uploads` only directories count.
abbrev pub folder_entry : Name → Item → Option String
folder_entry n (folder m) = some (spelled n)
folder_entry n (plain_file c) = none

-- The closure `add` of `rebuildUsageLocked`.
unfoldable pub add_usage : UsageKind → String → Int64 → UsageIndex → Result UsageIndex
add_usage kind owner size index =
    let key = normalize_owner owner in
    let current = or_zero (lookup key (bucket kind index)) in
    if is_neg size
    then err corrupt_metadata
    else if lt64 (sub64 (2 ^ 63 - 1) size) current.bytes
    then err corrupt_metadata
    else ok (set_bucket kind (insert key (credited size 1 current) (bucket kind index)) index)

-- `s.load.Do` runs the scan once; its result stands for good.
abbrev pub remember : Result (Unit {0}) → M (Unit {0})
remember r w p = (r, record w { load = loaded r }, p)

-- `used > quota || incoming > quota - used`
abbrev pub over_quota : Int64 → Int64 → Int64 → Bool
over_quota quota used incoming = lt64 quota used || lt64 (sub64 quota used) incoming

-- The products of the source are of uint64, and `used` wraps.
abbrev pub total_of : StatFs → ℕ
total_of s = s.blocks * s.bsize % 2 ^ 64

abbrev pub used_of : StatFs → ℕ
used_of s = (total_of s + 2 ^ 64 - s.bfree * s.bsize % 2 ^ 64) % 2 ^ 64

-- `used * 100 / total >= pauseAtPercent`, without the rounding of float64; a total of 0 is 0 percent.
abbrev pub is_paused : ℕ → StatFs → Bool
is_paused percent s =
    ltb 0 percent && ltb 0 (total_of s) && leb (percent * total_of s) (used_of s * 100)

module _ (env : Env) where
  -- One entry of each of the three loops, given the rest of the loop.
  abbrev pub add_file : (UsageIndex → M UsageIndex) → Option String → UsageIndex → M UsageIndex
  add_file others none index = others index
  add_file others (some id) index = do
    raise_if (not (valid_id id)) corrupt_metadata
    file ← get_unlocked env id
    index' ← from_result (add_usage usage_file (owner_from_metadata file.metadata) file.size index)
    others index'

  abbrev pub add_trashed : (UsageIndex → M UsageIndex) → Option String → UsageIndex → M UsageIndex
  add_trashed others none index = others index
  add_trashed others (some id) index = do
    file ← get_trash_unlocked env id
    index' ← from_result (add_usage usage_trash (owner_from_metadata file.metadata) file.size index)
    others index'

  -- A session that is still uploading reserves its declared size.
  abbrev pub add_upload : (UsageIndex → M UsageIndex) → Option String → UsageIndex → M UsageIndex
  add_upload others none index = others index
  add_upload others (some id) index = do
    session ← get_upload_unlocked env id
    index' ← from_result (
        if is_uploading session.status
        then add_usage usage_upload (owner_from_metadata session.metadata) session.size index
        else ok index)
    others index'

  unfoldable pub add_files : List (Name × Item) → UsageIndex → M UsageIndex
  add_files [] index = pure index
  add_files ((n, item) ∷ rest) index = add_file (add_files rest) (manifest_entry n item) index

  unfoldable pub add_trash : List (Name × Item) → UsageIndex → M UsageIndex
  add_trash [] index = pure index
  add_trash ((n, item) ∷ rest) index = add_trashed (add_trash rest) (folder_entry n item) index

  unfoldable pub add_uploads : List (Name × Item) → UsageIndex → M UsageIndex
  add_uploads [] index = pure index
  add_uploads ((n, item) ∷ rest) index = add_upload (add_uploads rest) (folder_entry n item) index

  unfoldable pub rebuild_usage_locked : M (Unit {0})
  rebuild_usage_locked = do
    data_files ← read_dir metadata
    trash_entries ← read_dir trash
    upload_entries ← read_dir uploads
    files ← add_files data_files new_usage_index
    trashed ← add_trash trash_entries files
    index ← add_uploads upload_entries trashed
    modify (λ w. record w { usage = index; usage_valid = true })

  unfoldable pub ensure_by : Load → M (Unit {0})
  ensure_by (loaded r) w p = (r, w, p)
  ensure_by not_loaded w p = let (r, w', p') = rebuild_usage_locked w p in remember r w' p'

  unfoldable pub ensure_usage_locked : M (Unit {0})
  unfolding ensure_by
  ensure_usage_locked w p = ensure_by w.load w p

  unfoldable pub rebuild_usage : Ctx → M (Unit {0})
  rebuild_usage ctx = do check ctx; rebuild_usage_locked

  unfoldable pub owner_usage_locked : String → M Int64
  owner_usage_locked owner = do
    ensure_usage_locked
    gets (λ w. total (normalize_owner owner) w.usage)

  unfoldable pub enforce_quota_unlocked : String → Int64 → M (Unit {0})
  enforce_quota_unlocked owner incoming = do
    quota ← gets (λ w. w.owner_quota_bytes)
    if quota == 0 then pure tt else (do
      raise_if (is_neg incoming) invalid_upload
      used ← owner_usage_locked owner
      raise_if (over_quota quota used incoming) quota_exceeded)

  unfoldable pub capacity_unlocked : M Capacity
  capacity_unlocked = do
    syscall
    stat ← gets (λ w. env.stat_fs w.disk)
    ensure_usage_locked
    gets (λ w. record {
      total_bytes = total_of stat;
      used_bytes = used_of stat;
      available_bytes = stat.bavail * stat.bsize % 2 ^ 64;
      object_count = records_in usage_file w.usage;
      object_bytes = bytes_in usage_file w.usage;
      metadata_count = records_in usage_file w.usage;
      trash_count = records_in usage_trash w.usage;
      trash_bytes = bytes_in usage_trash w.usage;
      pause_at_percent = w.pause_at_percent;
      writes_paused = is_paused w.pause_at_percent stat;
    })

  unfoldable pub capacity : Ctx → M Capacity
  capacity ctx = do check ctx; capacity_unlocked

  unfoldable pub writes_paused_unlocked : M Bool
  writes_paused_unlocked = do
    percent ← gets (λ w. w.pause_at_percent)
    if percent == 0 then pure false else (do c ← capacity_unlocked; pure c.writes_paused)

  unfoldable pub quota : Ctx → String → M Quota
  quota ctx owner = do
    check ctx
    used ← owner_usage_locked (normalize_owner owner)
    gets (λ w.
        let limit = w.owner_quota_bytes in
        record {
          owner = normalize_owner owner;
          limit_bytes = limit;
          used_bytes = used;
          available_bytes = if lt64 used limit then sub64 limit used else 0;
        })
