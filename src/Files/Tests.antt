-- ===== src/Files/Tests.antt =====
-- The theorems at concrete inputs: an empty store, one file of three bytes, one upload in two chunks.
pub mod Starts
use astra_store_xion.Base.{
  ◌≢◌, ℕ, ◌+◌, ◌≤◌, String, ◌≡◌, refl, true, false, some, none, List, [], ◌∷◌, ◌++◌, arith, length,
  drop, str_eq, string_key, All, if◌then◌else◌, ◌⊎◌, ◌==◌, ◌↔◌,
}
use astra_store_xion.Base.Dict.{lookup, insert}
use astra_store_xion.Base.Int64.{is_neg, add64, sub64, lt64, le64}
use astra_store_xion.Files.Model.{
  corrupt_metadata, upload_not_found, io_error, File, UploadInput, Reader, MultipartStartInput,
  UploadSession, is_available, not_found, upload_chunk_size,
}
use astra_store_xion.Files.Text.{
  codes, valid_id, trim_space, is_blank, owner_from_metadata, normalize_owner, clean_display_name,
  to_lower, equal_fold, is_sha256, has_slash,
}
use astra_store_xion.Files.Usage.{
  UsageIndex, new_usage_index, usage_file, usage_trash, usage_upload, total, entry_of, move_usage,
  release_usage,
}
use astra_store_xion.Files.Usage.Laws.{
  all_charged, total_exact, move_usage_admit, release_usage_exact, move_usage_transfer,
}
use astra_store_xion.Files.Disk.{plain_file, Disk, name_key, part, raw}
use astra_store_xion.Files.World.{Env, World, StatFs, loaded, ok, err, live}
use astra_store_xion.Files.Io.{◌>>=◌}
use astra_store_xion.Files.Account.Quotas.{IsReady, admits}
use astra_store_xion.Files.Read.{
  get_trash_unlocked, get_upload_unlocked, get_upload, bad_file, open_file, get,
}
use astra_store_xion.Files.Put.{put, stored_file}
use astra_store_xion.Files.Put.Runs.{after_put}
use astra_store_xion.Files.Put.RoundTrip.{put_open}
use astra_store_xion.Files.Put.Charges.{put_within_quota}
use astra_store_xion.Files.Upload.{
  write_chunk, abort_upload, differs, bad_checksum, limited, advanced, start_upload, append_upload,
  complete_upload,
}
use astra_store_xion.Files.Upload.Sessions.{IsOpen}
use astra_store_xion.Files.Upload.Start.{opened, after_start, first_files, start_opens}
use astra_store_xion.Files.Upload.Chunks.{after_append, files_after, append_extends}
use astra_store_xion.Files.Upload.Rollback.{chunk_fault, with_part, append_rolls_back}
use astra_store_xion.Files.Upload.Abort.{after_abort, abort_forgets}
use astra_store_xion.Files.Upload.Unsynced.{last_fails, torn, append_unsynced}
use astra_store_xion.Files.Upload.Complete.{completed_as, after_complete, complete_open}
use astra_store_xion.Files.Upload.Sequence.{send, upload_open}
use astra_store_xion.Files.Trash.{delete, restore}
use astra_store_xion.Files.Trash.RoundTrip.{IsStored, after_delete, after_restore, delete-restore}
use astra_store_xion.Files.Listing.{page}
use mathlib.Core.List.{Perm}
use astra_store_xion.Files.Listing.Order.{IsFalling, sort_sessions_newest_first}
use astra_store_xion.Files.Listing.{sort_sessions_by_updated}
use astra_store_xion.Files.Text.Ids.{IsPlain, Fits, uuid, valid_id_iff, valid_id_safe}
use astra_store_xion.Files.Text.Owners.{normalize_owner_idem}
use astra_store_xion.Files.Text.Names.{IsClean, IsFlat, clean_display_name_safe}

abbrev pub file_id : String
file_id = "0f8fad5b-d9cb-469f-a165-70867728950e"

abbrev fresh_id : String
fresh_id = "7c9e6679-7425-40de-944b-e07fc1f90ae7"

abbrev some_digest : String
some_digest = "e3b0c44298fc1c149afbf4c8996fb92427ae41e4649b934ca495991b7852b855"

abbrev small_disk : StatFs
small_disk = record { blocks = 100; bsize = 1; bavail = 50; bfree = 50 }

abbrev pub env_example : Env
env_example = record {
  new_id = λ n. if n == 0 then file_id else fresh_id;
  clock = λ t. t + 7;
  digest = λ bytes. some_digest;
  type_by_name = λ name. "";
  stat_fs = λ d. small_disk;
  file_text = λ f. [];
  session_text = λ s. [];
  decimal = λ n. "1";
}

abbrev pub empty_disk : Disk
empty_disk = record {
  objects = [];
  metadata = [];
  tmp = [];
  uploads = [];
  trash = [];
  quarantine = [];
}

-- An empty store with a quota of ten bytes for each owner.
abbrev pub empty_store : ℕ → World
empty_store percent = record {
  disk = empty_disk;
  pause_at_percent = percent;
  owner_quota_bytes = 10;
  upload_ttl = 0;
  usage = new_usage_index;
  usage_valid = true;
  load = loaded (ok tt);
  drawn = 0;
  ticks = 0;
}

pub empty_store-IsReady : (percent : ℕ) → IsReady (empty_store percent)
empty_store-IsReady percent = record { load = refl; valid = refl }

abbrev pub three_bytes : Reader
three_bytes = record { bytes = 1 ∷ 2 ∷ 3 ∷ []; failure = none }

abbrev input_example : UploadInput
input_example = record {
  id = " 0f8fad5b-d9cb-469f-a165-70867728950e";
  name = "a.txt";
  content_type = "";
  metadata = ("owner", "ada") ∷ [];
  reader = some three_bytes;
}

abbrev pub file_example : File
file_example = stored_file env_example input_example file_id three_bytes.bytes 7

pub file_id-valid : valid_id file_id ≡ true
unfolding valid_id
file_id-valid = refl

input_id : trim_space input_example.id ≡ file_id
unfolding trim_space
input_id = refl

fits_example : admits (empty_store 90) (owner_from_metadata input_example.metadata) 3 ≡ true
unfolding owner_from_metadata normalize_owner total is_neg lt64 sub64 entry_of add64
fits_example = refl

put_open_example :
    (put env_example live input_example (empty_store 90) []
      ≡ (ok file_example, after_put (empty_store 90) file_example three_bytes.bytes, []))
    × (open_file env_example live file_id
          (after_put (empty_store 90) file_example three_bytes.bytes)
          []
        ≡ (
          ok (file_example, three_bytes.bytes),
          after_put (empty_store 90) file_example three_bytes.bytes,
          [],
        ))
unfolding trim_space lookup valid_id owner_from_metadata normalize_owner total is_neg lt64 sub64
    entry_of add64
put_open_example =
    put_open env_example (empty_store 90) (empty_store-IsReady 90) input_example three_bytes refl
      refl refl
      (record {
        no_object = refl;
        no_manifest = refl;
        no_leftover = refl;
        no_part = refl;
        no_trash = refl;
      })
      refl refl (omega arith) refl

abbrev pub stored_store : World
stored_store = after_put (empty_store 90) file_example three_bytes.bytes

put_within_quota_example :
    (all_charged "ada" stored_store.usage ≡ all_charged "ada" new_usage_index + 3)
    × (all_charged "ada" stored_store.usage ≤ 10)
unfolding owner_from_metadata normalize_owner lookup
put_within_quota_example =
    put_within_quota env_example (empty_store 90) stored_store live input_example [] [] file_example
      (empty_store-IsReady 90) (omega arith) (omega arith) (omega arith) (omega arith)
      put_open_example.0

stored-IsStored : IsStored stored_store file_example three_bytes.bytes
unfolding lookup insert valid_id bad_file is_available is_neg
stored-IsStored = record {
  object = refl;
  manifest = refl;
  active = refl;
  no_trash = refl;
  sound = refl;
  valid = refl;
  size = refl;
}

delete-restore_example :
    (delete env_example live file_id stored_store []
      ≡ (ok tt, after_delete env_example stored_store file_example three_bytes.bytes, []))
    × (get env_example live file_id
          (after_delete env_example stored_store file_example three_bytes.bytes)
          []
        ≡ (err not_found, after_delete env_example stored_store file_example three_bytes.bytes, []))
    × (restore env_example live file_id
          (after_delete env_example stored_store file_example three_bytes.bytes)
          []
        ≡ (
          ok file_example,
          after_restore env_example stored_store file_example three_bytes.bytes stored-IsStored,
          [],
        ))
    × (open_file env_example live file_id
          (after_restore env_example stored_store file_example three_bytes.bytes stored-IsStored)
          []
        ≡ (
          ok (file_example, three_bytes.bytes),
          after_restore env_example stored_store file_example three_bytes.bytes stored-IsStored,
          [],
        ))
delete-restore_example =
    delete-restore env_example stored_store file_example three_bytes.bytes stored-IsStored

-- An upload of three bytes.
abbrev start_example : MultipartStartInput
start_example = record {
  name = "b.bin";
  content_type = "";
  size = 3;
  checksum = "";
  metadata = ("owner", "ada") ∷ [];
}

abbrev session_example : UploadSession
session_example = opened env_example (empty_store 0) start_example

abbrev started_store : World
started_store = after_start env_example (empty_store 0) session_example

start_opens_example :
    (start_upload env_example live start_example (empty_store 0) []
      ≡ (ok session_example, started_store, []))
    × IsOpen started_store session_example [] (first_files session_example)
unfolding lookup bad_checksum owner_from_metadata normalize_owner total is_neg lt64 sub64 entry_of
    add64
start_opens_example =
    start_opens env_example (empty_store 0) start_example (empty_store-IsReady 0) refl (omega arith)
      (omega arith) refl refl refl refl

abbrev two_bytes : Reader
two_bytes = record { bytes = 1 ∷ 2 ∷ []; failure = none }

append_extends_example :
    let next = advanced env_example session_example 2 9 in
    let w = after_append started_store next (1 ∷ 2 ∷ []) (first_files session_example) in
    (append_upload env_example live file_id 0 2 (some two_bytes) some_digest started_store []
      ≡ (ok next, w, []))
    × IsOpen w next (1 ∷ 2 ∷ []) (files_after (first_files session_example) next (1 ∷ 2 ∷ []))
unfolding valid_id bad_checksum is_sha256 differs trim_space equal_fold to_lower
append_extends_example =
    append_extends env_example started_store session_example [] (first_files session_example)
      start_opens_example.1 two_bytes some_digest (record { load = refl; valid = refl }) refl refl
      refl (omega arith) (omega arith) (omega arith) refl refl

append_rolls_back_example :
    let w = with_part started_store session_example [] (first_files session_example) in
    (append_upload env_example live file_id 0 3 (some two_bytes) "" started_store []
      ≡ (err upload_chunk_size, w, []))
    × IsOpen w session_example [] (insert (part "data") (raw []) (first_files session_example))
unfolding valid_id bad_checksum chunk_fault limited lt64 add64 le64
append_rolls_back_example =
    append_rolls_back env_example started_store session_example [] (first_files session_example)
      start_opens_example.1 3 two_bytes "" upload_chunk_size (record { load = refl; valid = refl })
      refl refl (omega arith) (omega arith) refl refl

abbrev full_session : UploadSession
full_session = advanced env_example session_example 3 9

abbrev full_store : World
full_store = after_append started_store full_session (1 ∷ 2 ∷ 3 ∷ []) (first_files session_example)

full_store-IsOpen :
    IsOpen full_store full_session
      (1 ∷ 2 ∷ 3 ∷ [])
      (files_after (first_files session_example) full_session (1 ∷ 2 ∷ 3 ∷ []))
unfolding valid_id bad_checksum differs trim_space
full_store-IsOpen =
    (append_extends env_example started_store session_example [] (first_files session_example)
      start_opens_example.1 three_bytes "" (record { load = refl; valid = refl }) refl refl refl
      (omega arith) (omega arith) (omega arith) refl refl).1

complete_open_example :
    let m = files_after (first_files session_example) full_session (1 ∷ 2 ∷ 3 ∷ []) in
    let f = completed_as env_example full_store full_session (1 ∷ 2 ∷ 3 ∷ []) m in
    let w = after_complete env_example full_store full_session (1 ∷ 2 ∷ 3 ∷ []) m in
    (complete_upload env_example live file_id full_store [] ≡ (ok f, w, []))
    × (open_file env_example live fresh_id w [] ≡ (ok (f, 1 ∷ 2 ∷ 3 ∷ []), w, []))
unfolding lookup valid_id differs to_lower trim_space
complete_open_example =
    complete_open env_example full_store full_session (1 ∷ 2 ∷ 3 ∷ [])
      (files_after (first_files session_example) full_session (1 ∷ 2 ∷ 3 ∷ [])) full_store-IsOpen
      (record { no_object = refl; no_manifest = refl; no_leftover = refl }) refl refl refl refl refl

upload_open_example :
    (f : File) × (w : World) × ((send env_example session_example ((1 ∷ 2 ∷ []) ∷ (3 ∷ []) ∷ [])
          >>= λ t. complete_upload env_example live t.id)
        started_store []
      ≡ (ok f, w, []))
    × (open_file env_example live f.id w [] ≡ (ok (f, 1 ∷ 2 ∷ 3 ∷ []), w, []))
unfolding lookup valid_id differs to_lower trim_space
upload_open_example =
    upload_open env_example ((1 ∷ 2 ∷ []) ∷ (3 ∷ []) ∷ []) started_store session_example
      (first_files session_example) start_opens_example.1 (record { load = refl; valid = refl })
      refl refl (omega arith) (omega arith, (omega arith, tt)) refl
      (record { no_object = refl; no_manifest = refl; no_leftover = refl }) refl refl refl

-- An owner with five bytes in one file.
abbrev five_bytes : UsageIndex
five_bytes = record {
  files = ("ada", record { bytes = 5; records = 1 }) ∷ [];
  trash = [];
  uploads = [];
}

valid_id_iff_example : (valid_id file_id ≡ true) ↔ Fits uuid (codes file_id)
valid_id_iff_example = valid_id_iff file_id

clean_display_name_safe_example :
    (clean_display_name "a/../b\n.txt " ≢ "")
    × (clean_display_name "a/../b\n.txt " ≢ ".")
    × IsClean (clean_display_name "a/../b\n.txt ")
    × ((clean_display_name "a/../b\n.txt " ≡ "/") ⊎ IsFlat (clean_display_name "a/../b\n.txt "))
clean_display_name_safe_example = clean_display_name_safe "a/../b\n.txt "

abort_forgets_example :
    let w =
      after_abort env_example started_store session_example [] (first_files session_example) in
    (abort_upload env_example live file_id started_store [] ≡ (ok tt, w, []))
    × (get_upload env_example live file_id w [] ≡ (err upload_not_found, w, []))
    × (abort_upload env_example live file_id w [] ≡ (ok tt, w, []))
abort_forgets_example =
    abort_forgets env_example started_store session_example [] (first_files session_example)
      start_opens_example.1 file_id-valid

append_unsynced_example :
    let w =
      torn started_store
        (advanced env_example session_example 2 9)
        []
        (1 ∷ 2 ∷ [])
        (first_files session_example) in
    (write_chunk env_example session_example 3 2 two_bytes "" started_store last_fails
      ≡ (err io_error, w, []))
    × (get_upload_unlocked env_example file_id w [] ≡ (err corrupt_metadata, w, []))
unfolding differs trim_space
append_unsynced_example =
    append_unsynced env_example started_store session_example [] (first_files session_example)
      start_opens_example.1 two_bytes "" refl (omega arith) (omega arith) (omega arith) refl

abbrev sessions_example : List UploadSession
sessions_example = session_example ∷ full_session ∷ []

sort_sessions_newest_first_example :
    IsFalling (sort_sessions_by_updated sessions_example)
    × Perm (sort_sessions_by_updated sessions_example) sessions_example
sort_sessions_newest_first_example = sort_sessions_newest_first sessions_example
