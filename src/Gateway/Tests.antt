-- ===== src/Gateway/Tests.antt =====
-- The theorems about the gateway at concrete requests.
use astra_store_xion.Base.{
  ◌≤◌, ◌<◌, ◌+◌, ◌-◌, ◌^◌, false, ◌≡◌, ◌≢◌, ◌⊎◌, refl, none, some, [], ◌∷◌, arith, string_key,
}
use Prim.Native.String
use astra_store_xion.Base.Dict.{lookup}
use astra_store_xion.Base.Int64.{le64, is_neg, lt64, add64, sub64}
use astra_store_xion.Files.Model.{File}
use astra_store_xion.Files.Text.{trim_space, valid_id, owner_from_metadata, normalize_owner}
use astra_store_xion.Files.World.{live}
use astra_store_xion.Files.Usage.{total, entry_of}
use astra_store_xion.Files.Put.{stored_file}
use astra_store_xion.Files.Put.Runs.{after_put}
use astra_store_xion.Files.Tests.{
  file_id, env_example, empty_store, empty_store-IsReady, three_bytes,
}
use astra_store_xion.Replication.Jobs.{Manager, persisted}
use astra_store_xion.Gateway.Model.{
  write_error, write_json, file_body, download_body, Gateway, Formats, Request, Occasion, Site,
  goes_on, is_marked,
}
use astra_store_xion.Gateway.Text.{
  parse_content_range, strip_prefix, split_at, parse_int, parse_digits, is_digit,
}
use astra_store_xion.Gateway.Multipart.{
  read_multipart_field, Part, next, no_more, upload, upload_input, upload_limit_reader,
}
use astra_store_xion.Gateway.Handlers.{delete_file, is_open, handle, download}
use astra_store_xion.Gateway.Ranges.{content_range-parse_content_range}
use astra_store_xion.Gateway.Ranges.Bounds.{parse_content_range_bounds}
use astra_store_xion.Gateway.Guard.{served, handle_guarded}
use astra_store_xion.Gateway.Queue.{Fate, handle-Fate}
use astra_store_xion.Gateway.Limits.{read_all, read_all_lem}
use astra_store_xion.Gateway.Transfers.{site_with, upload-download}

content_range-parse_content_range_example :
    parse_content_range " bytes 0-99/1234 " ≡ some (0, 99, 1234)
unfolding trim_space
content_range-parse_content_range_example =
    content_range-parse_content_range " bytes 0-99/1234 " "0-99/1234" 0 99 1234 refl refl
      (omega arith) (omega arith) (omega arith)

accepted_range : parse_content_range "bytes 5-8/10" ≡ some (5, 8, 10)
unfolding parse_content_range trim_space strip_prefix split_at parse_int parse_digits is_digit
    is_neg lt64 le64
accepted_range = refl

parse_content_range_bounds_example :
    (5 ≤ 8) × (8 < 10) × (10 < 2 ^ 63) × (add64 (sub64 8 5) 1 ≡ 8 + 1 - 5)
parse_content_range_bounds_example = parse_content_range_bounds "bytes 5-8/10" 5 8 10 accepted_range

abbrev no_formats : Formats
no_formats = record {
  metadata_json = λ bytes m. some (("owner", "ada") ∷ []);
  start_json = λ bytes. none;
  purge_json = λ bytes. none;
  parse_duration = λ s. none;
  parse_time = λ s. none;
}

abbrev small_gateway : Gateway
small_gateway = record { token = "secret"; max_upload_bytes = 100 }

abbrev morning : Occasion
morning = record {
  ctx = live;
  later = live;
  clock = 9;
  persist = persisted;
  persists = λ job. persisted;
  random = "1";
}

-- From the other site, with its id and the token.
abbrev replica_request : Request
replica_request = record {
  authorization = "Bearer secret";
  replication = "true";
  replication_file_id = file_id;
  content_range = "";
  content_length = 0;
  chunk_checksum = "";
  limit = "";
  offset = "";
  owner = "";
}

abbrev stranger : Request
stranger = record replica_request { authorization = "Basic secret" }

abbrev empty_site : Site
empty_site = site_with (empty_store 90) none

handle_guarded_example :
    ((stranger.authorization ≡ String.◌++◌ "Bearer " small_gateway.token)
      × (handle env_example no_formats small_gateway morning stranger
            (delete_file file_id)
            empty_site
          ≡ served env_example no_formats small_gateway morning stranger
              (delete_file file_id)
              empty_site))
    ⊎ ((stranger.authorization ≢ String.◌++◌ "Bearer " small_gateway.token)
        × (handle env_example no_formats small_gateway morning stranger
              (delete_file file_id)
              empty_site
            ≡ (write_error 401 "unauthorized", empty_site)))
unfolding is_open
handle_guarded_example =
    handle_guarded env_example no_formats small_gateway morning stranger (delete_file file_id)
      empty_site refl refl

abbrev file_part_example : Part
file_part_example = record {
  form_name = "file";
  file_name = "a.txt";
  content_type = "text/plain";
  reader = three_bytes;
  close_fails = false;
}

abbrev metadata_part_example : Part
metadata_part_example = record {
  form_name = "metadata";
  file_name = "";
  content_type = "";
  reader = record { bytes = b'{' ∷ []; failure = none };
  close_fails = false;
}

abbrev upload_example : File
upload_example =
    stored_file env_example
      (upload_input small_gateway file_id (("owner", "ada") ∷ []) file_part_example) file_id
      three_bytes.bytes 7

-- A client's own request, not a replication.
abbrev local_request : Request
local_request = record replica_request { replication = ""; replication_file_id = "" }

abbrev no_jobs : Manager
no_jobs = record {
  jobs = [];
  saved = [];
  max_attempts = 3;
  backoff_base = 5;
  backoff_max = 60;
  wake = false;
}

-- A store with one file, beside a replication manager.
abbrev stored_site : Site
stored_site = site_with (after_put (empty_store 90) upload_example three_bytes.bytes) (some no_jobs)

handle-Fate_example :
    let (response, after) =
      handle env_example no_formats small_gateway morning local_request
        (delete_file file_id)
        stored_site in
    Fate local_request morning (delete_file file_id) (some no_jobs) response after.replicator
handle-Fate_example =
    handle-Fate env_example no_formats small_gateway morning local_request (delete_file file_id)
      stored_site refl tt

upload-download_example :
    (upload env_example no_formats small_gateway morning replica_request
        (some (next metadata_part_example (next file_part_example no_more)))
        empty_site
      ≡ (
        goes_on (write_json 201 (file_body upload_example)),
        site_with (after_put (empty_store 90) upload_example three_bytes.bytes) none,
      ))
    × (download env_example no_formats small_gateway morning file_id
          (site_with (after_put (empty_store 90) upload_example three_bytes.bytes) none)
        ≡ (
          goes_on (
              write_json 200 (
                download_body upload_example.content_type upload_example.size upload_example.name
                  upload_example.checksum three_bytes.bytes)),
          site_with (after_put (empty_store 90) upload_example three_bytes.bytes) none,
        ))
unfolding trim_space lookup valid_id owner_from_metadata normalize_owner total is_neg lt64 sub64
    entry_of add64 is_marked read_multipart_field
upload-download_example =
    upload-download env_example no_formats small_gateway (empty_store 90) (empty_store-IsReady 90)
      morning morning replica_request (("owner", "ada") ∷ []) metadata_part_example
      file_part_example none refl refl refl (record { form_name = refl; decodes = refl })
      (record { form_name = refl; file_name = refl; closes = refl }) refl (omega arith) refl
      (record {
        no_object = refl;
        no_manifest = refl;
        no_leftover = refl;
        no_part = refl;
        no_trash = refl;
      })
      refl refl (omega arith) refl

read_all_lem_example :
    read_all ((3, 0) ∷ (3, 1) ∷ (0, 1) ∷ (3, 1) ∷ []) 2 three_bytes
    ≡ some (upload_limit_reader 2 three_bytes)
read_all_lem_example =
    read_all_lem ((3, 0) ∷ (3, 1) ∷ (0, 1) ∷ (3, 1) ∷ []) 2 three_bytes
      (omega arith, (omega arith, (omega arith, (omega arith, tt)))) (omega arith) (omega arith)
