-- ===== src/Metadata/Tests.antt =====
-- The theorems on the metadata at concrete inputs.
use mathlib.Core.List.{Perm}
use astra_store_xion.Base.Sort.{sort_by, insert_by}
use astra_store_xion.Metadata.Service.{
  FileMetadata, id_before, id_exists, create_file_metadata, get_metadata, delete_metadata,
}
use astra_store_xion.Base.{
  List, String, ◌≢◌, ◌-◌, ◌^◌, ◌≡◌, refl, none, some, [], ◌∷◌, length, take, drop, arith,
  string_key,
}
use astra_store_xion.Base.Dict.{lookup}
use astra_store_xion.Metadata.Service.{
  CreateFileMetadataInput, Records, replies, panics, created_record, list_metadata,
  list_metadata_by_node_id, sorted_metadata,
}
use astra_store_xion.Metadata.Lists.{
  values, Rises, Picks, list_metadata_page, list_metadata_overflow,
}
use astra_store_xion.Metadata.Lifecycle.{IsRecordOf, Holds, updated, create_update_delete}

abbrev input_example : String → CreateFileMetadataInput
input_example id = record {
  file_id = id;
  name = "a";
  content_type = "text/plain";
  size = 3;
  checksum = "";
  owner_id = "ada";
  status = "";
  shard_key = 7;
  chunks = record { chunk_id = "c"; node_id = "n"; offset = 0; size = 3 } ∷ [];
}

abbrev two_records : Records
two_records =
    ("a", created_record 1 (input_example "a")) ∷ ("b", created_record 2 (input_example "b")) ∷ []

abbrev none_yet : Records
none_yet = []

free : lookup "a" none_yet ≡ none
unfolding lookup
free = refl

create_update_delete_example :
    Holds
      (IsRecordOf 1 1 (input_example "a").chunks (input_example "a"))
      "a"
      (create_file_metadata 1 (input_example "a") none_yet)
    × (create_file_metadata 2
          (input_example "a")
          (create_file_metadata 1 (input_example "a") none_yet).0
        ≡ ((create_file_metadata 1 (input_example "a") none_yet).0, some id_exists))
    × Holds
        (IsRecordOf 1 2 [] (input_example "a"))
        "a"
        (updated none_yet (input_example "a") 1 2 [])
    × ((other : String)
        → other ≢ "a"
        → (get_metadata other (create_file_metadata 1 (input_example "a") none_yet).0
            ≡ get_metadata other none_yet)
          × (get_metadata other (updated none_yet (input_example "a") 1 2 []).0
              ≡ get_metadata other none_yet))
    × (delete_metadata "a" (updated none_yet (input_example "a") 1 2 []).0 ≡ (none_yet, none))
create_update_delete_example = create_update_delete none_yet (input_example "a") 1 2 [] free

two_long : length (sorted_metadata two_records) ≡ 2
unfolding sorted_metadata sort_by insert_by id_before
two_long = refl

list_metadata_page_example :
    (sorted on : List FileMetadata) × Perm sorted (values two_records)
    × Rises sorted
    × Picks "n" sorted on
    × (list_metadata 1 1 two_records ≡ replies (take 1 (drop 1 sorted)))
    × (list_metadata_by_node_id "n" 1 1 two_records ≡ replies (take 1 (drop 1 on)))
list_metadata_page_example =
    list_metadata_page 1 1 two_records "n" (omega arith) (omega arith) (omega arith)

list_metadata_overflow_example : list_metadata (2 ^ 63 - 1) 1 two_records ≡ panics
list_metadata_overflow_example =
    list_metadata_overflow (2 ^ 63 - 1) 1 two_records (omega arith) (omega (arith, two_long))
      (omega (arith, two_long)) (omega arith)
