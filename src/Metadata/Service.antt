-- ===== src/Metadata/Service.antt =====
-- The operations of `InMemoryMetadataService` of pkg/metadata/service.go. A chunk list is copied where
-- it enters and where it leaves, so that a value stands for it.
use astra_store_xion.Base.{
  is_some, ℕ, ◌-◌, String, Bool, false, ◌||◌, Option, none, some, List, [], ◌∷◌, str_eq, string_ltb,
  string_key, if◌then◌else◌, length, take, drop,
}
use astra_store_xion.Base.Dict.{Dict, lookup, insert, erase}
use astra_store_xion.Base.Int64.{Int64, is_neg, add64, lt64, le64}
use astra_store_xion.Base.Sort.{sort_by}

pub record ChunkInfo : Type 0 where
  pub chunk_id : String
  pub node_id : String
  pub offset : Int64
  pub size : Int64

-- `Status` is a string.
pub record FileMetadata : Type 0 where
  pub file_id : String
  pub name : String
  pub content_type : String
  pub size : Int64
  pub checksum : String
  pub owner_id : String
  pub status : String
  pub shard_key : ℕ
  pub chunks : List ChunkInfo
  pub created_at : ℕ
  pub updated_at : ℕ

pub record CreateFileMetadataInput : Type 0 where
  pub file_id : String
  pub name : String
  pub content_type : String
  pub size : Int64
  pub checksum : String
  pub owner_id : String
  pub status : String
  pub shard_key : ℕ
  pub chunks : List ChunkInfo

abbrev pub status_ready : String
status_ready = "ready"

pub data MetadataError : Type 0 where
  id_exists id_missing : MetadataError

-- How a call ends; a slice with bounds out of range panics.
pub data Reply (A : Type 0) : Type 0 where
  replies : A → Reply A
  rejects : MetadataError → Reply A
  panics : Reply A

abbrev pub Records : Type 0
Records = Dict String FileMetadata

abbrev pub created_record : ℕ → CreateFileMetadataInput → FileMetadata
created_record now input = record {
  file_id = input.file_id;
  name = input.name;
  content_type = input.content_type;
  size = input.size;
  checksum = input.checksum;
  owner_id = input.owner_id;
  status = if str_eq input.status "" then status_ready else input.status;
  shard_key = input.shard_key;
  chunks = input.chunks;
  created_at = now;
  updated_at = now;
}

abbrev pub exists : String → Records → Bool
exists id m = is_some (lookup id m)

unfoldable pub create_file_metadata :
    ℕ → CreateFileMetadataInput → Records → Records × Option MetadataError
create_file_metadata now input m =
    if exists input.file_id m
    then (m, some id_exists)
    else (insert input.file_id (created_record now input) m, none)

unfoldable pub create_metadata :
    ℕ → String → ℕ → List ChunkInfo → Records → Records × Option MetadataError
create_metadata now file_id shard_key chunks m =
    create_file_metadata now
      (record {
        file_id = file_id;
        name = "";
        content_type = "";
        size = 0;
        checksum = "";
        owner_id = "";
        status = status_ready;
        shard_key = shard_key;
        chunks = chunks;
      })
      m

abbrev pub as_reply : Option FileMetadata → Reply FileMetadata
as_reply none = rejects id_missing
as_reply (some r) = replies r

unfoldable pub get_metadata : String → Records → Reply FileMetadata
get_metadata file_id m = as_reply (lookup file_id m)

abbrev pub rechunked : ℕ → List ChunkInfo → FileMetadata → FileMetadata
rechunked now chunks r = record r { chunks = chunks; updated_at = now }

abbrev pub updated_in :
    Option FileMetadata → ℕ → String → List ChunkInfo → Records → Records × Option MetadataError
updated_in none now file_id chunks m = (m, some id_missing)
updated_in (some r) now file_id chunks m = (insert file_id (rechunked now chunks r) m, none)

unfoldable pub update_metadata :
    ℕ → String → List ChunkInfo → Records → Records × Option MetadataError
update_metadata now file_id chunks m = updated_in (lookup file_id m) now file_id chunks m

unfoldable pub delete_metadata : String → Records → Records × Option MetadataError
delete_metadata file_id m =
    if exists file_id m then (erase file_id m, none) else (m, some id_missing)

abbrev pub records_of : Records → List FileMetadata
records_of [] = []
records_of ((id, r) ∷ m) = r ∷ records_of m

unfoldable pub id_before : FileMetadata → FileMetadata → Bool
id_before r s = string_ltb r.file_id s.file_id

unfoldable pub sorted_metadata : Records → List FileMetadata
sorted_metadata m = sort_by id_before (records_of m)

-- `items[from:to]`
unfoldable pub slice : {A : Type 0} → Int64 → Int64 → List A → Reply (List A)
slice from to xs =
    if is_neg to || (lt64 to from || lt64 (length xs) to)
    then panics
    else replies (take (to - from) (drop from xs))

unfoldable pub from_offset : Int64 → Int64
from_offset offset = if is_neg offset then 0 else offset

unfoldable pub up_to_limit : Int64 → Int64
up_to_limit limit = if le64 limit 0 then 10 else limit

-- The end of the page: `offset + limit` wraps around.
unfoldable pub page_end : Int64 → Int64 → ℕ → Int64
page_end offset limit count = let end = add64 offset limit in if lt64 count end then count else end

unfoldable pub page_of : {A : Type 0} → Int64 → Int64 → List A → Reply (List A)
page_of limit offset xs =
    if le64 (length xs) (from_offset offset)
    then replies []
    else slice (from_offset offset) (page_end (from_offset offset) (up_to_limit limit) (length xs))
        xs

unfoldable pub list_metadata : Int64 → Int64 → Records → Reply (List FileMetadata)
list_metadata limit offset m = page_of limit offset (sorted_metadata m)

unfoldable pub has_node : String → List ChunkInfo → Bool
has_node node [] = false
has_node node (c ∷ cs) = let rest = has_node node cs in str_eq c.node_id node || rest

unfoldable pub on_node : String → List FileMetadata → List FileMetadata
on_node node [] = []
on_node node (r ∷ rs) =
    let rest = on_node node rs in if has_node node r.chunks then r ∷ rest else rest

unfoldable pub list_metadata_by_node_id :
    String → Int64 → Int64 → Records → Reply (List FileMetadata)
list_metadata_by_node_id node limit offset m =
    page_of limit offset (on_node node (sorted_metadata m))
