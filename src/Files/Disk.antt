-- ===== src/Files/Disk.antt =====
-- The data directory: `objects`, `metadata`, `tmp`, `uploads`, `trash` and `quarantine`, with the
-- entries that the store makes there. A name is read by its suffix, so that `json "x"` is the entry `x.json`.
use Prim.Native.String
use astra_store_xion.Base.{
  ℕ, String, ◌≡◌, ◌↔◌, Bool, true, false, Option, none, some, List, arith, str_eq, eq_iff,
  string_ltb, Key,
}
use astra_store_xion.Base.Dict.{Dict, lookup, insert, erase}
use astra_store_xion.Files.Model.{File, UploadSession}

pub data Name : Type 0 where
  plain json json_tmp part : String → Name

unfoldable pub spelled : Name → String
spelled (plain s) = s
spelled (json s) = String.◌++◌ s ".json"
spelled (json_tmp s) = String.◌++◌ s ".json.tmp"
spelled (part s) = String.◌++◌ s ".part"

abbrev pub name_beq : Name → Name → Bool
name_beq (plain s) (plain t) = str_eq s t
name_beq (json s) (json t) = str_eq s t
name_beq (json_tmp s) (json_tmp t) = str_eq s t
name_beq (part s) (part t) = str_eq s t
name_beq _ _ = false

pub name_beq_iff : (a b : Name) → (name_beq a b ≡ true) ↔ (a ≡ b)
name_beq_iff (plain s) (plain t) = ground (arith, eq_iff s t)
name_beq_iff (json s) (json t) = ground (arith, eq_iff s t)
name_beq_iff (json_tmp s) (json_tmp t) = ground (arith, eq_iff s t)
name_beq_iff (part s) (part t) = ground (arith, eq_iff s t)
name_beq_iff _ _ = (λ e. cc, λ e. cc)

-- `os.ReadDir` sorts by the spelled name.
unfoldable pub name_before : Name → Name → Bool
unfolding spelled
name_before a b = string_ltb (spelled a) (spelled b)

instance abbrev pub name_key : Key Name
name_key = record { beq = name_beq; beq_iff = name_beq_iff; before = name_before }

-- What a file holds: bytes, or the JSON text of a record.
pub data Content : Type 0 where
  raw : List ℕ → Content
  file_json : File → Content
  session_json : UploadSession → Content

-- An entry of one of the first five directories: a file, or a directory of files.
pub data Item : Type 0 where
  plain_file : Content → Item
  folder : Dict Name Content → Item

-- An entry of `quarantine`: a group of quarantined files and directories, or a stray file.
pub data GroupEntry : Type 0 where
  group_dir : Dict Name Item → GroupEntry
  group_file : Content → GroupEntry

pub record Disk : Type 0 where
  pub objects : Dict Name Item
  pub metadata : Dict Name Item
  pub tmp : Dict Name Item
  pub uploads : Dict Name Item
  pub trash : Dict Name Item
  pub quarantine : Dict String GroupEntry

pub data Area : Type 0 where
  objects metadata tmp uploads trash : Area

abbrev pub dir : Area → Disk → Dict Name Item
dir objects d = d.objects
dir metadata d = d.metadata
dir tmp d = d.tmp
dir uploads d = d.uploads
dir trash d = d.trash

abbrev pub set_dir : Area → Dict Name Item → Disk → Disk
set_dir objects m d = record d { objects = m }
set_dir metadata m d = record d { metadata = m }
set_dir tmp m d = record d { tmp = m }
set_dir uploads m d = record d { uploads = m }
set_dir trash m d = record d { trash = m }

-- A path below the root: an entry of an area, or a file in such an entry.
pub data FilePath : Type 0 where
  at : Area → Name → FilePath
  under : Area → Name → Name → FilePath

-- What `os.Stat` and `os.ReadFile` find.
pub data Found : Type 0 where
  missing blocked : Found
  found : Content → Found

abbrev pub as_file : Option Item → Found
as_file none = missing
as_file (some (folder m)) = blocked
as_file (some (plain_file c)) = found c

abbrev pub as_child : Option Content → Found
as_child none = missing
as_child (some c) = found c

abbrev pub in_folder : Name → Option Item → Found
in_folder n none = missing
in_folder n (some (folder m)) = as_child (lookup n m)
in_folder n (some (plain_file c)) = blocked

abbrev pub find : FilePath → Disk → Found
find (at a n) d = as_file (lookup n (dir a d))
find (under a n c) d = in_folder c (lookup n (dir a d))

abbrev pub update_folder :
    (Dict Name Content → Dict Name Content) → Option Item → Name → Dict Name Item → Dict Name Item
update_folder f (some (folder m)) n items = insert n (folder (f m)) items
update_folder f (some (plain_file c)) n items = items
update_folder f none n items = items

-- Writes a file, in place of what stands there; below an entry that is no directory nothing is written.
abbrev pub put_file : FilePath → Content → Disk → Disk
put_file (at a n) c d = set_dir a (insert n (plain_file c) (dir a d)) d
put_file (under a n m) c d =
    set_dir a (update_folder (insert m c) (lookup n (dir a d)) n (dir a d)) d

abbrev pub drop_file : FilePath → Disk → Disk
drop_file (at a n) d = set_dir a (erase n (dir a d)) d
drop_file (under a n m) d = set_dir a (update_folder (erase m) (lookup n (dir a d)) n (dir a d)) d

-- Whether the directory that a path lies in is there.
abbrev pub is_folder : Option Item → Bool
is_folder none = false
is_folder (some (folder m)) = true
is_folder (some (plain_file c)) = false

abbrev pub has_parent : FilePath → Disk → Bool
has_parent (at a n) d = true
has_parent (under a n m) d = is_folder (lookup n (dir a d))

-- `path + ".tmp"`, for a path that ends in `.json`
abbrev pub tmp_name : Name → Name
tmp_name (json s) = json_tmp s
tmp_name (plain s) = plain (String.◌++◌ s ".tmp")
tmp_name (json_tmp s) = plain (String.◌++◌ s ".json.tmp.tmp")
tmp_name (part s) = plain (String.◌++◌ s ".part.tmp")

abbrev pub tmp_path : FilePath → FilePath
tmp_path (at a n) = at a (tmp_name n)
tmp_path (under a n m) = under a n (tmp_name m)

-- The store's paths.
abbrev pub object_path : String → FilePath
object_path id = at objects (plain id)

abbrev pub manifest_path : String → FilePath
manifest_path id = at metadata (json id)

abbrev pub temporary_path : String → FilePath
temporary_path id = at tmp (part id)

abbrev pub session_data_path : String → FilePath
session_data_path id = under uploads (plain id) (part "data")

abbrev pub session_manifest_path : String → FilePath
session_manifest_path id = under uploads (plain id) (json "manifest")

abbrev pub trash_object_path : String → FilePath
trash_object_path id = under trash (plain id) (plain "object")

abbrev pub trash_manifest_path : String → FilePath
trash_manifest_path id = under trash (plain id) (json "manifest")
