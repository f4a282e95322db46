-- ===== src/Files/Ready/Described.antt =====
-- A consistent data directory, told by what stands in it: by its entries, the records that its files
-- hold and the lengths of its files.
use astra_store_xion.Base.{ℕ, String, ◌≡◌, ◌≢◌, ◌⊎◌, false, some, [], ◌∷◌, All, length}
use astra_store_xion.Base.Int64.{int64, is_neg, le64, lt64}
use astra_store_xion.Base.Dict.{Dict, lookup}
use astra_store_xion.Files.Model.{File, FileStatus, UploadSession, uploading, completed}
use astra_store_xion.Files.Text.{codes}
use astra_store_xion.Files.Text.Ids.{Fits, uuid}
use astra_store_xion.Files.Disk.{
  Name, plain, json, part, spelled, name_key, Content, file_json, session_json, Item, plain_file,
  folder, GroupEntry, group_dir, Disk, found, find, metadata, uploads, trash, at, under,
}
use astra_store_xion.Files.World.{Env, bytes_of}

-- A UUID in lower case.
abbrev pub IsId : String → Type 0
IsId s = Fits uuid (codes s)

-- The directory has an entry of this name.
abbrev pub HasEntry : {V : Type 0} → Name → Dict Name V → Type 0
HasEntry n [] = ⊥
HasEntry n ((m, v) ∷ rest) = (m ≡ n) ⊎ HasEntry n rest

-- Each entry has one of the two names.
abbrev pub IsOneOf : Name → Name → Name × Content → Type 0
IsOneOf a b (m, c) = (m ≡ a) ⊎ (m ≡ b)

-- An available file of that id, with a size and a checksum.
abbrev pub IsRecord : String → File → Type 0
IsRecord id f =
    (f.id ≡ id) × (f.status ≡ FileStatus.available) × (is_neg f.size ≡ false) × (f.checksum ≢ "")

-- An entry of `metadata`: the record of a file, whose object is there too.
abbrev pub IsManifest : Disk → Name × Item → Type 0
IsManifest d (n, i) =
    (id : String) × (f : File) × (c : Content) × (object : Item) × (n ≡ json id)
    × (i ≡ plain_file c)
    × IsId id
    × (find (at metadata (json id)) d ≡ found (file_json f))
    × IsRecord id f
    × (lookup (plain id) d.objects ≡ some object)

-- An entry of `objects`: a file that is named by an id which has a manifest.
abbrev pub IsObject : Disk → Name × Item → Type 0
IsObject d (n, i) =
    (c : Content) × (i ≡ plain_file c) × IsId (spelled n) × HasEntry (json (spelled n)) d.metadata

-- The record of an upload session of that id: it is open or complete, it has received no more than
-- its size, and a complete one names the file that it became.
abbrev pub IsSession : String → UploadSession → Type 0
IsSession id s =
    (s.id ≡ id)
    × ((s.status ≡ uploading) ⊎ ((s.status ≡ completed) × (s.file_id ≢ "") × IsId s.file_id))
    × (le64 s.size 0 ≡ false)
    × (is_neg s.received_bytes ≡ false)
    × (lt64 s.size s.received_bytes ≡ false)

-- The part file of an open session has the length that the session has received.
abbrev pub HasPart : Env → Disk → String → UploadSession → Type 0
HasPart env d id s =
    (c : Content) × (find (under uploads (plain id) (part "data")) d ≡ found c)
    × (int64 (length (bytes_of env c)) ≡ s.received_bytes)

-- An open session has its part file; a complete one has none.
abbrev pub GoesWith : Env → Disk → String → Dict Name Content → UploadSession → Type 0
GoesWith env d id files s =
    ((s.status ≡ uploading) × HasPart env d id s)
    ⊎ ((s.status ≡ completed) × (HasEntry (part "data") files → ⊥))

-- An entry of `uploads`: a folder of a manifest, and perhaps a part file, and nothing else.
abbrev pub IsUpload : Env → Disk → Name × Item → Type 0
IsUpload env d (n, i) =
    (own files : Dict Name Content) × (s : UploadSession) × (i ≡ folder own)
    × IsId (spelled n)
    × (lookup n d.uploads ≡ some (folder files))
    × All (IsOneOf (json "manifest") (part "data")) files
    × HasEntry (json "manifest") files
    × (find (under uploads (plain (spelled n)) (json "manifest")) d ≡ found (session_json s))
    × IsSession (spelled n) s
    × GoesWith env d (spelled n) files s

-- An entry of `trash`: a folder of a manifest and an object, and nothing else. The record has a
-- time of deletion, and the object has the length that the record says.
abbrev pub IsTrashed : Env → Disk → Name × Item → Type 0
IsTrashed env d (n, i) =
    (own files : Dict Name Content) × (f : File) × (deleted : ℕ) × (c : Content) × (i ≡ folder own)
    × IsId (spelled n)
    × (lookup n d.trash ≡ some (folder files))
    × All (IsOneOf (plain "object") (json "manifest")) files
    × HasEntry (plain "object") files
    × HasEntry (json "manifest") files
    × (find (under trash (plain (spelled n)) (json "manifest")) d ≡ found (file_json f))
    × IsRecord (spelled n) f
    × (f.deleted_at ≡ some deleted)
    × (find (under trash (plain (spelled n)) (plain "object")) d ≡ found c)
    × (int64 (length (bytes_of env c)) ≡ f.size)

-- An entry of `quarantine`: one of the three groups, a folder.
abbrev pub IsGroup : String × GroupEntry → Type 0
IsGroup (g, e) =
    (entries : Dict Name Item) × (e ≡ group_dir entries)
    × (((g ≡ "partials") ⊎ (g ≡ "metadata")) ⊎ (g ≡ "uploads"))

-- Manifests and objects go together, one for one; the sessions, the recycle bin and the quarantine
-- hold what the store puts there; nothing is left in `tmp`.
abbrev pub IsConsistent : Env → Disk → Type 0
IsConsistent env d =
    All (IsManifest d) d.metadata
    × All (IsObject d) d.objects
    × All (IsUpload env d) d.uploads
    × All (IsTrashed env d) d.trash
    × All IsGroup d.quarantine
    × (d.tmp ≡ [])
