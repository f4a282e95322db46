-- ===== src/Metadata/Lifecycle.antt =====
-- A record from its creation to its deletion.
use astra_store_xion.Base.{
  ℕ, String, ◌≡◌, ◌≢◌, inl, inr, refl, sym, Option, none, some, List, Bool-cases, string_key,
  if◌then◌else◌, eq_iff, str_eq,
}
use astra_store_xion.Base.Dict.{
  lookup, insert, lookup-insert_self, lookup-insert_ne, insert-insert, erase-insert,
}
use astra_store_xion.Metadata.Service.{
  ChunkInfo, FileMetadata, CreateFileMetadataInput, id_exists, replies, Records, created_record,
  rechunked, create_file_metadata, get_metadata, update_metadata, delete_metadata, MetadataError,
}

-- What the record of a new file holds, field by field.
pub record IsRecordOf (now later : ℕ) (stored : List ChunkInfo) (input : CreateFileMetadataInput)
    (r : FileMetadata) : Type 0 where
  pub file_id : r.file_id ≡ input.file_id
  pub name : r.name ≡ input.name
  pub content_type : r.content_type ≡ input.content_type
  pub size : r.size ≡ input.size
  pub checksum : r.checksum ≡ input.checksum
  pub owner_id : r.owner_id ≡ input.owner_id
  pub status_given : input.status ≢ "" → r.status ≡ input.status
  pub status_ready : input.status ≡ "" → r.status ≡ "ready"
  pub shard_key : r.shard_key ≡ input.shard_key
  pub chunks : r.chunks ≡ stored
  pub created_at : r.created_at ≡ now
  pub updated_at : r.updated_at ≡ later

-- The call succeeded and the record reads back as described.
abbrev pub Holds : (FileMetadata → Type 0) → String → Records × Option MetadataError → Type 0
Holds P id (m, e) = (e ≡ none) × (r : FileMetadata) × (get_metadata id m ≡ replies r) × P r

status_default : (s : String) → s ≡ "" → (if str_eq s "" then "ready" else s) ≡ "ready"
status_default s e = rw ((eq_iff s "").1 e) refl

status_kept : (s : String) → s ≢ "" → (if str_eq s "" then "ready" else s) ≡ s
status_kept s h = elim (Bool-cases (str_eq s "")) [
  | inl e ↦ absurd (h ((eq_iff s "").0 e))
  | inr e ↦ rw e refl
]

created-IsRecordOf :
    (now : ℕ) (input : CreateFileMetadataInput)
    → IsRecordOf now now input.chunks input (created_record now input)
created-IsRecordOf now input = record {
  file_id = refl;
  name = refl;
  content_type = refl;
  size = refl;
  checksum = refl;
  owner_id = refl;
  status_given = status_kept input.status;
  status_ready = status_default input.status;
  shard_key = refl;
  chunks = refl;
  created_at = refl;
  updated_at = refl;
}

module _ (m : Records) (input : CreateFileMetadataInput) (now : ℕ) where
  abbrev pub created : Records × Option MetadataError
  created = create_file_metadata now input m

  abbrev pub updated : ℕ → List ChunkInfo → Records × Option MetadataError
  updated later chunks = update_metadata later input.file_id chunks created.0

  create_runs :
      lookup input.file_id m ≡ none
      → created ≡ (insert input.file_id (created_record now input) m, none)
  unfolding create_file_metadata
  create_runs free = simp (free)

  update_runs :
      (later : ℕ) (chunks : List ChunkInfo)
      → lookup input.file_id m ≡ none
      → updated later chunks
        ≡ (insert input.file_id (rechunked later chunks (created_record now input)) m, none)
  unfolding update_metadata
  update_runs later chunks free =
      let r = created_record now input in
      rw (create_runs free) (
        simp (
          lookup-insert_self input.file_id r m,
          insert-insert input.file_id (rechunked later chunks r) r m,
        ))

  again :
      (later : ℕ)
      → create_file_metadata later input (insert input.file_id (created_record now input) m)
        ≡ (insert input.file_id (created_record now input) m, some id_exists)
  unfolding create_file_metadata
  again later = simp (lookup-insert_self input.file_id (created_record now input) m)

  gone :
      (r : FileMetadata)
      → lookup input.file_id m ≡ none
      → delete_metadata input.file_id (insert input.file_id r m) ≡ (m, none)
  unfolding delete_metadata
  gone r free = rw (lookup-insert_self input.file_id r m, erase-insert input.file_id r m free) refl

  updated-IsRecordOf :
      (later : ℕ) (chunks : List ChunkInfo)
      → IsRecordOf now later chunks input (rechunked later chunks (created_record now input))
  updated-IsRecordOf later chunks = record {
    file_id = refl;
    name = refl;
    content_type = refl;
    size = refl;
    checksum = refl;
    owner_id = refl;
    status_given = status_kept input.status;
    status_ready = status_default input.status;
    shard_key = refl;
    chunks = refl;
    created_at = refl;
    updated_at = refl;
  }

  -- Under a free id: what is created reads back field by field as it was given, ready if no status
  -- was, with both times set, and cannot be created again; an update changes the chunks and the time
  -- of the update and no other field; neither touches another id; and a deletion after that gives
  -- back the records from before.
  pub create_update_delete :
      (later : ℕ) (chunks : List ChunkInfo)
      → lookup input.file_id m ≡ none
      → Holds (IsRecordOf now now input.chunks input) input.file_id created
        × (create_file_metadata later input created.0 ≡ (created.0, some id_exists))
        × Holds (IsRecordOf now later chunks input) input.file_id (updated later chunks)
        × ((other : String)
            → other ≢ input.file_id
            → (get_metadata other created.0 ≡ get_metadata other m)
              × (get_metadata other (updated later chunks).0 ≡ get_metadata other m))
        × (delete_metadata input.file_id (updated later chunks).0 ≡ (m, none))
  unfolding get_metadata
  create_update_delete later chunks free =
      let r = created_record now input in
      let newer = rechunked later chunks r in
      let c = create_runs free in
      let u = update_runs later chunks free in
      (
        rw c
            (refl, r, rw (lookup-insert_self input.file_id r m) refl, created-IsRecordOf now input),
        rw c (again later),
        rw u (
          refl,
          newer,
          rw (lookup-insert_self input.file_id newer m) refl,
          updated-IsRecordOf later chunks,
        ),
        (λ other differs. (
          rw c (rw (lookup-insert_ne input.file_id other r m (λ h. differs (sym h))) refl),
          rw u (rw (lookup-insert_ne input.file_id other newer m (λ h. differs (sym h))) refl),
        )),
        rw u (gone newer free),
      )
