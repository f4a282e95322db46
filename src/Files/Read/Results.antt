-- ===== src/Files/Read/Results.antt =====
-- What the readers return on a run without faults, from what stands on the disk.
use astra_store_xion.Base.{
  ◌∙◌, sym, ℕ, String, ◌≡◌, refl, Bool, true, false, Option, none, some, List, [], ◌==◌,
  if◌then◌else◌, Bool-cases, Option-cases, inl, inr, length,
}
use astra_store_xion.Base.Int64.{int64}
use astra_store_xion.Files.Model.{
  not_found, corrupt_metadata, io_error, invalid_id, cancelled, File,
}
use astra_store_xion.Files.Text.{valid_id}
use astra_store_xion.Files.Disk.{
  Found, missing, blocked, found, find, manifest_path, object_path, trash_manifest_path,
  trash_object_path,
}
use astra_store_xion.Files.World.{Result, ok, err, Env, World, Ctx, live, done, bytes_of}
use astra_store_xion.Files.Io.{steps}
use astra_store_xion.Files.Read.{
  decode_file, bad_file, bad_trash, get_unlocked, get_trash_unlocked, open_file, require_id,
}

abbrev checked_file : Bool → File → Result File
checked_file true f = err corrupt_metadata
checked_file false f = ok f

abbrev decoded_file : String → Option File → Result File
decoded_file id none = err corrupt_metadata
decoded_file id (some f) = checked_file (bad_file id f) f

-- The record in a manifest that was found.
abbrev pub file_result : String → Found → Result File
file_result id missing = err not_found
file_result id blocked = err io_error
file_result id (found c) = decoded_file id (decode_file c)

pub get_unlocked-file_result :
    (env : Env) (id : String) (w : World)
    → get_unlocked env id w [] ≡ (file_result id (find (manifest_path id) w.disk), w, [])
unfolding get_unlocked steps
get_unlocked-file_result env id w = go (find (manifest_path id) w.disk) refl
  where
    go :
        (o : Found)
        → find (manifest_path id) w.disk ≡ o
        → get_unlocked env id w [] ≡ (file_result id o, w, [])
    go missing e = simp e
    go blocked e = simp e
    go (found c) e = elim (Option-cases (decode_file c)) [
      | inl d ↦ simp (e, d)
      | inr (f, d) ↦ elim (Bool-cases (bad_file id f)) [
        | inl b ↦ simp (e, d, b)
        | inr b ↦ simp (e, d, b)
      ]
    ]

-- The object that goes with a record.
abbrev with_body : Env → File → Found → Result (File × List ℕ)
with_body env f missing = err not_found
with_body env f blocked = err io_error
with_body env f (found c) = ok (f, bytes_of env c)

abbrev then_body : Env → Result File → Found → Result (File × List ℕ)
then_body env (ok f) o = with_body env f o
then_body env (err e) o = err e

abbrev pub open_result : Env → Ctx → String → Found → Found → Result (File × List ℕ)
open_result env done id m o = if valid_id id then err cancelled else err invalid_id
open_result env live id m o =
    if valid_id id then then_body env (file_result id m) o else err invalid_id

pub open_file-open_result :
    (env : Env) (ctx : Ctx) (id : String) (w : World)
    → (open_file env ctx id w []).0
      ≡ open_result env ctx id (find (manifest_path id) w.disk) (find (object_path id) w.disk)
unfolding open_file require_id steps
open_file-open_result env done id w = elim (Bool-cases (valid_id id)) [
  | inl v ↦ simp v
  | inr v ↦ simp v
]
open_file-open_result env live id w = elim (Bool-cases (valid_id id)) [
  | inr v ↦ simp v
  | inl v ↦
      let m = find (manifest_path id) w.disk in
      let o = find (object_path id) w.disk in
      let valid : open_result env live id m o ≡ then_body env (file_result id m) o = rw v refl in
      opened (file_result id m) o refl refl v ∙ sym valid
]
  where
    opened :
        (r : Result File) (o : Found)
        → file_result id (find (manifest_path id) w.disk) ≡ r
        → find (object_path id) w.disk ≡ o
        → valid_id id ≡ true
        → (open_file env live id w []).0 ≡ then_body env r o
    opened (err e) o m b v = simp (v, get_unlocked-file_result env id w, m)
    opened (ok f) missing m b v = simp (v, get_unlocked-file_result env id w, m, b)
    opened (ok f) blocked m b v = simp (v, get_unlocked-file_result env id w, m, b)
    opened (ok f) (found c) m b v = simp (v, get_unlocked-file_result env id w, m, b)

-- An entry of the recycle bin has a body of the length that its record says.
abbrev pub sized_file : Env → File → Found → Result File
sized_file env f missing = err corrupt_metadata
sized_file env f blocked = err io_error
sized_file env f (found c) =
    if int64 (length (bytes_of env c)) == f.size then ok f else err corrupt_metadata

abbrev sized_trash : Env → String → File → Found → Result File
sized_trash env id f o = if bad_trash id f then err corrupt_metadata else sized_file env f o

abbrev decoded_trash : Env → String → Option File → Found → Result File
decoded_trash env id none o = err corrupt_metadata
decoded_trash env id (some f) o = sized_trash env id f o

abbrev pub trash_result : Env → String → Found → Found → Result File
trash_result env id missing o = err not_found
trash_result env id blocked o = err io_error
trash_result env id (found c) o = decoded_trash env id (decode_file c) o

pub get_trash_unlocked-trash_result :
    (env : Env) (id : String) (w : World)
    → get_trash_unlocked env id w [] ≡ (
      trash_result env id
          (find (trash_manifest_path id) w.disk)
          (find (trash_object_path id) w.disk),
      w,
      [],
    )
unfolding get_trash_unlocked steps
get_trash_unlocked-trash_result env id w =
    go (find (trash_manifest_path id) w.disk) (find (trash_object_path id) w.disk) refl refl
  where
    go :
        (m o : Found)
        → find (trash_manifest_path id) w.disk ≡ m
        → find (trash_object_path id) w.disk ≡ o
        → get_trash_unlocked env id w [] ≡ (trash_result env id m o, w, [])
    go missing o e b = simp e
    go blocked o e b = simp e
    go (found c) o e b = elim (Option-cases (decode_file c)) [
      | inl d ↦ simp (e, d)
      | inr (f, d) ↦ elim (Bool-cases (bad_trash id f)) [
        | inl t ↦ simp (e, d, t)
        | inr t ↦ sized f o e d t b
      ]
    ]
      where
        sized :
            (f : File) (o : Found)
            → find (trash_manifest_path id) w.disk ≡ found c
            → decode_file c ≡ some f
            → bad_trash id f ≡ false
            → find (trash_object_path id) w.disk ≡ o
            → get_trash_unlocked env id w [] ≡ (decoded_trash env id (decode_file c) o, w, [])
        sized f missing e d t b = simp (e, d, t, b)
        sized f blocked e d t b = simp (e, d, t, b)
        sized f (found c') e d t b =
            elim (Bool-cases (int64 (length (bytes_of env c')) == f.size)) [
              | inl z ↦ simp (e, d, t, b, z)
              | inr z ↦ simp (e, d, t, b, z)
            ]
