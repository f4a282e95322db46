-- ===== src/Files/Listing.antt =====
-- The listings: `Count`, `List` and `ListTrash` of pkg/files/store.go, `ListUploads` and
-- `sortSessionsByUpdated` of pkg/files/recovery.go.
pub mod Pages
pub mod Order
pub mod Whole
use astra_store_xion.Base.{
  ℕ, suc, ◌+◌, String, Bool, true, false, not, ◌&&◌, ◌||◌, Option, none, some, List, [], ◌∷◌, ltb,
  leb, ◌==◌, length, take, drop, string_ltb, if◌then◌else◌,
}
use astra_store_xion.Base.Sort.{sort_by}
use astra_store_xion.Base.Int64.{Int64, le64, lt64, is_neg}
use astra_store_xion.Files.Model.{corrupt_metadata, File, UploadSession}
use astra_store_xion.Files.Text.{valid_id}
use astra_store_xion.Files.Disk.{Name, spelled, Item, plain_file, folder, metadata, trash, uploads}
use astra_store_xion.Files.World.{Env, Ctx}
use astra_store_xion.Files.Io.{M, pure, ◌>>=◌, ◌>>◌, raise, raise_if, check, read_dir}
use astra_store_xion.Files.Read.{get_unlocked, get_trash_unlocked, get_upload_unlocked}
use astra_store_xion.Files.Account.{manifest_entry, folder_entry}

-- Newest first, then by id: the orders are decided by the ids in the end.
unfoldable pub newer_file : File → File → Bool
newer_file f g =
    if f.created_at == g.created_at then string_ltb f.id g.id else ltb g.created_at f.created_at

abbrev pub deleted_later : Option ℕ → Option ℕ → Bool → Bool
deleted_later (some s) (some t) by_id = if s == t then by_id else ltb t s
deleted_later _ _ by_id = by_id

unfoldable pub later_deleted : File → File → Bool
later_deleted f g = deleted_later f.deleted_at g.deleted_at (string_ltb f.id g.id)

unfoldable pub later_updated : UploadSession → UploadSession → Bool
later_updated s t =
    ltb t.updated_at s.updated_at || (s.updated_at == t.updated_at && string_ltb s.id t.id)

-- The inner loop: the session at `j` moves down while it comes before the one below it. What is
-- sorted so far stands with its last element in front.
unfoldable pub sink : UploadSession → List UploadSession → List UploadSession
sink s [] = s ∷ []
sink s (t ∷ ts) = let rest = sink s ts in if later_updated s t then t ∷ rest else s ∷ t ∷ ts

unfoldable pub sort_onto : List UploadSession → List UploadSession → List UploadSession
sort_onto acc [] = acc
sort_onto acc (s ∷ ss) = sort_onto (sink s acc) ss

abbrev pub reverse_onto {ℓ} : {A : Type ℓ} → List A → List A → List A
reverse_onto acc [] = acc
reverse_onto acc (x ∷ xs) = reverse_onto (x ∷ acc) xs

unfoldable pub sort_sessions_by_updated : List UploadSession → List UploadSession
sort_sessions_by_updated ss = reverse_onto [] (sort_onto [] ss)

unfoldable pub page_limit : Int64 → ℕ
page_limit limit = if le64 limit 0 then 100 else if lt64 1000 limit then 1000 else limit

unfoldable pub page_offset : Int64 → ℕ
page_offset offset = if is_neg offset then 0 else offset

-- The slice from the offset, of at most the limit.
unfoldable pub page {ℓ} : {A : Type ℓ} → Int64 → Int64 → List A → List A
page limit offset xs =
    if leb (length xs) (page_offset offset)
    then []
    else take (page_limit limit) (drop (page_offset offset) xs)

abbrev pub count_entry : Option String → ℕ → M ℕ
count_entry none n = pure n
count_entry (some id) n = do raise_if (not (valid_id id)) corrupt_metadata; pure (n + 1)

unfoldable pub count_entries : List (Name × Item) → ℕ → M ℕ
count_entries [] n = pure n
count_entries ((name, i) ∷ rest) n = do
  more ← count_entry (manifest_entry name i) n
  count_entries rest more

unfoldable pub count : Ctx → M ℕ
count ctx = do check ctx; entries ← read_dir metadata; count_entries entries 0

abbrev pub cons_some {ℓ} : {A : Type ℓ} → Option A → List A → List A
cons_some none xs = xs
cons_some (some x) xs = x ∷ xs

-- The records of the entries that have one.
unfoldable pub collect :
    {A : Type 0} → (Name → Item → M (Option A)) → List (Name × Item) → M (List A)
collect f [] = pure []
collect f ((n, i) ∷ rest) = do found ← f n i; others ← collect f rest; pure (cons_some found others)

module _ (env : Env) where
  abbrev pub read_manifest : Option String → M (Option File)
  read_manifest none = pure none
  read_manifest (some id) = do
    raise_if (not (valid_id id)) corrupt_metadata
    stored ← get_unlocked env id
    pure (some stored)

  unfoldable pub list : Ctx → Int64 → Int64 → M (List File)
  list ctx limit offset = do
    check ctx
    entries ← read_dir metadata
    stored ← collect (λ n i. read_manifest (manifest_entry n i)) entries
    pure (page limit offset (sort_by newer_file stored))

  abbrev pub read_trashed : Name → Item → M (Option File)
  read_trashed n (plain_file c) = raise corrupt_metadata
  read_trashed n (folder m) = do
    raise_if (not (valid_id (spelled n))) corrupt_metadata
    stored ← get_trash_unlocked env (spelled n)
    pure (some stored)

  unfoldable pub list_trash : Ctx → Int64 → Int64 → M (List File)
  list_trash ctx limit offset = do
    check ctx
    entries ← read_dir trash
    trashed ← collect read_trashed entries
    pure (page limit offset (sort_by later_deleted trashed))

  abbrev pub read_session : Option String → M (Option UploadSession)
  read_session none = pure none
  read_session (some id) =
      if valid_id id
      then (do session ← get_upload_unlocked env id; pure (some session))
      else pure none

  unfoldable pub list_uploads : Ctx → M (List UploadSession)
  list_uploads ctx = do
    check ctx
    entries ← read_dir uploads
    sessions ← collect (λ n i. read_session (folder_entry n i)) entries
    pure (sort_sessions_by_updated sessions)
