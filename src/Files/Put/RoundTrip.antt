-- ===== src/Files/Put/RoundTrip.antt =====
-- `Put` where nothing fails, and `Open` after it.
use astra_store_xion.Base.{
  ℕ, ◌^◌, ◌<◌, String, ◌≡◌, refl, true, false, none, some, List, [], length, string_key,
}
use astra_store_xion.Base.Dict.{lookup-insert_self, beq_refl}
use astra_store_xion.Base.Int64.{int64, int64_small, is_neg_small}
use astra_store_xion.Files.Model.{File, UploadInput, Reader, is_available}
use astra_store_xion.Files.Text.{is_blank, trim_space, valid_id, match_file_id, owner_from_metadata}
use astra_store_xion.Files.Disk.{name_key}
use astra_store_xion.Files.World.{Env, World, live, ok}
use astra_store_xion.Files.Io.{steps}
use astra_store_xion.Files.Account.{is_paused}
use astra_store_xion.Files.Account.Quotas.{IsReady, admits}
use astra_store_xion.Files.Read.{bad_file, get_unlocked, open_file, require_id}
use astra_store_xion.Files.Put.{choose_id, put, stored_file}
use astra_store_xion.Files.Put.Runs.{IsFree, after_put, put_locked_runs}

valid-nonblank : (id : String) → valid_id id ≡ true → is_blank id ≡ false
unfolding valid_id match_file_id
valid-nonblank String.[] e = absurd (cc)
valid-nonblank (String.◌∷◌ c s) e = refl

module _ (env : Env) (w : World) (ready : IsReady w) where
  -- Where the record of an id is sound and its object is there, `Open` returns both.
  pub open_file_runs :
      (f : File) (bytes : List ℕ)
      → valid_id f.id ≡ true
      → bad_file f.id f ≡ false
      → open_file env live f.id (after_put w f bytes) [] ≡ (ok (f, bytes), after_put w f bytes, [])
  unfolding open_file get_unlocked require_id steps
  open_file_runs f bytes valid sound = simp (valid, sound, lookup-insert_self)

  choose_id_runs :
      (given id : String)
      → trim_space given ≡ id
      → valid_id id ≡ true
      → choose_id env given w [] ≡ (ok id, w, [])
  unfolding choose_id require_id steps
  choose_id_runs given id e valid = simp (e, valid, valid-nonblank id valid)

  stored_file_sound :
      (input : UploadInput) (id : String) (bytes : List ℕ)
      → length bytes < 2 ^ 63
      → is_blank (env.digest bytes) ≡ false
      → bad_file id (stored_file env input id bytes (env.clock w.ticks)) ≡ false
  unfolding bad_file is_available
  stored_file_sound input id bytes short sealed =
      let e = int64_small (length bytes) short in
      let n = is_neg_small (length bytes) short in simp (beq_refl id, e, n, sealed)

  -- On a ready store that is not paused, with an id that is valid and free, a body that ends without
  -- an error and fits the quota, of less than 2 ^ 63 bytes and with a digest that is not blank:
  -- `Put` stores it where no system call fails, returns its record, and `Open` then returns the same
  -- record and the same bytes.
  pub put_open :
      (input : UploadInput) (reader : Reader)
      → input.reader ≡ some reader
      → reader.failure ≡ none
      → let id = trim_space input.id in
        let bytes = reader.bytes in
        let f = stored_file env input id bytes (env.clock w.ticks) in
        valid_id id ≡ true
        → IsFree w id
        → is_paused w.pause_at_percent (env.stat_fs w.disk) ≡ false
        → admits w (owner_from_metadata input.metadata) (int64 (length bytes)) ≡ true
        → length bytes < 2 ^ 63
        → is_blank (env.digest bytes) ≡ false
        → (put env live input w [] ≡ (ok f, after_put w f bytes, []))
          × (open_file env live id (after_put w f bytes) []
              ≡ (ok (f, bytes), after_put w f bytes, []))
  unfolding put steps
  put_open input reader given whole valid free running fits short sealed = (
    simp (given, choose_id_runs input.id _ refl valid)
        (put_locked_runs env w ready input reader _ free whole running fits),
    open_file_runs _ reader.bytes valid (stored_file_sound input _ reader.bytes short sealed),
  )
