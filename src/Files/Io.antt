-- ===== src/Files/Io.antt =====
-- Operations with effects: a world and a plan of faults go in; a result, a world and the faults that
-- are left come out. What was written before an error stays written. An empty plan has no fault.
pub mod Quiet
pub mod Ensures
pub mod Runs
pub mod Decides
pub mod Relates
use astra_store_xion.Base.{
  is_some, ℕ, zero, suc, ◌+◌, String, ◌≡◌, refl, Bool, true, false, not, Option, none, some, List,
  [], ◌∷◌, ◌++◌, if◌then◌else◌, length, take,
}
use astra_store_xion.Base.Dict.{Dict, lookup, insert, erase}
use astra_store_xion.Base.Int64.{Int64, int64}
use astra_store_xion.Files.Model.{Err, cancelled, not_exist, io_error, Reader}
use astra_store_xion.Files.Disk.{
  Name, name_key, Content, raw, Item, plain_file, folder, Disk, Area, dir, set_dir, FilePath, Found,
  missing, blocked, found, find, put_file, drop_file, has_parent, tmp_path,
}
use astra_store_xion.Files.World.{
  Result, ok, err, Env, Fault, pass, fail, World, Ctx, live, done, bytes_of,
}

abbrev pub Out {ℓ} : Type ℓ → Type ℓ
Out A = Result A × World × List Fault

abbrev pub M {ℓ} : Type ℓ → Type ℓ
M A = World → List Fault → Out A

module _ {ℓ} {A : Type ℓ} where
  unfoldable pub pure : A → M A
  pure a w p = (ok a, w, p)

  unfoldable pub raise : Err → M A
  raise e w p = (err e, w, p)

  unfoldable pub gets : (World → A) → M A
  gets f w p = (ok (f w), w, p)

  unfoldable pub or_raise : Option A → Err → M A
  or_raise none e = raise e
  or_raise (some a) e = pure a

  unfoldable pub from_result : Result A → M A
  from_result r w p = (r, w, p)

-- A step that only decides by the world.
unfoldable pub test {ℓ} : {A : Type ℓ} → (World → Result A) → M A
test f w p = (f w, w, p)

module _ {ℓ κ} {A : Type ℓ} {B : Type κ} where
  abbrev pub continue : Result A → (A → M B) → M B
  continue (ok a) f w p = f a w p
  continue (err e) f w p = (err e, w, p)

  infixl 5 ◌>>=◌
  unfoldable pub ◌>>=◌ : M A → (A → M B) → M B
  ◌>>=◌ m f w p = let (r, w', p') = m w p in continue r f w' p'

infixl 5 ◌>>◌
abbrev pub ◌>>◌ {ℓ} : {B : Type ℓ} → M (Unit {0}) → M B → M B
m >> k = m >>= λ _. k

abbrev pub done_ok : M (Unit {0})
done_ok = pure tt

unfoldable pub raise_if : Bool → Err → M (Unit {0})
raise_if true e = raise e
raise_if false e = done_ok

unfoldable pub modify : (World → World) → M (Unit {0})
modify f w p = (ok tt, f w, p)

unfoldable pub on_disk : (Disk → Disk) → M (Unit {0})
on_disk f w p = (ok tt, record w { disk = f w.disk }, p)

-- `_ = f()`
unfoldable pub ignore {ℓ} : {A : Type ℓ} → M A → M (Unit {0})
ignore m w p = let (r, w', p') = m w p in (ok tt, w', p')

abbrev pub after_error {ℓ} : {A : Type ℓ} → Result A → M (Unit {0}) → M A
after_error (ok a) cleanup w p = (ok a, w, p)
after_error (err e) cleanup w p = let (_, w', p') = cleanup w p in (err e, w', p')

-- A deferred clean-up that runs where the rest of the function fails.
unfoldable pub on_error {ℓ} : {A : Type ℓ} → M A → M (Unit {0}) → M A
on_error m cleanup w p = let (r, w', p') = m w p in after_error r cleanup w' p'

-- The result as a value, for code that looks at its error.
unfoldable pub attempt {ℓ} : {A : Type ℓ} → M A → M (Result A)
attempt m w p = let (r, w', p') = m w p in (ok r, w', p')

abbrev pub renamed_err : Err → Err → Err
renamed_err to not_exist = to
renamed_err to e = e

abbrev pub rename_missing {ℓ} : {A : Type ℓ} → Err → Result A → Result A
rename_missing to (ok a) = ok a
rename_missing to (err e) = err (renamed_err to e)

-- `if errors.Is(err, os.ErrNotExist) { return to }`
unfoldable pub if_missing {ℓ} : {A : Type ℓ} → Err → M A → M A
if_missing to m w p = let (r, w', p') = m w p in (rename_missing to r, w', p')

-- One system call that only passes or fails.
unfoldable pub syscall : M (Unit {0})
syscall w [] = (ok tt, w, [])
syscall w (pass ∷ p) = (ok tt, w, p)
syscall w (fail k ∷ p) = (err io_error, w, p)

unfoldable pub check : Ctx → M (Unit {0})
check live = done_ok
check done = raise cancelled

abbrev pub contents : Found → Result Content
contents missing = err not_exist
contents blocked = err io_error
contents (found c) = ok c

-- `os.ReadFile`, and `os.Open` of a file that is read
unfoldable pub read_file : FilePath → M Content
read_file path = do syscall; test (λ w. contents (find path w.disk))

-- `pathExists`: a call that fails finds nothing.
unfoldable pub path_exists : Area → Name → M Bool
path_exists a n w [] = (ok (is_some (lookup n (dir a w.disk))), w, [])
path_exists a n w (pass ∷ p) = (ok (is_some (lookup n (dir a w.disk))), w, p)
path_exists a n w (fail k ∷ p) = (ok false, w, p)

unfoldable pub read_dir : Area → M (Dict Name Item)
read_dir a = do syscall; gets (λ w. dir a w.disk)

abbrev pub created : Found → Bool → Result (Unit {0})
created missing true = ok tt
created missing false = err not_exist
created blocked b = err io_error
created (found c) b = err io_error

-- `os.OpenFile` with `O_CREATE|O_EXCL`
unfoldable pub create_excl : FilePath → M (Unit {0})
create_excl path = do
  syscall
  test (λ w. created (find path w.disk) (has_parent path w.disk))
  on_disk (put_file path (raw []))

-- Writes a file that was just created.
unfoldable pub write_file : Env → FilePath → Content → M (Unit {0})
write_file env path c w [] = (ok tt, record w { disk = put_file path c w.disk }, [])
write_file env path c w (pass ∷ p) = (ok tt, record w { disk = put_file path c w.disk }, p)
write_file env path c w (fail k ∷ p) =
    (err io_error, record w { disk = put_file path (raw (take k (bytes_of env c))) w.disk }, p)

-- Replaces the bytes of a file that is there.
abbrev pub rewritten : Env → (List ℕ → List ℕ) → FilePath → Found → Disk → Disk
rewritten env f path missing d = d
rewritten env f path blocked d = d
rewritten env f path (found c) d = put_file path (raw (f (bytes_of env c))) d

abbrev pub appended : Env → FilePath → List ℕ → Disk → Disk
appended env path bs d = rewritten env (λ old. old ++ bs) path (find path d) d

-- Writes at the end of an open file.
unfoldable pub append_file : Env → FilePath → List ℕ → M (Unit {0})
append_file env path bs w [] = (ok tt, record w { disk = appended env path bs w.disk }, [])
append_file env path bs w (pass ∷ p) = (ok tt, record w { disk = appended env path bs w.disk }, p)
append_file env path bs w (fail k ∷ p) =
    (err io_error, record w { disk = appended env path (take k bs) w.disk }, p)

unfoldable pub raise_failure : Option Err → M (Unit {0})
raise_failure none = done_ok
raise_failure (some e) = raise e

-- `io.Copy` from a reader to the end of a file: the bytes that it delivered.
unfoldable pub copy_to : Env → FilePath → Reader → M (List ℕ)
copy_to env path r = do append_file env path r.bytes; raise_failure r.failure; pure r.bytes

abbrev pub truncated : Env → FilePath → ℕ → Disk → Disk
truncated env path n d = rewritten env (take n) path (find path d) d

-- `file.Truncate` to a length that the file has reached
unfoldable pub truncate : Env → FilePath → ℕ → M (Unit {0})
truncate env path n = do syscall; on_disk (truncated env path n)

abbrev pub can_replace : Found → Bool → Result (Unit {0})
can_replace blocked b = err io_error
can_replace missing true = ok tt
can_replace missing false = err not_exist
can_replace (found c) b = ok tt

-- `os.Rename` of a file, in place of a file that may stand at the target
unfoldable pub rename : FilePath → FilePath → M (Unit {0})
rename from to = do
  c ← read_file from
  test (λ w. can_replace (find to w.disk) (has_parent to w.disk))
  on_disk (λ d. put_file to c (drop_file from d))

-- `os.Remove` of a file
unfoldable pub remove : FilePath → M (Unit {0})
remove path = do _ ← read_file path; on_disk (drop_file path)

abbrev pub removable : Option Item → Result (Unit {0})
removable none = err not_exist
removable (some (plain_file c)) = ok tt
removable (some (folder [])) = ok tt
removable (some (folder (e ∷ m))) = err io_error

-- `os.Remove` of a directory, which must be empty
unfoldable pub remove_folder : Area → Name → M (Unit {0})
remove_folder a n = do
  syscall
  test (λ w. removable (lookup n (dir a w.disk)))
  on_disk (λ d. set_dir a (erase n (dir a d)) d)

unfoldable pub remove_all : Area → Name → M (Unit {0})
remove_all a n = do syscall; on_disk (λ d. set_dir a (erase n (dir a d)) d)

abbrev pub vacant : Option Item → Result (Unit {0})
vacant none = ok tt
vacant (some i) = err io_error

unfoldable pub mkdir : Area → Name → M (Unit {0})
mkdir a n = do
  syscall
  test (λ w. vacant (lookup n (dir a w.disk)))
  on_disk (λ d. set_dir a (insert n (folder []) (dir a d)) d)

-- `syncDirectory`
abbrev pub sync_directory : M (Unit {0})
sync_directory = syscall

-- `info.Size()`
unfoldable pub stat_size : Env → FilePath → M Int64
stat_size env path = do c ← read_file path; pure (int64 (length (bytes_of env c)))

unfoldable pub now : Env → M ℕ
now env w p = (ok (env.clock w.ticks), record w { ticks = w.ticks + 1 }, p)

unfoldable pub draw_id : Env → M String
draw_id env w p = (ok (env.new_id w.drawn), record w { drawn = w.drawn + 1 }, p)

-- `writeManifest` and `writeUploadManifest`: through a temporary file, which goes if a step fails.
unfoldable pub write_manifest : Env → FilePath → Content → M (Unit {0})
write_manifest env path c = do
  create_excl (tmp_path path)
  on_error (do write_file env (tmp_path path) c; syscall; syscall; rename (tmp_path path) path)
      (ignore (remove (tmp_path path)))

-- What a proof opens to run an operation step by step.
unfoldable pub steps : Unit {0}
unfolding pure raise gets or_raise from_result test ◌>>=◌ raise_if modify on_disk ignore on_error
    attempt if_missing syscall check read_file path_exists read_dir create_excl write_file
    append_file raise_failure copy_to truncate rename remove remove_folder remove_all mkdir
    stat_size now draw_id write_manifest
steps = tt

-- The same, with the writing of manifests left shut.
unfoldable pub block_steps : Unit {0}
unfolding pure raise gets or_raise from_result test ◌>>=◌ raise_if modify on_disk ignore attempt
    if_missing syscall check read_file path_exists read_dir create_excl write_file append_file
    raise_failure copy_to truncate rename remove remove_folder remove_all mkdir stat_size now
    draw_id
block_steps = tt
