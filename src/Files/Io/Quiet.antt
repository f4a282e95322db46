-- ===== src/Files/Io/Quiet.antt =====
-- Operations that leave the accounts alone: the usage index, the quota and the state of the loading
-- are after the operation what they were before, whatever fails.
use astra_store_xion.Base.{
  ℕ, ◌≡◌, refl, Bool, true, false, Option, none, some, List, [], ◌∷◌, if◌then◌else◌,
}
use astra_store_xion.Files.Model.{Err, Reader}
use astra_store_xion.Files.Disk.{Name, Content, Disk, Area, FilePath}
use astra_store_xion.Files.World.{Result, ok, err, Env, Fault, pass, fail, World, Ctx, live, done}
use astra_store_xion.Files.Io.{
  M, pure, raise, gets, or_raise, test, continue, ◌>>=◌, raise_if, on_disk, ignore, after_error,
  on_error, if_missing, syscall, check, read_file, path_exists, read_dir, create_excl, write_file,
  append_file, raise_failure, copy_to, rename, remove, now, draw_id, write_manifest,
}

-- The two worlds have the same accounts.
pub record Same (v w : World) : Type 0 where
  pub usage : w.usage ≡ v.usage
  pub usage_valid : w.usage_valid ≡ v.usage_valid
  pub load : w.load ≡ v.load
  pub owner_quota : w.owner_quota_bytes ≡ v.owner_quota_bytes

pub Same-refl : (w : World) → Same w w
Same-refl w = record { usage = refl; usage_valid = refl; load = refl; owner_quota = refl }

pub Same-disk : (w : World) (d : Disk) → Same w (record w { disk = d })
Same-disk w d = record { usage = refl; usage_valid = refl; load = refl; owner_quota = refl }

pub Same-trans : {u v w : World} → Same u v → Same v w → Same u w
Same-trans a b = record {
  usage = cc (a.usage, b.usage);
  usage_valid = cc (a.usage_valid, b.usage_valid);
  load = cc (a.load, b.load);
  owner_quota = cc (a.owner_quota, b.owner_quota);
}

pub record Quiet {A : Type 0} (m : M A) : Type 0 where
  pub at : (w : World) (p : List Fault) → Same w (m w p).1

module _ {A : Type 0} where
  pub Quiet-pure : (a : A) → Quiet (pure a)
  unfolding pure
  Quiet-pure a = record { at = λ w p. Same-refl w }

  pub Quiet-raise : (e : Err) → Quiet (raise {A = A} e)
  unfolding raise
  Quiet-raise e = record { at = λ w p. Same-refl w }

  pub Quiet-gets : (f : World → A) → Quiet (gets f)
  unfolding gets
  Quiet-gets f = record { at = λ w p. Same-refl w }

  pub Quiet-or_raise : (o : Option A) (e : Err) → Quiet (or_raise o e)
  unfolding or_raise pure raise
  Quiet-or_raise none e = record { at = λ w p. Same-refl w }
  Quiet-or_raise (some a) e = record { at = λ w p. Same-refl w }

  pub Quiet-if : (b : Bool) (m n : M A) → Quiet m → Quiet n → Quiet (if b then m else n)
  Quiet-if true m n h k = h
  Quiet-if false m n h k = k

  pub Quiet-ignore : (m : M A) → Quiet m → Quiet (ignore m)
  unfolding ignore
  Quiet-ignore m h = record { at = λ w p. h.at w p }

  after_error-Same :
      (r : Result A) (c : M (Unit {0})) (w : World) (p : List Fault)
      → Quiet c
      → Same w (after_error r c w p).1
  after_error-Same (ok a) c w p h = Same-refl w
  after_error-Same (err e) c w p h = h.at w p

  pub Quiet-on_error : (m : M A) (c : M (Unit {0})) → Quiet m → Quiet c → Quiet (on_error m c)
  unfolding on_error
  Quiet-on_error m c h k = record {
    at = λ w p. let (r, w', p') = m w p in Same-trans (h.at w p) (after_error-Same r c w' p' k);
  }

  pub Quiet-if_missing : (e : Err) (m : M A) → Quiet m → Quiet (if_missing e m)
  unfolding if_missing
  Quiet-if_missing e m h = record { at = λ w p. h.at w p }

module _ {A B : Type 0} where
  continue-Same :
      (r : Result A) (f : A → M B) (w : World) (p : List Fault)
      → ((a : A) → Quiet (f a))
      → Same w (continue r f w p).1
  continue-Same (ok a) f w p h = (h a).at w p
  continue-Same (err e) f w p h = Same-refl w

  pub Quiet-bind : (m : M A) (f : A → M B) → Quiet m → ((a : A) → Quiet (f a)) → Quiet (m >>= f)
  unfolding ◌>>=◌
  Quiet-bind m f h k = record {
    at = λ w p. let (r, w', p') = m w p in Same-trans (h.at w p) (continue-Same r f w' p' k);
  }

pub Quiet-raise_if : (b : Bool) (e : Err) → Quiet (raise_if b e)
unfolding raise_if
Quiet-raise_if true e = Quiet-raise e
Quiet-raise_if false e = Quiet-pure tt

pub Quiet-check : (ctx : Ctx) → Quiet (check ctx)
unfolding check
Quiet-check live = Quiet-pure tt
Quiet-check done = Quiet-raise _

pub Quiet-on_disk : (f : Disk → Disk) → Quiet (on_disk f)
unfolding on_disk
Quiet-on_disk f = record { at = λ w p. Same-disk w (f w.disk) }

syscall-Same : (w : World) (p : List Fault) → Same w (syscall w p).1
unfolding syscall
syscall-Same w [] = Same-refl w
syscall-Same w (pass ∷ p) = Same-refl w
syscall-Same w (fail k ∷ p) = Same-refl w

pub Quiet-syscall : Quiet syscall
Quiet-syscall = record { at = syscall-Same }

path_exists-Same :
    (a : Area) (n : Name) (w : World) (p : List Fault) → Same w (path_exists a n w p).1
unfolding path_exists
path_exists-Same a n w [] = Same-refl w
path_exists-Same a n w (pass ∷ p) = Same-refl w
path_exists-Same a n w (fail k ∷ p) = Same-refl w

pub Quiet-path_exists : (a : Area) (n : Name) → Quiet (path_exists a n)
Quiet-path_exists a n = record { at = path_exists-Same a n }

module _ {A : Type 0} where
  -- A step that only decides by the world.
  pub Quiet-test : (f : World → Result A) → Quiet (test f)
  unfolding test
  Quiet-test f = record { at = λ w p. Same-refl w }

pub ruleset quiet_rules = (
  Quiet-pure, Quiet-raise, Quiet-gets, Quiet-or_raise, Quiet-if, Quiet-ignore, Quiet-on_error,
  Quiet-if_missing, Quiet-bind, Quiet-raise_if, Quiet-check, Quiet-on_disk, Quiet-syscall,
  Quiet-path_exists, Quiet-test,
)

pub Quiet-read_file : (path : FilePath) → Quiet (read_file path)
unfolding read_file
Quiet-read_file path = Quiet-bind _ _ Quiet-syscall (λ a. Quiet-test _)

pub Quiet-read_dir : (a : Area) → Quiet (read_dir a)
unfolding read_dir
Quiet-read_dir a = search quiet_rules

pub Quiet-create_excl : (path : FilePath) → Quiet (create_excl path)
unfolding create_excl
Quiet-create_excl path =
    Quiet-bind _ _ Quiet-syscall (λ a. Quiet-bind _ _ (Quiet-test _) (λ b. Quiet-on_disk _))

pub Quiet-remove : (path : FilePath) → Quiet (remove path)
unfolding remove
Quiet-remove path = Quiet-bind _ _ (Quiet-read_file path) (λ a. Quiet-on_disk _)

pub Quiet-rename : (from to : FilePath) → Quiet (rename from to)
unfolding rename
Quiet-rename from to =
    Quiet-bind _ _ (Quiet-read_file from)
      (λ a. Quiet-bind _ _ (Quiet-test _) (λ b. Quiet-on_disk _))

pub Quiet-now : (env : Env) → Quiet (now env)
unfolding now
Quiet-now env = record {
  at = λ w p. record { usage = refl; usage_valid = refl; load = refl; owner_quota = refl };
}

pub Quiet-draw_id : (env : Env) → Quiet (draw_id env)
unfolding draw_id
Quiet-draw_id env = record {
  at = λ w p. record { usage = refl; usage_valid = refl; load = refl; owner_quota = refl };
}

write_file-Same :
    (env : Env) (path : FilePath) (c : Content) (w : World) (p : List Fault)
    → Same w (write_file env path c w p).1
unfolding write_file
write_file-Same env path c w [] = Same-disk w _
write_file-Same env path c w (pass ∷ p) = Same-disk w _
write_file-Same env path c w (fail k ∷ p) = Same-disk w _

pub Quiet-write_file : (env : Env) (path : FilePath) (c : Content) → Quiet (write_file env path c)
Quiet-write_file env path c = record { at = write_file-Same env path c }

append_file-Same :
    (env : Env) (path : FilePath) (bs : List ℕ) (w : World) (p : List Fault)
    → Same w (append_file env path bs w p).1
unfolding append_file
append_file-Same env path bs w [] = Same-disk w _
append_file-Same env path bs w (pass ∷ p) = Same-disk w _
append_file-Same env path bs w (fail k ∷ p) = Same-disk w _

pub Quiet-append_file :
    (env : Env) (path : FilePath) (bs : List ℕ) → Quiet (append_file env path bs)
Quiet-append_file env path bs = record { at = append_file-Same env path bs }

raise_failure-Same : (o : Option Err) (w : World) (p : List Fault) → Same w (raise_failure o w p).1
unfolding raise_failure pure raise
raise_failure-Same none w p = Same-refl w
raise_failure-Same (some e) w p = Same-refl w

pub Quiet-copy_to : (env : Env) (path : FilePath) (r : Reader) → Quiet (copy_to env path r)
unfolding copy_to
Quiet-copy_to env path r =
    Quiet-bind _ _ (Quiet-append_file env path r.bytes)
      (λ a. Quiet-bind _ _ (record { at = raise_failure-Same r.failure }) (λ b. Quiet-pure _))

pub Quiet-write_manifest :
    (env : Env) (path : FilePath) (c : Content) → Quiet (write_manifest env path c)
unfolding write_manifest
Quiet-write_manifest env path c = Quiet-bind _ _ (Quiet-create_excl _) λ a.
    Quiet-on_error _ _
      (Quiet-bind _ _ (Quiet-write_file env _ c)
        λ b. Quiet-bind _ _ Quiet-syscall λ d. Quiet-bind _ _ Quiet-syscall λ e. Quiet-rename _ _)
      (Quiet-ignore _ (Quiet-remove _))
