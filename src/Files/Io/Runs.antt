-- ===== src/Files/Io/Runs.antt =====
-- How the operations run when no system call fails.
use astra_store_xion.Base.{◌≡◌, refl, none, some, List, [], ◌∷◌}
use astra_store_xion.Base.Dict.{
  Dict, lookup, insert, lookup-insert, lookup-insert_self, insert-insert, erase-insert,
  erase-insert-insert,
}
use astra_store_xion.Files.Disk.{
  Name, json, json_tmp, name_key, Content, raw, Item, plain_file, folder, Disk, Area, metadata, tmp,
  objects, uploads, trash, dir, set_dir, at, under,
}
use astra_store_xion.Files.Model.{Err}
use astra_store_xion.Files.World.{Result, ok, err, Env, Fault, pass, World}
use astra_store_xion.Files.Io.{M, Out, on_error, ◌>>=◌, steps, write_manifest}

abbrev pub with_disk : World → Disk → World
with_disk w d = record w { disk = d }

module _ {A B : Type 0} where
  -- One step of a block.
  pub bind_runs :
      (m : M A) (f : A → M B) {w w' : World} {p p' : List Fault} {a : A} {o : Out B}
      → m w p ≡ (ok a, w', p')
      → f a w' p' ≡ o
      → (m >>= f) w p ≡ o
  unfolding ◌>>=◌
  bind_runs m f e h = rw (e, ◌>>=◌) h

  pub bind_stops :
      (m : M A) (f : A → M B) {w w' : World} {p p' : List Fault} {e : Err}
      → m w p ≡ (err e, w', p')
      → (m >>= f) w p ≡ (err e, w', p')
  unfolding ◌>>=◌
  bind_stops m f h = rw (h, ◌>>=◌)

pub on_error_runs :
    {A : Type 0} (m : M A) (c : M (Unit {0})) {w w' : World} {p p' : List Fault} {a : A}
    → m w p ≡ (ok a, w', p')
    → on_error m c w p ≡ (ok a, w', p')
unfolding on_error
on_error_runs m c e = rw (e, on_error)

-- A manifest among the entries of `metadata` is written in one piece.
pub write_manifest-at :
    (env : Env) (id : _) (c : Content) (w : World)
    → lookup (json_tmp id) w.disk.metadata ≡ none
    → lookup (json id) w.disk.metadata ≡ none
    → write_manifest env (at metadata (json id)) c w [] ≡ (
      ok tt,
      with_disk w (record w.disk { metadata = insert (json id) (plain_file c) w.disk.metadata }),
      [],
    )
unfolding steps
write_manifest-at env id c w fresh free =
    simp (fresh, lookup-insert_self, lookup-insert, free)
      (rw (
        erase-insert-insert (json_tmp id) (plain_file c) (plain_file (raw [])) w.disk.metadata
          fresh))

pub dir-set_dir : (a : Area) (x : Dict Name Item) (d : Disk) → dir a (set_dir a x d) ≡ x
dir-set_dir objects x d = refl
dir-set_dir metadata x d = refl
dir-set_dir tmp x d = refl
dir-set_dir uploads x d = refl
dir-set_dir trash x d = refl

pub set_dir-set_dir :
    (a : Area) (x y : Dict Name Item) (d : Disk) → set_dir a x (set_dir a y d) ≡ set_dir a x d
set_dir-set_dir objects x y d = refl
set_dir-set_dir metadata x y d = refl
set_dir-set_dir tmp x y d = refl
set_dir-set_dir uploads x y d = refl
set_dir-set_dir trash x y d = refl

-- A manifest in the directory of a session or of a trash entry takes the place of an older one.
pub write_manifest-under :
    (env : Env) (a : Area) (n : Name) (files : Dict Name Content) (old c : Content) (w : World)
    → lookup n (dir a w.disk) ≡ some (folder files)
    → lookup (json_tmp "manifest") files ≡ none
    → lookup (json "manifest") files ≡ some old
    → write_manifest env (under a n (json "manifest")) c w [] ≡ (
      ok tt,
      with_disk w
          (set_dir a (insert n (folder (insert (json "manifest") c files)) (dir a w.disk)) w.disk),
      [],
    )
unfolding steps
write_manifest-under env a n files old c w entry fresh there = simp (
  entry,
  fresh,
  there,
  dir-set_dir,
  set_dir-set_dir,
  lookup-insert_self,
  lookup-insert,
  insert-insert,
  erase-insert (json_tmp "manifest") c files fresh,
)

-- The first manifest of a session.
pub write_manifest-first :
    (env : Env) (a : Area) (n : Name) (files : Dict Name Content) (c : Content) (w : World)
    → lookup n (dir a w.disk) ≡ some (folder files)
    → lookup (json_tmp "manifest") files ≡ none
    → lookup (json "manifest") files ≡ none
    → write_manifest env (under a n (json "manifest")) c w [] ≡ (
      ok tt,
      with_disk w
          (set_dir a (insert n (folder (insert (json "manifest") c files)) (dir a w.disk)) w.disk),
      [],
    )
unfolding steps
write_manifest-first env a n files c w entry fresh absent = simp (
  entry,
  fresh,
  absent,
  dir-set_dir,
  set_dir-set_dir,
  lookup-insert_self,
  lookup-insert,
  insert-insert,
  erase-insert (json_tmp "manifest") c files fresh,
)

-- The same as `write_manifest-under`, under a plan whose next five calls pass.
pub write_manifest-passes :
    (env : Env) (a : Area) (n : Name) (files : Dict Name Content) (old c : Content) (w : World)
    (p : List Fault)
    → lookup n (dir a w.disk) ≡ some (folder files)
    → lookup (json_tmp "manifest") files ≡ none
    → lookup (json "manifest") files ≡ some old
    → write_manifest env (under a n (json "manifest")) c w (pass ∷ pass ∷ pass ∷ pass ∷ pass ∷ p)
      ≡ (
        ok tt,
        with_disk w (
            set_dir a (insert n (folder (insert (json "manifest") c files)) (dir a w.disk)) w.disk),
        p,
      )
unfolding steps
write_manifest-passes env a n files old c w p entry fresh there = simp (
  entry,
  fresh,
  there,
  dir-set_dir,
  set_dir-set_dir,
  lookup-insert_self,
  lookup-insert,
  insert-insert,
  erase-insert (json_tmp "manifest") c files fresh,
)

pub on_error_fails :
    {A : Type 0} (m : M A) (c : M (Unit {0})) {w w' w'' : World} {p p' p'' : List Fault} {e : Err}
    {r : Result (Unit {0})}
    → m w p ≡ (err e, w', p')
    → c w' p' ≡ (r, w'', p'')
    → on_error m c w p ≡ (err e, w'', p'')
unfolding on_error
on_error_fails m c e h = rw (e, on_error, h)
