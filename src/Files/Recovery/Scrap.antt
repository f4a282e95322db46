-- ===== src/Files/Recovery/Scrap.antt =====
-- The system calls of a recovery leave the objects, the recycle bin and the committed manifests alone.
use astra_store_xion.Base.{◌≡◌, refl, ◌∙◌, String, Option, none, some, List, [], ◌∷◌}
use astra_store_xion.Base.Dict.{lookup, lookup-erase}
use astra_store_xion.Files.Disk.{
  group_dir, group_file, GroupEntry, Name, plain, json, json_tmp, part, name_key, Content, Item,
  plain_file, folder, Disk, objects, metadata, tmp, uploads, trash, FilePath, at, under, drop_file,
}
use astra_store_xion.Files.World.{Result, ok, err, Env, Fault, pass, fail, World}
use astra_store_xion.Files.Io.{syscall, modify, on_disk, now}
use astra_store_xion.Files.Io.Relates.{IsOrder, Relates, Relates-bind, Relates-syscall}
use astra_store_xion.Files.Recovery.{
  write_child, make_group, target_exists, create_child, make_target, changed, change, put_target,
}

-- The objects, the recycle bin and the committed manifests are the same.
pub record Kept (v w : World) : Type 0 where
  pub objects_kept : w.disk.objects ≡ v.disk.objects
  pub trash_kept : w.disk.trash ≡ v.disk.trash
  pub manifests_kept :
      (id : String) → lookup (json id) w.disk.metadata ≡ lookup (json id) v.disk.metadata

pub Kept-order : IsOrder Kept
Kept-order = record {
  same = λ w. record { objects_kept = refl; trash_kept = refl; manifests_kept = λ id. refl };
  trans = λ h k. record {
    objects_kept = k.objects_kept ∙ h.objects_kept;
    trash_kept = k.trash_kept ∙ h.trash_kept;
    manifests_kept = λ id. k.manifests_kept id ∙ h.manifests_kept id;
  };
}

-- A step on the disk that keeps them.
abbrev pub KeepsDisk : Disk → Disk → Type 0
KeepsDisk d e =
    (e.objects ≡ d.objects)
    × (e.trash ≡ d.trash)
    × ((id : String) → lookup (json id) e.metadata ≡ lookup (json id) d.metadata)

pub Kept-disk : (w : World) (d : Disk) → KeepsDisk w.disk d → Kept w (record w { disk = d })
Kept-disk w d h = record { objects_kept = h.0; trash_kept = h.1; manifests_kept = h.2 }

abbrev pub KeepsResult : Disk → Result Disk → Type 0
KeepsResult d (ok e) = KeepsDisk d e
KeepsResult d (err e) = Unit

changed-Kept :
    (r : Result Disk) (w : World) (p : List Fault) → KeepsResult w.disk r → Kept w (changed r w p).1
changed-Kept (ok d) w p h = Kept-disk w d h
changed-Kept (err e) w p h = Kept-order.same w

pub change-Relates :
    (f : Disk → Result Disk) → ((d : Disk) → KeepsResult d (f d)) → Relates Kept (change f)
unfolding change
change-Relates f h =
    Relates-bind Kept-order syscall _ (Relates-syscall Kept-order)
      (λ u. record { at = λ w p. changed-Kept (f w.disk) w p (h w.disk) })

-- Paths that recovery may take away.
abbrev pub IsScrap : FilePath → Type 0
IsScrap (at objects n) = ⊥
IsScrap (at trash n) = ⊥
IsScrap (at tmp n) = Unit
IsScrap (at uploads n) = Unit
IsScrap (at metadata (json s)) = ⊥
IsScrap (at metadata (plain s)) = Unit
IsScrap (at metadata (json_tmp s)) = Unit
IsScrap (at metadata (part s)) = Unit
IsScrap (under uploads n m) = Unit
IsScrap (under _ n m) = ⊥

pub drop_scrap : (path : FilePath) (d : Disk) → IsScrap path → KeepsDisk d (drop_file path d)
drop_scrap (at tmp n) d s = (refl, refl, λ id. refl)
drop_scrap (at uploads n) d s = (refl, refl, λ id. refl)
drop_scrap (at metadata (plain t)) d s =
    (refl, refl, λ id. lookup-erase (plain t) (json id) d.metadata)
drop_scrap (at metadata (json_tmp t)) d s =
    (refl, refl, λ id. lookup-erase (json_tmp t) (json id) d.metadata)
drop_scrap (at metadata (part t)) d s =
    (refl, refl, λ id. lookup-erase (part t) (json id) d.metadata)
drop_scrap (under uploads n m) d s = (refl, refl, λ id. refl)
drop_scrap (at objects n) d s = elim s [ ]
drop_scrap (at metadata (json t)) d s = elim s [ ]
drop_scrap (at trash n) d s = elim s [ ]
drop_scrap (under objects n m) d s = elim s [ ]
drop_scrap (under metadata n m) d s = elim s [ ]
drop_scrap (under tmp n m) d s = elim s [ ]
drop_scrap (under trash n m) d s = elim s [ ]

pub make_group-Keeps :
    (o : Option GroupEntry) (g : String) (d : Disk) → KeepsResult d (make_group o g d)
make_group-Keeps none g d = (refl, refl, λ id. refl)
make_group-Keeps (some (group_dir m)) g d = (refl, refl, λ id. refl)
make_group-Keeps (some (group_file c)) g d = tt

pub make_target-Keeps :
    (o : Option Item) (g : String) (target : Name) (d : Disk)
    → KeepsResult d (make_target o g target d)
make_target-Keeps none g target d = (refl, refl, λ id. refl)
make_target-Keeps (some (folder m)) g target d = (refl, refl, λ id. refl)
make_target-Keeps (some (plain_file c)) g target d = tt

pub create_child-Keeps :
    (r : Result (Unit {0})) (g : String) (target n : Name) (d : Disk)
    → KeepsResult d (create_child r g target n d)
create_child-Keeps (ok u) g target n d = (refl, refl, λ id. refl)
create_child-Keeps (err e) g target n d = tt

-- A file that goes, and comes back in the quarantine.
pub put_target-Keeps :
    (o : Option Item) (i : Item) (g : String) (target : Name) (path : FilePath) (d : Disk)
    → IsScrap path
    → KeepsResult d (put_target o i g target (drop_file path d))
put_target-Keeps none i g target path d s = drop_scrap path d s
put_target-Keeps (some (plain_file c)) i g target path d s = drop_scrap path d s
put_target-Keeps (some (folder m)) i g target path d s = tt

pub modify-Relates : (f : World → World) → ((w : World) → Kept w (f w)) → Relates Kept (modify f)
unfolding modify
modify-Relates f h = record { at = λ w p. h w }

pub on_disk-Relates :
    (f : Disk → Disk) → ((d : Disk) → KeepsDisk d (f d)) → Relates Kept (on_disk f)
unfolding on_disk
on_disk-Relates f h = record { at = λ w p. Kept-disk w (f w.disk) (h w.disk) }

pub now-Relates : (env : Env) → Relates Kept (now env)
unfolding now
now-Relates env = record {
  at = λ w p. record { objects_kept = refl; trash_kept = refl; manifests_kept = λ id. refl };
}

pub target_exists-Relates : (g : String) (n : Name) → Relates Kept (target_exists g n)
unfolding target_exists
target_exists-Relates g n = record { at = go }
  where
    go : (w : World) (p : List Fault) → Kept w (target_exists g n w p).1
    go w [] = Kept-order.same w
    go w (pass ∷ p) = Kept-order.same w
    go w (fail k ∷ p) = Kept-order.same w

pub write_child-Relates :
    (env : Env) (g : String) (target n : Name) (c : Content)
    → Relates Kept (write_child env g target n c)
unfolding write_child
write_child-Relates env g target n c = record { at = go }
  where
    go : (w : World) (p : List Fault) → Kept w (write_child env g target n c w p).1
    go w [] = Kept-disk w _ (refl, refl, λ id. refl)
    go w (pass ∷ p) = Kept-disk w _ (refl, refl, λ id. refl)
    go w (fail k ∷ p) = Kept-disk w _ (refl, refl, λ id. refl)
