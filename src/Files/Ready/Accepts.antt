-- ===== src/Files/Ready/Accepts.antt =====
-- `Ready` against the description of a consistent data directory.
use astra_store_xion.Files.Ready.Entries.{
  ready_manifests-Decides, ready_objects-Decides, ready_groups-Decides,
}
use astra_store_xion.Files.Ready.Sessions.{ready_uploads-Decides, ready_trash-Decides}
use astra_store_xion.Base.Dict.{lookup-insert_self, erase-insert}
use astra_store_xion.Files.Ready.{probe, ready_quarantine_unlocked}
use astra_store_xion.Files.Ready.Consistent.{ids_of, all_groups, is_consistent}
use astra_store_xion.Files.Ready.Described.{IsConsistent}
use astra_store_xion.Files.Ready.Exact.{is_consistent_iff}
use astra_store_xion.Files.Disk.{raw, dir, tmp, metadata}
use Prim.Native.String
use astra_store_xion.Base.{◌≡◌, ◌↔◌, ◌∙◌, sym, true, refl, String, Bool, not, none, [], ◌∷◌}
use astra_store_xion.Base.Dict.{Dict, lookup}
use astra_store_xion.Files.Model.{corrupt_metadata}
use astra_store_xion.Files.Disk.{
  dir, Name, plain, name_key, Item, plain_file, Area, objects, uploads, trash,
}
use astra_store_xion.Files.World.{ok, Env, World, live}
use astra_store_xion.Files.Io.{
  gets, check, syscall, read_dir, pure, raise, raise_if, ◌>>=◌, steps, M,
}
use astra_store_xion.Files.Io.Decides.{Decides-then, Decides, is_ok, Decides-bind, Decides-is_ok}
use astra_store_xion.Files.Ready.{no_entries, ready}

module _ (env : Env) (w : World) where
  probe-run :
      (random : String)
      → lookup (plain (String.◌++◌ ".ready-" random)) w.disk.tmp ≡ none
      → probe random w [] ≡ (ok tt, w, [])
  unfolding probe steps
  probe-run random free =
      simp (free, lookup-insert_self)
        (rw
          (erase-insert (plain (String.◌++◌ ".ready-" random)) (plain_file (raw [])) w.disk.tmp
            free)
          refl)

  read_dir-run : (a : Area) → read_dir a w [] ≡ (ok (dir a w.disk), w, [])
  unfolding read_dir steps
  read_dir-run a = refl

  groups-Decides : Decides ready_quarantine_unlocked w (all_groups w.disk.quarantine) (λ u. Unit)
  unfolding ready_quarantine_unlocked syscall gets ◌>>=◌
  groups-Decides = ready_groups-Decides env w w.disk.quarantine

  -- The step from one directory to the next.
  dir_then :
      {B : Type 0} (a : Area) (f : Dict Name Item → M B) (c : Bool) (Q : B → Type 0)
      → Decides (f (dir a w.disk)) w c Q
      → Decides (read_dir a >>= f) w c Q
  dir_then a f c Q h =
      Decides-then (read_dir a) f w (λ u. Unit) Q (dir a w.disk) c (read_dir-run a) h

  tmp-Decides :
      (entries : Dict Name Item)
      → Decides
          (raise_if (not (no_entries entries)) corrupt_metadata)
          w
          (no_entries entries)
          (λ u. Unit)
  unfolding raise_if raise pure
  tmp-Decides [] = (tt, refl, tt)
  tmp-Decides (e ∷ rest) = (corrupt_metadata, refl)

  ready-Decides :
      (random : String)
      → lookup (plain (String.◌++◌ ".ready-" random)) w.disk.tmp ≡ none
      → Decides (ready env live random) w (is_consistent env w.disk) (λ u. Unit)
  unfolding ready is_consistent check pure
  ready-Decides random free =
      Decides-then _ _ w (λ u. Unit) (λ u. Unit) tt _ refl
        (Decides-then _ _ w (λ u. Unit) (λ u. Unit) tt _ (probe-run random free)
          (dir_then metadata _ _ _ (
            Decides-bind _ _ w _ _ _ _ (ready_manifests-Decides env w w.disk.metadata) (λ ids e.
              rw e (
                dir_then objects _ _ _ (
                  Decides-bind _ _ w (λ u. Unit) _ _ _
                    (ready_objects-Decides env w (ids_of w.disk.metadata) w.disk.objects)
                    (λ u x. dir_then uploads _ _ _ (
                      Decides-bind _ _ w (λ u. Unit) _ _ _
                        (ready_uploads-Decides env w w.disk.uploads)
                        (λ u x. dir_then trash _ _ _ (
                          Decides-bind _ _ w (λ u. Unit) _ _ _
                            (ready_trash-Decides env w w.disk.trash)
                            (λ u x.
                              Decides-bind _ _ w (λ u. Unit) _ _ _ groups-Decides
                                (λ u x. dir_then tmp _ _ _ (tmp-Decides w.disk.tmp)))))))))))))

  -- Without faults `Ready` succeeds exactly on a consistent data directory, and leaves the store as
  -- it was in any case, as long as the name of its probe is free. In such a directory each manifest
  -- is the record of an available file of its id, with a size, a checksum and an object; all ids
  -- are lower-case UUIDs; each object
  -- has a manifest; each upload session holds a manifest and perhaps a part file, and nothing else:
  -- an open one a part file of the length received, a complete one none and the id of a file; each
  -- entry of the recycle bin holds an object of the length that its record says, with a time of
  -- deletion, and nothing else; `quarantine` has only its three groups and `tmp` has nothing.
  pub ready_accepts :
      (random : String)
      → lookup (plain (String.◌++◌ ".ready-" random)) w.disk.tmp ≡ none
      → ((is_ok (ready env live random w []).0 ≡ true) ↔ IsConsistent env w.disk)
        × ((ready env live random w []).1 ≡ w)
  ready_accepts random free =
      let decided =
        Decides-is_ok (ready env live random) w (is_consistent env w.disk) (λ u. Unit)
          (ready-Decides random free) in
      let exact = is_consistent_iff env w.disk in
      ((λ e. exact.0 (sym decided.0 ∙ e), λ h. decided.0 ∙ exact.1 h), decided.1)
