-- ===== src/Files/Read/Relates.antt =====
-- The readers of manifests keep every relation between worlds that is reflexive and transitive.
use astra_store_xion.Base.{String}
use astra_store_xion.Files.Model.{UploadSession}
use astra_store_xion.Files.World.{World, Env}
use astra_store_xion.Files.Io.Relates.{IsOrder, Relates, relates_rules}
use astra_store_xion.Files.Read.{get_unlocked, get_trash_unlocked, get_upload_unlocked, check_part}

module _ {R : World → World → Type 0} (order : IsOrder R) (env : Env) where
  pub get_unlocked-Relates : (id : String) → Relates R (get_unlocked env id)
  unfolding get_unlocked
  get_unlocked-Relates id = search (relates_rules, order) depth 14

  pub get_trash_unlocked-Relates : (id : String) → Relates R (get_trash_unlocked env id)
  unfolding get_trash_unlocked
  get_trash_unlocked-Relates id = search (relates_rules, order) depth 14

  check_part-Relates : (id : String) (s : UploadSession) → Relates R (check_part env id s)
  unfolding check_part
  check_part-Relates id s = search (relates_rules, order) depth 14

  pub get_upload_unlocked-Relates : (id : String) → Relates R (get_upload_unlocked env id)
  unfolding get_upload_unlocked
  get_upload_unlocked-Relates id = search (relates_rules, order, check_part-Relates) depth 14
