-- ===== src/Files/Tests/Starts.antt =====
-- The theorems on recovery, readiness and listing at concrete inputs.
use astra_store_xion.Base.{◌≡◌, ◌↔◌, true, refl, [], ◌∷◌}
use astra_store_xion.Base.Dict.{lookup, insert}
use astra_store_xion.Files.Disk.{part, plain_file, raw, name_key}
use astra_store_xion.Files.World.{World, live}
use astra_store_xion.Files.Read.{open_file, get_trash_unlocked}
use astra_store_xion.Files.Tests.{
  env_example, empty_disk, empty_store, file_id, stored_store, file_example, file_id-valid,
}
use astra_store_xion.Files.Io.Decides.{is_ok}
use mathlib.Core.List.{Perm}
use astra_store_xion.Files.Model.{File}
use astra_store_xion.Files.World.{ok}
use astra_store_xion.Files.Text.Ids.{valid_id_iff}
use astra_store_xion.Files.Listing.Whole.{read_pages, IsNewestFirst, read_pages_whole}
use astra_store_xion.Base.{List, arith}
use astra_store_xion.Base.Int64.{is_neg}
use astra_store_xion.Files.Recovery.{recover}
use astra_store_xion.Files.Recovery.Conserves.{recover_conserves}
use astra_store_xion.Files.Ready.{ready}
use astra_store_xion.Files.Ready.Described.{IsConsistent}
use astra_store_xion.Files.Ready.Accepts.{ready_accepts}

-- A start after a crash, with a part file left in `tmp`.
abbrev crashed_store : World
crashed_store = record (empty_store 10) {
  disk = record empty_disk { tmp = (part file_id, plain_file (raw (1 ∷ []))) ∷ [] };
}

recover_conserves_example :
    ((open_file env_example live file_id (recover env_example live crashed_store []).1 []).0
      ≡ (open_file env_example live file_id crashed_store []).0)
    × ((get_trash_unlocked env_example file_id (recover env_example live crashed_store []).1 []).0
        ≡ (get_trash_unlocked env_example file_id crashed_store []).0)
recover_conserves_example = recover_conserves env_example live live file_id crashed_store []

ready_accepts_example :
    ((is_ok (ready env_example live "1" stored_store []).0 ≡ true)
      ↔ IsConsistent env_example stored_store.disk)
    × ((ready env_example live "1" stored_store []).1 ≡ stored_store)
unfolding lookup
ready_accepts_example = ready_accepts env_example stored_store "1" refl

-- Two pages of one file each, of a store with one file.
read_pages_whole_example :
    (whole : List File) × (read_pages env_example 2 1 0 stored_store []
      ≡ (ok whole, stored_store, []))
    × Perm whole (file_example ∷ [])
    × IsNewestFirst whole
unfolding lookup is_neg insert
read_pages_whole_example =
    read_pages_whole env_example stored_store (file_example ∷ [])
      ((refl, refl, refl, (valid_id_iff file_id).0 file_id-valid, (refl, refl, refl, λ e. cc)), tt)
      2 1 (omega arith) (omega arith) (omega arith) (omega arith)
