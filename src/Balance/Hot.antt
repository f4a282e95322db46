-- ===== src/Balance/Hot.antt =====
-- The files that are read most: `TrackFileAccess` and `GetHotFiles` of
-- pkg/balance/consistent_hash.go. Times are kept in seconds.
pub mod Top
use astra_store_xion.Base.{
  ℕ, String, Bool, Option, none, some, List, [], ◌∷◌, leb, length, take, string_key, if◌then◌else◌,
}
use astra_store_xion.Base.Dict.{Dict, lookup, insert}
use astra_store_xion.Base.Int64.{Int64, add64, lt64, le64}
use astra_store_xion.Base.Sort.{sort_by}
use astra_store_xion.Balance.Model.{HotFile, FileAccess, Balancer}

abbrev pub accesses_of : Option FileAccess → Int64
accesses_of none = 0
accesses_of (some info) = info.accesses

unfoldable pub track_file_access : {F : Type 0} → ℕ → String → Balancer F → Balancer F
track_file_access now file_id b = record b {
  file_access =
      insert file_id
        (record {
          accesses = add64 (accesses_of (lookup file_id b.file_access)) 1;
          accessed_at = now;
        })
        b.file_access;
}

unfoldable pub hot_files : Int64 → Dict String FileAccess → List HotFile
hot_files threshold [] = []
hot_files threshold ((id, info) ∷ m) =
    let rest = hot_files threshold m in
    let file : HotFile = record {
      file_id = id;
      access_count = info.accesses;
      last_access = info.accessed_at;
    } in
    if le64 threshold info.accesses then file ∷ rest else rest

-- Descending; ties come in an order that `sort.Slice` leaves open.
unfoldable pub hotter : HotFile → HotFile → Bool
hotter f g = lt64 g.access_count f.access_count

unfoldable pub hot_limit : Int64 → ℕ
hot_limit limit = if le64 limit 0 then 10 else limit

unfoldable pub get_hot_files : {F : Type 0} → Int64 → Balancer F → List HotFile
get_hot_files limit b =
    let sorted = sort_by hotter (hot_files b.config.hot_file_threshold b.file_access) in
    if leb (length sorted) (hot_limit limit) then sorted else take (hot_limit limit) sorted
