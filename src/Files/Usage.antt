-- ===== src/Files/Usage.antt =====
-- The per-owner usage index of pkg/files/store.go (`usageIndex`, `moveUsage`).
pub mod Laws
use astra_store_xion.Base.{
  ℕ, ◌+◌, ◌-◌, ◌%◌, ◌^◌, String, Bool, true, false, ◌||◌, not, Option, none, some, List, [], ◌∷◌,
  string_key, if◌then◌else◌,
}
use astra_store_xion.Base.Dict.{Dict, lookup, insert, erase}
use astra_store_xion.Base.Int64.{Int64, add64, sub64, le64, is_neg}
use astra_store_xion.Files.Text.{normalize_owner}

pub record UsageEntry : Type 0 where
  pub bytes : Int64
  pub records : Int64

pub record UsageIndex : Type 0 where
  pub files : Dict String UsageEntry
  pub trash : Dict String UsageEntry
  pub uploads : Dict String UsageEntry

pub data UsageKind : Type 0 where
  usage_file usage_trash usage_upload : UsageKind

abbrev pub new_usage_index : UsageIndex
new_usage_index = record { files = []; trash = []; uploads = [] }

abbrev pub zero_entry : UsageEntry
zero_entry = record { bytes = 0; records = 0 }

-- A missing key of a Go map reads as the zero value.
abbrev pub or_zero : Option UsageEntry → UsageEntry
or_zero none = zero_entry
or_zero (some e) = e

abbrev pub bucket : UsageKind → UsageIndex → Dict String UsageEntry
bucket usage_file u = u.files
bucket usage_trash u = u.trash
bucket usage_upload u = u.uploads

abbrev pub set_bucket : UsageKind → Dict String UsageEntry → UsageIndex → UsageIndex
set_bucket usage_file b u = record u { files = b }
set_bucket usage_trash b u = record u { trash = b }
set_bucket usage_upload b u = record u { uploads = b }

unfoldable pub entry_of : UsageKind → String → UsageIndex → UsageEntry
unfolding lookup
entry_of kind owner u = or_zero (lookup owner (bucket kind u))

-- `usageIndex.total`
unfoldable pub total : String → UsageIndex → Int64
total owner u =
    add64 (add64 (entry_of usage_file owner u).bytes (entry_of usage_trash owner u).bytes)
      (entry_of usage_upload owner u).bytes

unfoldable sum_bytes : Dict String UsageEntry → Int64
unfolding add64
sum_bytes [] = 0
sum_bytes ((o, e) ∷ m) = add64 e.bytes (sum_bytes m)

unfoldable sum_records : Dict String UsageEntry → Int64
unfolding add64
sum_records [] = 0
sum_records ((o, e) ∷ m) = add64 e.records (sum_records m)

-- `bytesOf` and `bytesInTrash`, `activeCount` and `trashedCount`
unfoldable pub bytes_in : UsageKind → UsageIndex → Int64
unfolding sum_bytes
bytes_in kind u = sum_bytes (bucket kind u)

unfoldable pub records_in : UsageKind → UsageIndex → Int64
unfolding sum_records
records_in kind u = sum_records (bucket kind u)

abbrev pub debited : Int64 → Int64 → UsageEntry → UsageEntry
debited size records e =
    let left = sub64 e.records records in
    record { bytes = sub64 e.bytes size; records = if is_neg left then 0 else left }

abbrev pub credited : Int64 → Int64 → UsageEntry → UsageEntry
credited size records e = record { bytes = add64 e.bytes size; records = add64 e.records records }

-- The half of `moveUsage` that takes from a category.
unfoldable pub debit_bucket :
    String → Int64 → Int64 → Dict String UsageEntry → Dict String UsageEntry
debit_bucket owner size records m =
    let e = or_zero (lookup owner m) in
    if le64 (sub64 e.bytes size) 0 then erase owner m else insert owner (debited size records e) m

-- The half that adds to one.
unfoldable pub credit_bucket :
    String → Int64 → Int64 → Dict String UsageEntry → Dict String UsageEntry
credit_bucket owner size records m =
    insert owner (credited size records (or_zero (lookup owner m))) m

abbrev pub on_bucket :
    Option UsageKind → (Dict String UsageEntry → Dict String UsageEntry) → UsageIndex → UsageIndex
on_bucket none f u = u
on_bucket (some kind) f u = set_bucket kind (f (bucket kind u)) u

-- `moveUsage`: a kind of -1 in the source is `none`; `valid` is `usageValid`.
unfoldable pub move_usage :
    Bool → String → Option UsageKind → Option UsageKind → Int64 → Int64 → UsageIndex → UsageIndex
move_usage valid owner from to size records u =
    if not valid || le64 size 0
    then u
    else let key = normalize_owner owner in
      on_bucket to (credit_bucket key size records)
        (on_bucket from (debit_bucket key size records) u)

-- `releaseUsage`
unfoldable pub release_usage : Bool → String → UsageKind → Int64 → UsageIndex → UsageIndex
release_usage valid owner kind size u = move_usage valid owner (some kind) none size 1 u
