-- ===== src/Files/Usage/Laws.antt =====
-- What a move does to the bytes that each owner is charged with.
use astra_store_xion.Base.{
  ℕ, zero, suc, ◌+◌, ◌-◌, ◌^◌, ◌≤◌, ◌<◌, String, ◌≡◌, true, false, Option, none, some, inl, inr,
  arith, string_key, if◌then◌else◌, Bool-cases, str_eq, eq_iff,
}
use astra_store_xion.Base.Dict.{Dict, lookup, insert, erase, lookup-insert, lookup-erase}
use astra_store_xion.Base.Int64.{Int64, add64, sub64, le64, le64_nonneg, sub64_le, add64_small}
use astra_store_xion.Files.Text.{normalize_owner}
use astra_store_xion.Files.Usage.{
  UsageEntry, UsageIndex, UsageKind, usage_file, usage_trash, usage_upload, or_zero, bucket,
  debited, credited, entry_of, total, debit_bucket, credit_bucket, on_bucket, move_usage,
  release_usage,
}

abbrev bytes_at : String → Dict String UsageEntry → ℕ
bytes_at o m = (or_zero (lookup o m)).bytes

bytes_at-insert :
    (k o : String) (e : UsageEntry) (m : Dict String UsageEntry)
    → bytes_at o (insert k e m) ≡ (if str_eq k o then e.bytes else bytes_at o m)
bytes_at-insert k o e m = ground (arith, lookup-insert k o e m)

bytes_at-erase :
    (k o : String) (m : Dict String UsageEntry)
    → bytes_at o (erase k m) ≡ (if str_eq k o then 0 else bytes_at o m)
bytes_at-erase k o m = ground (arith, lookup-erase k o m)

bytes_at-credit :
    (k o : String) (size records : Int64) (m : Dict String UsageEntry)
    → bytes_at k m + size < 2 ^ 63
    → bytes_at o (credit_bucket k size records m)
      ≡ (if str_eq k o then bytes_at k m + size else bytes_at o m)
unfolding credit_bucket
bytes_at-credit k o size records m h = ground (
  arith,
  lookup-insert k o (credited size records (or_zero (lookup k m))) m,
  add64_small (bytes_at k m) size h,
)

bytes_at-debit :
    (k o : String) (size records : Int64) (m : Dict String UsageEntry)
    → bytes_at k m < 2 ^ 63
    → size ≤ bytes_at k m
    → bytes_at o (debit_bucket k size records m)
      ≡ (if str_eq k o then bytes_at k m - size else bytes_at o m)
unfolding debit_bucket
bytes_at-debit k o size records m p q =
    let sub = sub64_le (bytes_at k m) size p q in
    let le = le64_nonneg (sub64 (bytes_at k m) size) 0 in
    elim (Bool-cases (le64 (sub64 (bytes_at k m) size) 0)) [
      | inl e ↦ rw (e, debit_bucket) (ground (arith, lookup-erase k o m, sub, le))
      | inr e ↦
          rw (e, debit_bucket)
            (ground (arith, lookup-insert k o (debited size records (or_zero (lookup k m))) m, sub))
    ]

-- The bytes that a category charges an owner with.
abbrev pub charged : UsageKind → String → UsageIndex → ℕ
charged kind owner u = bytes_at owner (bucket kind u)

-- All that an owner is charged with, as the number that `total` stands for.
abbrev pub all_charged : String → UsageIndex → ℕ
all_charged owner u =
    charged usage_file owner u + charged usage_trash owner u + charged usage_upload owner u

-- While an owner's charges add up to less than 2 ^ 63, `total` is their sum.
pub total_exact :
    (owner : String) (u : UsageIndex)
    → all_charged owner u < 2 ^ 63
    → total owner u ≡ all_charged owner u
unfolding total entry_of add64
total_exact owner u h = omega arith

credit-all_charged :
    (key o : String) (to : UsageKind) (size records : Int64) (u : UsageIndex)
    → all_charged key u + size < 2 ^ 63
    → all_charged o (on_bucket (some to) (credit_bucket key size records) u)
      ≡ (if str_eq key o then all_charged o u + size else all_charged o u)
credit-all_charged key o usage_file size records u h =
    ground (arith, eq_iff key o, bytes_at-credit key o size records u.files)
credit-all_charged key o usage_trash size records u h =
    ground (arith, eq_iff key o, bytes_at-credit key o size records u.trash)
credit-all_charged key o usage_upload size records u h =
    ground (arith, eq_iff key o, bytes_at-credit key o size records u.uploads)

debit-all_charged :
    (key o : String) (from : UsageKind) (size records : Int64) (u : UsageIndex)
    → charged from key u < 2 ^ 63
    → size ≤ charged from key u
    → all_charged o (on_bucket (some from) (debit_bucket key size records) u)
      ≡ (if str_eq key o then all_charged o u - size else all_charged o u)
debit-all_charged key o usage_file size records u p q =
    ground (arith, eq_iff key o, bytes_at-debit key o size records u.files)
debit-all_charged key o usage_trash size records u p q =
    ground (arith, eq_iff key o, bytes_at-debit key o size records u.trash)
debit-all_charged key o usage_upload size records u p q =
    ground (arith, eq_iff key o, bytes_at-debit key o size records u.uploads)

-- A move is skipped for a size that is not positive.
move_usage_positive :
    (owner : String) (from to : Option UsageKind) (size records : Int64) (u : UsageIndex)
    → 0 < size
    → size < 2 ^ 63
    → move_usage true owner from to size records u
      ≡ on_bucket to
          (credit_bucket (normalize_owner owner) size records)
          (on_bucket from (debit_bucket (normalize_owner owner) size records) u)
unfolding move_usage
move_usage_positive owner from to size records u p q =
    let positive : le64 size 0 ≡ false = rw (le64_nonneg size 0 q (omega arith)) (ground arith) in
    rw positive

move_usage_zero :
    (owner : String) (from to : Option UsageKind) (records : Int64) (u : UsageIndex)
    → move_usage true owner from to 0 records u ≡ u
unfolding move_usage
move_usage_zero owner from to records u =
    let skipped : le64 0 0 ≡ true = rw (le64_nonneg 0 0 (omega arith) (omega arith)) in rw skipped

-- Something new, which `Put` and `StartUpload` charge, raises what its owner is charged with by its
-- size, and changes nothing for any other owner.
pub move_usage_admit :
    (owner o : String) (to : UsageKind) (size records : Int64) (u : UsageIndex)
    → all_charged (normalize_owner owner) u + size < 2 ^ 63
    → all_charged o (move_usage true owner none (some to) size records u)
      ≡ (if str_eq (normalize_owner owner) o then all_charged o u + size else all_charged o u)
move_usage_admit owner o to zero records u h =
    rw (move_usage_zero owner none (some to) records u) (ground arith)
move_usage_admit owner o to (suc n) records u h =
    rw (move_usage_positive owner none (some to) (suc n) records u (omega arith) (omega arith))
      (credit-all_charged (normalize_owner owner) o to (suc n) records u h)

-- A release of bytes that a category holds for an owner lowers what the owner is charged with by
-- that size, and changes nothing for any other owner.
pub release_usage_exact :
    (owner o : String) (kind : UsageKind) (size : Int64) (u : UsageIndex)
    → 0 < size
    → size ≤ charged kind (normalize_owner owner) u
    → charged kind (normalize_owner owner) u < 2 ^ 63
    → all_charged o (release_usage true owner kind size u)
      ≡ (if str_eq (normalize_owner owner) o then all_charged o u - size else all_charged o u)
unfolding release_usage
release_usage_exact owner o kind size u p q r =
    rw (move_usage_positive owner (some kind) none size 1 u p (omega arith))
      (debit-all_charged (normalize_owner owner) o kind size 1 u r q)

-- A transfer between two categories, which a completed upload, a deletion and a restoration make,
-- leaves every owner charged with what it was charged with before.
pub move_usage_transfer :
    (owner o : String) (from to : UsageKind) (size records : Int64) (u : UsageIndex)
    → 0 < size
    → size ≤ charged from (normalize_owner owner) u
    → all_charged (normalize_owner owner) u < 2 ^ 63
    → all_charged o (move_usage true owner (some from) (some to) size records u) ≡ all_charged o u
move_usage_transfer owner o from to size records u p q r =
    let key = normalize_owner owner in
    let small : charged from key u < 2 ^ 63 = charged-lt from key u r in
    let lower = on_bucket (some from) (debit_bucket key size records) u in
    let own = debit-all_charged key key from size records u small q in
    let all = debit-all_charged key o from size records u small q in
    let le = charged-le from o u in
    rw (move_usage_positive owner (some from) (some to) size records u p (omega arith)) (
      ground (
        arith,
        eq_iff key o,
        eq_iff key key,
        credit-all_charged key o to size records lower,
        own,
        all,
        le,
      ))
  where
    charged-le :
        (kind : UsageKind) (k : String) (v : UsageIndex) → charged kind k v ≤ all_charged k v
    charged-le usage_file k v = omega arith
    charged-le usage_trash k v = omega arith
    charged-le usage_upload k v = omega arith

    charged-lt :
        (kind : UsageKind) (k : String) (v : UsageIndex)
        → all_charged k v < 2 ^ 63
        → charged kind k v < 2 ^ 63
    charged-lt usage_file k v h = omega arith
    charged-lt usage_trash k v h = omega arith
    charged-lt usage_upload k v h = omega arith
