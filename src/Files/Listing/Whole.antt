-- ===== src/Files/Listing/Whole.antt =====
-- `List` of pkg/files/store.go, read page by page.
use Prim.Native.String.{compare}
use text.Mathlib.Text.{is_lt}
use mathlib.Core.List.{Perm}
use astra_store_xion.Base.{
  ℕ, zero, suc, ◌+◌, ◌*◌, ◌≤◌, ◌<◌, ◌^◌, ◌≡◌, ◌∙◌, refl, ap, sym, true, false, some, List, [], ◌∷◌,
  ◌++◌, arith, leb, length, take, drop, inl, inr, Bool-cases,
}
use astra_store_xion.Base.Strings.{string_asym}
use astra_store_xion.Base.Sort.{sort_by, sort_by-Perm, sort_by-IsOrdered, IsOrdered, length-sort_by}
use astra_store_xion.Base.Int64.{le64, lt64, le64_nonneg, lt64_nonneg, is_neg_small}
use astra_store_xion.Files.Model.{File}
use astra_store_xion.Files.Text.Ids.{valid_id_iff}
use astra_store_xion.Files.Disk.{
  Name, json, name_key, Item, plain_file, file_json, found, find, metadata, at, manifest_path,
}
use astra_store_xion.Files.World.{Env, World, ok, live}
use astra_store_xion.Files.Io.{M, pure, ◌>>=◌, check, read_dir, steps}
use astra_store_xion.Files.Io.Runs.{bind_runs}
use astra_store_xion.Files.Read.Results.{file_result, get_unlocked-file_result}
use astra_store_xion.Files.Account.{manifest_entry}
use astra_store_xion.Files.Ready.Described.{IsId, IsRecord}
use astra_store_xion.Files.Ready.Records.{bad_file_iff}
use astra_store_xion.Files.Listing.{
  newer_file, page, page_limit, page_offset, collect, read_manifest, list,
}
use astra_store_xion.Files.Listing.Pages.{drop_past, drop-drop, take-nothing}

-- The entry is the record of `f`, and the record is good.
abbrev pub IsEntryOf : World → Name × Item → File → Type 0
IsEntryOf w (n, i) f =
    (n ≡ json f.id)
    × (i ≡ plain_file (file_json f))
    × (find (at metadata (json f.id)) w.disk ≡ found (file_json f))
    × IsId f.id
    × IsRecord f.id f

-- The entries are the records of the files, one by one.
abbrev pub Records : World → List (Name × Item) → List File → Type 0
Records w [] [] = Unit
Records w [] (f ∷ fs) = ⊥
Records w (e ∷ es) [] = ⊥
Records w (e ∷ es) (f ∷ fs) = IsEntryOf w e f × Records w es fs

-- No file is older than the one after it; files of one time stand in the order of their ids.
abbrev pub IsNewestFirst : List File → Type 0
IsNewestFirst [] = Unit
IsNewestFirst (f ∷ []) = Unit
IsNewestFirst (f ∷ g ∷ fs) =
    ((g.created_at ≤ f.created_at)
      × (g.created_at ≡ f.created_at → is_lt (compare g.id f.id) ≡ false))
    × IsNewestFirst (g ∷ fs)

-- A client that reads `n` pages of `limit` files, one after another.
unfoldable pub read_pages : Env → ℕ → ℕ → ℕ → M (List File)
read_pages env zero limit offset = pure []
read_pages env (suc n) limit offset = do
  files ← list env live limit offset
  others ← read_pages env n limit (offset + limit)
  pure (files ++ others)

newer_file_asym : (f g : File) → newer_file f g ≡ true → newer_file g f ≡ false
unfolding newer_file
newer_file_asym f g e = let order = string_asym f.id g.id in ground (arith, e, order)

IsOrdered-IsNewestFirst : (fs : List File) → IsOrdered newer_file fs → IsNewestFirst fs
unfolding newer_file
IsOrdered-IsNewestFirst [] o = tt
IsOrdered-IsNewestFirst (f ∷ []) o = tt
IsOrdered-IsNewestFirst (f ∷ g ∷ fs) o =
    ((ground (arith, o.0), λ e. ground (arith, o.0, e)), IsOrdered-IsNewestFirst (g ∷ fs) o.1)

module _ {A : Type 0} where
  take-take-drop :
      (m n k : ℕ) (xs : List A) → k ≡ m + n → take m xs ++ take n (drop m xs) ≡ take k xs
  take-take-drop zero n k xs e = ap (λ i. take i xs) (omega (arith, e))
  take-take-drop (suc m) n zero xs e = absurd (omega (arith, e))
  take-take-drop (suc m) zero (suc k) [] e = refl
  take-take-drop (suc m) (suc n) (suc k) [] e = refl
  take-take-drop (suc m) n (suc k) (x ∷ xs) e =
      ap (◌∷◌ x) (take-take-drop m n k xs (omega (arith, e)))

  take_past : (n : ℕ) (xs : List A) → length xs ≤ n → take n xs ≡ xs
  take_past zero [] h = refl
  take_past zero (x ∷ xs) h = absurd (omega (arith, h))
  take_past (suc n) [] h = refl
  take_past (suc n) (x ∷ xs) h = ap (◌∷◌ x) (take_past n xs (omega (arith, h)))

  page-take-drop :
      (limit offset : ℕ) (xs : List A)
      → 1 ≤ limit
      → limit ≤ 1000
      → offset < 2 ^ 63
      → page limit offset xs ≡ take limit (drop offset xs)
  unfolding page page_limit page_offset
  page-take-drop limit offset xs positive small room =
      let below : le64 limit 0 ≡ false =
        rw (le64_nonneg limit 0 (omega (arith, small)) (omega arith)) (ground (arith, positive)) in
      let above : lt64 1000 limit ≡ false =
        rw (lt64_nonneg 1000 limit (omega arith) (omega (arith, small))) (ground (arith, small)) in
      elim (Bool-cases (leb (length xs) offset)) [
        | inl past ↦
            let short : length xs ≤ offset = ground (arith, past) in
            simp (
              below,
              above,
              is_neg_small offset room,
              past,
              drop_past offset xs short,
              take-nothing limit,
            )
        | inr inside ↦ simp (below, above, is_neg_small offset room, inside)
      ]

module _ (env : Env) (w : World) where
  -- A good entry is read.
  read_entry-run :
      (n : Name) (i : Item) (f : File)
      → IsEntryOf w (n, i) f
      → read_manifest env (manifest_entry n i) w [] ≡ (ok (some f), w, [])
  unfolding steps
  read_entry-run n i f h =
      let valid = (valid_id_iff f.id).1 h.3 in
      let good = (bad_file_iff f.id f).1 h.4 in
      let at_path : find (manifest_path f.id) w.disk ≡ found (file_json f) = h.2 in
      let stored : file_result f.id (find (manifest_path f.id) w.disk) ≡ ok f =
        rw at_path (rw good refl) in
      rw (h.0, h.1) (simp (valid, get_unlocked-file_result env f.id w, stored))

  collect-run :
      (entries : List (Name × Item)) (fs : List File)
      → Records w entries fs
      → collect (λ n i. read_manifest env (manifest_entry n i)) entries w [] ≡ (ok fs, w, [])
  unfolding collect pure
  collect-run [] [] h = refl
  collect-run [] (f ∷ fs) h = absurd h
  collect-run (e ∷ es) [] h = absurd h
  collect-run ((n, i) ∷ es) (f ∷ fs) h =
      bind_runs _ _ (read_entry-run n i f h.0) (bind_runs _ _ (collect-run es fs h.1) refl)

  module _ (fs : List File) (h : Records w w.disk.metadata fs) where
    list-run :
        (limit offset : ℕ)
        → list env live limit offset w [] ≡ (ok (page limit offset (sort_by newer_file fs)), w, [])
    unfolding list check pure read_dir steps
    list-run limit offset =
        bind_runs (collect (λ n i. read_manifest env (manifest_entry n i)) w.disk.metadata)
          (λ stored. pure (page limit offset (sort_by newer_file stored)))
          (collect-run w.disk.metadata fs h) refl

    read_pages-run :
        (n limit offset : ℕ)
        → 1 ≤ limit
        → limit ≤ 1000
        → offset + n * limit < 2 ^ 63
        → read_pages env n limit offset w []
          ≡ (ok (take (n * limit) (drop offset (sort_by newer_file fs))), w, [])
    unfolding read_pages pure
    read_pages-run zero limit offset positive small room =
        let none_read : 0 * limit ≡ 0 = omega arith in rw none_read refl
    read_pages-run (suc n) limit offset positive small room =
        let sorted = sort_by newer_file fs in
        let total : suc n * limit ≡ limit + n * limit = omega arith in
        let within : offset + (limit + n * limit) < 2 ^ 63 = omega (arith, room, total) in
        let first = page-take-drop limit offset sorted positive small (omega (arith, within)) in
        let next = drop-drop limit offset (offset + limit) sorted refl in
        let joined : page limit offset sorted ++ take (n * limit) (drop (offset + limit) sorted)
            ≡ take (suc n * limit) (drop offset sorted) =
          rw (first, sym next)
            (take-take-drop limit (n * limit) (suc n * limit) (drop offset sorted) total) in
        let later =
          read_pages-run n limit (offset + limit) positive small (omega (arith, within)) in
        bind_runs (list env live limit offset) _ (list-run limit offset) (
          bind_runs (read_pages env n limit (offset + limit)) _ later
            (ap (λ xs. (ok xs, w, [])) joined))

    -- When every entry of the metadata directory is the good record of a file, and no system call
    -- fails: the pages of one limit, from 1 to 1000, that `List` returns one after another are
    -- together a list of all the files, each of them once, the newest first and then by id, as soon
    -- as they are as many as that takes, where the offsets stay below 2 ^ 63.
    pub read_pages_whole :
        (n limit : ℕ)
        → 1 ≤ limit
        → limit ≤ 1000
        → n * limit < 2 ^ 63
        → length fs ≤ n * limit
        → (whole : List File) × (read_pages env n limit 0 w [] ≡ (ok whole, w, []))
          × Perm whole fs
          × IsNewestFirst whole
    read_pages_whole n limit positive small room enough =
        let sorted = sort_by newer_file fs in
        let count = length-sort_by newer_file fs in
        let all : take (n * limit) sorted ≡ sorted =
          take_past (n * limit) sorted (omega (arith, enough, count)) in
        let run = read_pages-run n limit 0 positive small (omega (arith, room)) in
        (
          sorted,
          run ∙ ap (λ xs. (ok xs, w, [])) all,
          sort_by-Perm newer_file fs,
          IsOrdered-IsNewestFirst sorted (sort_by-IsOrdered newer_file newer_file_asym fs),
        )
