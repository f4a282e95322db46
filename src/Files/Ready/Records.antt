-- ===== src/Files/Ready/Records.antt =====
-- The tests of the records and of the names in a directory, against their description.
use astra_store_xion.Base.{
  subst, String, ◌≡◌, ◌≢◌, ◌⊎◌, ◌↔◌, inl, inr, refl, Bool, true, false, not, ◌&&◌, ◌||◌, Bool-cases,
  [], ◌∷◌, All, arith, eq_iff,
}
use astra_store_xion.Base.Dict.{Dict}
use astra_store_xion.Files.Model.{File, FileStatus, is_available}
use astra_store_xion.Files.Text.{is_blank}
use astra_store_xion.Files.Disk.{
  Name, name_beq_iff, Content, raw, file_json, session_json, Found, missing, blocked, found,
}
use astra_store_xion.Files.Read.{bad_file}
use astra_store_xion.Files.Read.Results.{file_result}
use astra_store_xion.Files.Io.Decides.{is_ok}
use astra_store_xion.Files.Ready.{has_file, only_files}
use astra_store_xion.Files.Ready.Described.{HasEntry, IsOneOf, IsRecord}

pub and_iff :
    (a b : Bool) {A B : Type 0}
    → ((a ≡ true) ↔ A)
    → (a ≡ true → ((b ≡ true) ↔ B))
    → ((a && b) ≡ true) ↔ (A × B)
and_iff true b h k = (λ e. (h.0 refl, (k refl).0 e), λ p. (k refl).1 p.1)
and_iff false b h k = (λ e. cc, λ p. h.1 p.0)

pub or_iff :
    (a b : Bool) {A B : Type 0} → ((a ≡ true) ↔ A) → ((b ≡ true) ↔ B) → ((a || b) ≡ true) ↔ (A ⊎ B)
or_iff true b h k = (λ e. inl (h.0 refl), λ p. refl)
or_iff false b h k =
    (λ e. inr (k.0 e), λ p. elim p [ inl x ↦ (let t = h.1 x in cc) | inr y ↦ k.1 y ])

pub not_iff : (a : Bool) {A : Type 0} → ((a ≡ true) ↔ A) → (not a ≡ true) ↔ (A → ⊥)
not_iff true h = (λ e. cc, λ p. absurd (p (h.0 refl)))
not_iff false h = (λ e x. let t = h.1 x in cc, λ p. refl)

pub has_file_iff : (n : Name) (m : Dict Name Content) → (has_file n m ≡ true) ↔ HasEntry n m
has_file_iff n [] = (λ e. cc, λ p. absurd p)
has_file_iff n ((k, c) ∷ rest) = or_iff _ _ (name_beq_iff k n) (has_file_iff n rest)

pub only_files_iff :
    (a b : Name) (m : Dict Name Content) → (only_files a b m ≡ true) ↔ All (IsOneOf a b) m
only_files_iff a b [] = (λ e. tt, λ p. refl)
only_files_iff a b ((k, c) ∷ rest) =
    let ih = only_files_iff a b rest in
    let one = or_iff _ _ (name_beq_iff k a) (name_beq_iff k b) in
    let both = and_iff _ _ one (λ e. ih) in (λ e. both.0 e, λ p. both.1 p)

pub is_blank_iff : (s : String) → (not (is_blank s) ≡ true) ↔ (s ≢ "")
is_blank_iff String.[] = (λ e. cc, λ h. absurd (h refl))
is_blank_iff (String.◌∷◌ c s) = (λ e h. cc, λ h. refl)

pub available_iff : (s : FileStatus) → (is_available s ≡ true) ↔ (s ≡ FileStatus.available)
unfolding is_available
available_iff FileStatus.available = (λ e. refl, λ e. refl)
available_iff (FileStatus.other_status s) = (λ e. cc, λ e. cc)

pub bad_file_iff : (id : String) (f : File) → (bad_file id f ≡ false) ↔ IsRecord id f
unfolding bad_file
bad_file_iff id f = ground (arith, eq_iff f.id id, available_iff f.status, is_blank_iff f.checksum)

pub file_result_iff :
    (id : String) (o : Found)
    → (is_ok (file_result id o) ≡ true) ↔ ((f : File) × (o ≡ found (file_json f)) × IsRecord id f)
file_result_iff id missing = (λ e. cc, λ p. let t = p.1 in cc)
file_result_iff id blocked = (λ e. cc, λ p. let t = p.1 in cc)
file_result_iff id (found (raw bs)) = (λ e. cc, λ p. let t = p.1 in cc)
file_result_iff id (found (session_json s)) = (λ e. cc, λ p. let t = p.1 in cc)
file_result_iff id (found (file_json f)) =
    let test = bad_file_iff id f in
    elim (Bool-cases (bad_file id f)) [
      | inl b ↦ rw b (
        λ e. cc,
        λ p.
            let same : p.0 ≡ f = (let t = p.1 in cc) in
            let good = subst (IsRecord id) same p.2 in let t = test.1 good in cc,
      )
      | inr b ↦ rw b (λ e. (f, refl, test.0 b), λ p. refl)
    ]
