-- ===== src/Files/Ready/Binned.antt =====
-- The tests of an entry of the recycle bin, against their description.
use astra_store_xion.Base.{
  String, ℕ, ◌≡◌, ◌↔◌, inl, inr, refl, true, false, Bool-cases, Option-cases, some, arith, length,
  ◌==◌, subst,
}
use astra_store_xion.Base.Int64.{int64}
use astra_store_xion.Files.Model.{File}
use astra_store_xion.Files.Disk.{
  Content, raw, file_json, session_json, Found, missing, blocked, found,
}
use astra_store_xion.Files.World.{Env, bytes_of}
use astra_store_xion.Files.Read.{is_nil, bad_trash}
use astra_store_xion.Files.Read.Results.{trash_result, sized_file}
use astra_store_xion.Files.Io.Decides.{is_ok}
use astra_store_xion.Files.Ready.Records.{bad_file_iff}
use astra_store_xion.Files.Ready.Described.{IsRecord}

bad_trash_iff :
    (id : String) (f : File)
    → (bad_trash id f ≡ false) ↔ (IsRecord id f × ((t : ℕ) × (f.deleted_at ≡ some t)))
unfolding bad_trash
bad_trash_iff id f =
    let record_iff = bad_file_iff id f in
    elim (Option-cases f.deleted_at) [
      | inl e ↦
          let nil : is_nil f.deleted_at ≡ true = rw e refl in
          (λ b. absurd (ground (arith, b, nil)), λ p. let t = p.1.1 in cc)
      | inr (t, e) ↦
          let timed : is_nil f.deleted_at ≡ false = rw e refl in
          (
            λ b. (record_iff.0 (ground (arith, b)), (t, e)),
            λ p. let good = record_iff.1 p.0 in ground (arith, good, timed),
          )
    ]

module _ (env : Env) where
  sized_file_iff :
      (f : File) (o : Found)
      → (is_ok (sized_file env f o) ≡ true)
        ↔ ((c : Content) × (o ≡ found c) × (int64 (length (bytes_of env c)) ≡ f.size))
  sized_file_iff f missing = (λ e. cc, λ p. let t = p.1 in cc)
  sized_file_iff f blocked = (λ e. cc, λ p. let t = p.1 in cc)
  sized_file_iff f (found c) = elim (Bool-cases (int64 (length (bytes_of env c)) == f.size)) [
    | inl b ↦ rw b (λ e. (c, refl, ground (arith, b)), λ p. refl)
    | inr b ↦ rw b (
      λ e. cc,
      λ p.
          (let same : p.0 ≡ c = (let t = p.1 in cc) in
            let length_of = subst (λ x. int64 (length (bytes_of env x)) ≡ f.size) same p.2 in
            absurd (ground (arith, b, length_of))),
    )
  ]

  -- What the reading of an entry of the recycle bin asks of the record `f`.
  abbrev pub TrashAgrees : String → File → Found → Type 0
  TrashAgrees id f o =
      (IsRecord id f × ((t : ℕ) × (f.deleted_at ≡ some t)))
      × ((c : Content) × (o ≡ found c) × (int64 (length (bytes_of env c)) ≡ f.size))

  pub trash_result_iff :
      (id : String) (m o : Found)
      → (is_ok (trash_result env id m o) ≡ true)
        ↔ ((f : File) × (m ≡ found (file_json f)) × TrashAgrees id f o)
  trash_result_iff id missing o = (λ e. cc, λ p. let t = p.1 in cc)
  trash_result_iff id blocked o = (λ e. cc, λ p. let t = p.1 in cc)
  trash_result_iff id (found (raw bs)) o = (λ e. cc, λ p. let t = p.1 in cc)
  trash_result_iff id (found (session_json s)) o = (λ e. cc, λ p. let t = p.1 in cc)
  trash_result_iff id (found (file_json f)) o =
      let sized = sized_file_iff f o in
      let test = bad_trash_iff id f in
      elim (Bool-cases (bad_trash id f)) [
        | inl b ↦ rw b (
          λ e. cc,
          λ p.
              let same : p.0 ≡ f = (let t = p.1 in cc) in
              let agrees = subst (λ x. TrashAgrees id x o) same p.2 in
              let t = test.1 agrees.0 in cc,
        )
        | inr b ↦ rw b (
          λ e. (f, refl, (test.0 b, sized.0 e)),
          λ p.
              let same : p.0 ≡ f = (let t = p.1 in cc) in
              let agrees = subst (λ x. TrashAgrees id x o) same p.2 in sized.1 agrees.1,
        )
      ]
