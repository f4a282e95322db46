-- ===== src/Files/Ready/Beside.antt =====
-- The tests of the record of a session beside its part file, against their description.
use astra_store_xion.Base.{
  ◌∙◌, String, ◌≡◌, ◌≢◌, ◌⊎◌, ◌↔◌, inl, inr, refl, sym, Bool, true, false, not, ◌&&◌, ◌||◌,
  Bool-cases, arith, length, ◌==◌, eq_iff, subst,
}
use astra_store_xion.Base.Int64.{int64, is_neg, le64, lt64}
use astra_store_xion.Base.Dict.{Dict}
use astra_store_xion.Files.Model.{
  UploadSession, UploadStatus, uploading, completed, is_uploading, is_completed,
}
use astra_store_xion.Files.Text.{is_blank, valid_id}
use astra_store_xion.Files.Text.Ids.{valid_id_iff}
use astra_store_xion.Files.Disk.{
  Name, part, Content, raw, file_json, session_json, Found, missing, blocked, found,
}
use astra_store_xion.Files.World.{Env, bytes_of}
use astra_store_xion.Files.Read.{bad_session, bad_completed}
use astra_store_xion.Files.Read.Session.{checked_session, session_result}
use astra_store_xion.Files.Ready.{has_file}
use astra_store_xion.Files.Ready.Consistent.{part_free}
use astra_store_xion.Files.Ready.Records.{and_iff, not_iff, is_blank_iff, has_file_iff}
use astra_store_xion.Files.Ready.Described.{HasEntry, IsId, IsSession}

module _ (env : Env) where
  -- The length that an open session's part file must have.
  abbrev sized_part : UploadSession → Found → Bool
  sized_part s missing = false
  sized_part s blocked = false
  sized_part s (found c) = int64 (length (bytes_of env c)) == s.received_bytes

  uploading_part :
      (id : String) (s : UploadSession) (files : Dict Name Content) (o : Found)
      → s.status ≡ uploading
      → part_free files (checked_session env id s o) ≡ (not (bad_session id s) && sized_part s o)
  unfolding is_uploading is_completed bad_completed
  uploading_part id s files missing u = elim (Bool-cases (bad_session id s)) [
    | inl b ↦ simp (u, b)
    | inr b ↦ simp (u, b)
  ]
  uploading_part id s files blocked u = elim (Bool-cases (bad_session id s)) [
    | inl b ↦ simp (u, b)
    | inr b ↦ simp (u, b)
  ]
  uploading_part id s files (found c) u = elim (Bool-cases (bad_session id s)) [
    | inl b ↦ simp (u, b)
    | inr b ↦ elim (Bool-cases (int64 (length (bytes_of env c)) == s.received_bytes)) [
      | inl z ↦ simp (u, b, z)
      | inr z ↦ simp (u, b, z)
    ]
  ]

  completed_part :
      (id : String) (s : UploadSession) (files : Dict Name Content) (o : Found)
      → s.status ≡ completed
      → part_free files (checked_session env id s o)
        ≡ (not (bad_session id s) && (not (bad_completed s) && not (has_file (part "data") files)))
  unfolding is_uploading is_completed
  completed_part id s files o u = elim (Bool-cases (bad_session id s)) [
    | inl b ↦ simp (u, b)
    | inr b ↦ elim (Bool-cases (bad_completed s)) [
      | inl z ↦ simp (u, b, z)
      | inr z ↦ simp (u, b, z)
    ]
  ]

  bad_session_iff :
      (id : String) (s : UploadSession)
      → (not (bad_session id s) ≡ true) ↔ (
          (s.id ≡ id)
          × (is_uploading s.status || is_completed s.status ≡ true)
          × (le64 s.size 0 ≡ false)
          × (is_neg s.received_bytes ≡ false)
          × (lt64 s.size s.received_bytes ≡ false))
  unfolding bad_session
  bad_session_iff id s = ground (arith, eq_iff s.id id)

  bad_completed_iff :
      (s : UploadSession)
      → s.status ≡ completed
      → (not (bad_completed s) ≡ true) ↔ ((s.file_id ≢ "") × IsId s.file_id)
  unfolding bad_completed is_completed
  bad_completed_iff s u =
      let named = is_blank_iff s.file_id in
      let valid = valid_id_iff s.file_id in
      let both = and_iff (not (is_blank s.file_id)) (valid_id s.file_id) named (λ e. valid) in
      let same : not (bad_completed s) ≡ (not (is_blank s.file_id) && valid_id s.file_id) =
        rw u (ground arith) in
      rw same both

  -- What the reading of a session and the last check of `Ready` ask of the record `s`.
  abbrev pub Agrees : String → UploadSession → Dict Name Content → Found → Type 0
  Agrees id s files o =
      IsSession id s
      × (((s.status ≡ uploading)
            × ((c : Content) × (o ≡ found c)
                × (int64 (length (bytes_of env c)) ≡ s.received_bytes)))
          ⊎ ((s.status ≡ completed) × (HasEntry (part "data") files → ⊥)))

  sized_part_iff :
      (s : UploadSession) (o : Found)
      → (sized_part s o ≡ true)
        ↔ ((c : Content) × (o ≡ found c) × (int64 (length (bytes_of env c)) ≡ s.received_bytes))
  sized_part_iff s missing = (λ e. cc, λ p. let t = p.1 in cc)
  sized_part_iff s blocked = (λ e. cc, λ p. let t = p.1 in cc)
  sized_part_iff s (found c) = (
    λ e. (c, refl, ground (arith, e)),
    λ p.
        let same : p.0 ≡ c = (let t = p.1 in cc) in
        let length_of = subst (λ x. int64 (length (bytes_of env x)) ≡ s.received_bytes) same p.2 in
        ground (arith, length_of),
  )

  checked_session_iff :
      (id : String) (s : UploadSession) (files : Dict Name Content) (o : Found)
      → (part_free files (checked_session env id s o) ≡ true) ↔ Agrees id s files o
  unfolding is_uploading is_completed
  checked_session_iff id s files o = go s.status refl
    where
      go :
          (status : UploadStatus)
          → s.status ≡ status
          → (part_free files (checked_session env id s o) ≡ true) ↔ Agrees id s files o
      go uploading u =
          let both =
            and_iff (not (bad_session id s)) (sized_part s o) (bad_session_iff id s)
              (λ e. sized_part_iff s o) in
          let same = uploading_part id s files o u in
          (
            λ e.
                let p = both.0 (sym same ∙ e) in
                ((p.0.0, inl u, p.0.2, p.0.3, p.0.4), inl (u, p.1)),
            λ p.
                let r = p.0 in
                let is_open : is_uploading s.status || is_completed s.status ≡ true = rw u refl in
                same
                ∙ both.1 (
                  (r.0, is_open, r.2, r.3, r.4),
                  elim p.1 [ inl h ↦ h.1 | inr h ↦ (let t = h.0 in cc) ],
                ),
          )
      go completed u =
          let named = bad_completed_iff s u in
          let lone = not_iff (has_file (part "data") files) (has_file_iff (part "data") files) in
          let rest =
            and_iff (not (bad_completed s)) (not (has_file (part "data") files)) named
              (λ e. lone) in
          let both = and_iff (not (bad_session id s)) _ (bad_session_iff id s) (λ e. rest) in
          let same = completed_part id s files o u in
          (
            λ e.
                let p = both.0 (sym same ∙ e) in
                ((p.0.0, inr (u, p.1.0.0, p.1.0.1), p.0.2, p.0.3, p.0.4), inr (u, p.1.1)),
            λ p.
                let r = p.0 in
                let is_done : is_uploading s.status || is_completed s.status ≡ true = rw u refl in
                same
                ∙ both.1 (
                  (r.0, is_done, r.2, r.3, r.4),
                  (
                    elim r.1 [ inl h ↦ cc | inr h ↦ (h.1, h.2) ],
                    elim p.1 [ inl h ↦ (let t = h.0 in cc) | inr h ↦ h.1 ],
                  ),
                ),
          )
      go (UploadStatus.other_status t) u =
          let neither : is_uploading s.status || is_completed s.status ≡ false = rw u refl in
          let r = bad_session_iff id s in
          elim (Bool-cases (bad_session id s)) [
            | inl b ↦ rw b (
              λ e. cc,
              λ p. absurd (elim p.1 [ inl h ↦ (let t = h.0 in cc) | inr h ↦ (let t = h.0 in cc) ]),
            )
            | inr b ↦ let t = (r.0 (rw b refl)).1 in cc
          ]

  pub session_result_iff :
      (id : String) (files : Dict Name Content) (m o : Found)
      → (part_free files (session_result env id m o) ≡ true)
        ↔ ((s : UploadSession) × (m ≡ found (session_json s)) × Agrees id s files o)
  session_result_iff id files missing o = (λ e. cc, λ p. let t = p.1 in cc)
  session_result_iff id files blocked o = (λ e. cc, λ p. let t = p.1 in cc)
  session_result_iff id files (found (raw bs)) o = (λ e. cc, λ p. let t = p.1 in cc)
  session_result_iff id files (found (file_json f)) o = (λ e. cc, λ p. let t = p.1 in cc)
  session_result_iff id files (found (session_json s)) o =
      let test = checked_session_iff id s files o in
      (
        λ e. (s, refl, test.0 e),
        λ p.
            let same : p.0 ≡ s = (let t = p.1 in cc) in
            test.1 (subst (λ x. Agrees id x files o) same p.2),
      )
