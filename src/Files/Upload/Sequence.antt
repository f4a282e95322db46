-- ===== src/Files/Upload/Sequence.antt =====
-- A whole upload: its chunks one after another, then `CompleteUpload`.
use astra_store_xion.Base.{
  ℕ, ◌+◌, ◌-◌, ◌≤◌, ◌<◌, ◌^◌, String, ◌≡◌, refl, true, false, some, none, List, [], ◌∷◌, ◌++◌,
  arith, length, All, length-append, subst, sym, ap,
}
use astra_store_xion.Base.Dict.{Dict}
use astra_store_xion.Files.Model.{File, UploadSession, Reader}
use astra_store_xion.Files.Text.{is_blank, valid_id, trim_space}
use astra_store_xion.Files.Disk.{Name, Content}
use astra_store_xion.Files.World.{Env, World, ok, live}
use astra_store_xion.Files.Io.{M, Out, pure, ◌>>=◌}
use astra_store_xion.Files.Io.Runs.{bind_runs}
use astra_store_xion.Files.Account.Quotas.{IsReady}
use astra_store_xion.Files.Read.{open_file}
use astra_store_xion.Files.Upload.{differs, bad_checksum, append_upload, complete_upload}
use astra_store_xion.Files.Upload.Sessions.{IsOpen}
use astra_store_xion.Files.Upload.Chunks.{append_extends}
use astra_store_xion.Files.Upload.Complete.{IsUnused, complete_open}

-- The chunks that a client sends, each at the offset that the answer to the one before gave.
unfoldable pub send : Env → UploadSession → List (List ℕ) → M UploadSession
send env session [] = pure session
send env session (c ∷ cs) = do
  next ←
      append_upload env live session.id session.received_bytes (length c)
        (some (record { bytes = c; failure = none })) ""
  send env next cs

abbrev pub joined : List (List ℕ) → List ℕ
joined [] = []
joined (c ∷ cs) = c ++ joined cs

-- What is the same in two sessions of one upload, and in the worlds around them.
record Continues (w w' : World) (s s' : UploadSession) : Type 0 where
  pub id : s'.id ≡ s.id
  pub size : s'.size ≡ s.size
  pub checksum : s'.checksum ≡ s.checksum
  pub objects : w'.disk.objects ≡ w.disk.objects
  pub metadata : w'.disk.metadata ≡ w.disk.metadata
  pub drawn : w'.drawn ≡ w.drawn

-- The outcome of the chunks: an open session that holds the bytes.
record Sent (w : World) (s : UploadSession) (bytes : List ℕ) (out : Out UploadSession)
    : Type 0 where
  pub session : UploadSession
  pub world : World
  pub files : Dict Name Content
  pub runs : out ≡ (ok session, world, [])
  pub is_open : IsOpen world session bytes files
  pub continues : Continues w world s session

append_nil : (xs : List ℕ) → xs ++ [] ≡ xs
append_nil [] = refl
append_nil (x ∷ xs) = ap (◌∷◌ x) (append_nil xs)

append_assoc : (xs ys zs : List ℕ) → (xs ++ ys) ++ zs ≡ xs ++ (ys ++ zs)
append_assoc [] ys zs = refl
append_assoc (x ∷ xs) ys zs = ap (◌∷◌ x) (append_assoc xs ys zs)

Continues-IsUnused :
    {w w' : World} {s s' : UploadSession} {id : String}
    → Continues w w' s s'
    → IsUnused w id
    → IsUnused w' id
Continues-IsUnused c unused = record {
  no_object = rw c.objects unused.no_object;
  no_manifest = rw c.metadata unused.no_manifest;
  no_leftover = rw c.metadata unused.no_leftover;
}

module _ (env : Env) where
  send_runs :
      (chunks : List (List ℕ)) (w : World) (s : UploadSession) (bytes : List ℕ)
      (m : Dict Name Content)
      → IsOpen w s bytes m
      → IsReady w
      → w.pause_at_percent ≡ 0
      → valid_id s.id ≡ true
      → s.size < 2 ^ 63 - 1
      → All (λ c. 1 ≤ length c) chunks
      → length bytes + length (joined chunks) ≤ s.size
      → Sent w s (bytes ++ joined chunks) (send env s chunks w [])
  unfolding send pure bad_checksum differs trim_space
  send_runs [] w s bytes m o ready off valid room nonempty fits = record {
    session = s;
    world = w;
    files = m;
    runs = refl;
    is_open = subst (λ bs. IsOpen w s bs m) (sym (append_nil bytes)) o;
    continues = record {
      id = refl;
      size = refl;
      checksum = refl;
      objects = refl;
      metadata = refl;
      drawn = refl;
    };
  }
  send_runs (c ∷ cs) w s bytes m o ready off valid room (nonempty, rest) fits =
      let chunk : Reader = record { bytes = c; failure = none } in
      let total = length-append c (joined cs) in
      let (first, o') =
        append_extends env w s bytes m o chunk "" ready valid refl refl nonempty
          (omega (arith, total, fits)) room refl (simp off) in
      let later =
        send_runs cs _ _ _ _ o' (record { load = ready.load; valid = ready.valid }) off valid room
          rest (omega (arith, length-append bytes c, total, fits)) in
      record {
        session = later.session;
        world = later.world;
        files = later.files;
        runs = bind_runs _ _ first later.runs;
        is_open =
            subst (λ bs. IsOpen later.world later.session bs later.files)
              (append_assoc bytes c (joined cs)) later.is_open;
        continues = record {
          id = later.continues.id;
          size = later.continues.size;
          checksum = later.continues.checksum;
          objects = later.continues.objects;
          metadata = later.continues.metadata;
          drawn = later.continues.drawn;
        };
      }

  -- A whole upload in chunks is the upload of their concatenation. On an open, empty session of a
  -- ready store whose pause is off, chunks that are not empty and have the declared size together
  -- (below 2 ^ 63 - 1), each sent at the offset that the answer before gave, then `CompleteUpload`,
  -- where no system call fails, the fresh file id is valid and unused, and the digest of the
  -- concatenation is not blank and agrees with the checksum, if one was declared: all calls succeed,
  -- and `Open` of the file that comes out returns the concatenation.
  pub upload_open :
      (chunks : List (List ℕ)) (w : World) (s : UploadSession) (m : Dict Name Content)
      → IsOpen w s [] m
      → IsReady w
      → w.pause_at_percent ≡ 0
      → valid_id s.id ≡ true
      → s.size < 2 ^ 63 - 1
      → All (λ c. 1 ≤ length c) chunks
      → length (joined chunks) ≡ s.size
      → IsUnused w (env.new_id w.drawn)
      → valid_id (env.new_id w.drawn) ≡ true
      → differs s.checksum (env.digest (joined chunks)) ≡ false
      → is_blank (env.digest (joined chunks)) ≡ false
      → (f : File) × (w' : World) × ((send env s chunks >>= λ t. complete_upload env live t.id) w []
          ≡ (ok f, w', []))
        × (open_file env live f.id w' [] ≡ (ok (f, joined chunks), w', []))
  upload_open chunks w s m o ready off valid room nonempty whole unused valid_new agrees sealed =
      let sent = send_runs chunks w s [] m o ready off valid room nonempty (omega (arith, whole)) in
      let c = sent.continues in
      let (finish, reopen) =
        complete_open env sent.world sent.session (joined chunks) sent.files sent.is_open
          (rw c.drawn (Continues-IsUnused c unused)) (rw c.id valid) (rw c.drawn valid_new)
          (rw c.size whole) (rw c.checksum agrees) sealed in
      (_, _, bind_runs _ _ sent.runs finish, reopen)
