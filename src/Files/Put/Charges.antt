-- ===== src/Files/Put/Charges.antt =====
-- What `Put` charges to its owner, under any plan of faults.
use astra_store_xion.Base.{
  ◌+◌, ◌^◌, ◌≤◌, ◌<◌, String, ◌≡◌, ◌≢◌, true, none, some, arith, List, length, eq_iff,
}
use astra_store_xion.Base.Int64.{Int64, int64}
use astra_store_xion.Files.Model.{File, UploadInput, Reader}
use astra_store_xion.Files.Text.{normalize_owner, owner_from_metadata}
use astra_store_xion.Files.Usage.{usage_file, total, move_usage}
use astra_store_xion.Files.Usage.Laws.{all_charged, total_exact, move_usage_admit}
use astra_store_xion.Files.World.{Env, World, Ctx, Fault, ok}
use astra_store_xion.Files.Io.{modify}
use astra_store_xion.Files.Io.Quiet.{
  Same, Same-refl, Quiet, Quiet-raise_if, Quiet-or_raise, Quiet-check, Quiet-syscall,
  Quiet-create_excl, Quiet-copy_to, Quiet-rename, Quiet-remove, Quiet-now, Quiet-draw_id,
  Quiet-write_manifest, quiet_rules,
}
use astra_store_xion.Files.Io.Ensures.{
  Ensures, Ensures-bind, Ensures-then, Ensures-pure, Ensures-on_error, Accounts, Accounts-given,
  Ensures-ok,
}
use astra_store_xion.Files.Read.{require_id}
use astra_store_xion.Files.Account.Quotas.{
  IsReady, Within, over_quota_sound, Same-Accounts, ensure-Same, enforce-Within, writes_paused-Same,
}
use astra_store_xion.Files.Put.{
  or_else, move, choose_id, id_taken, store_object, publish, put_locked, put,
}

ruleset put_rules = (
  quiet_rules, Quiet-create_excl, Quiet-copy_to, Quiet-rename, Quiet-remove, Quiet-now,
  Quiet-draw_id, Quiet-write_manifest,
)

Quiet-choose_id : (env : Env) (given : String) → Quiet (choose_id env given)
unfolding choose_id require_id
Quiet-choose_id env given = search put_rules

Quiet-id_taken : (env : Env) (id : String) → Quiet (id_taken env id)
unfolding id_taken or_else
Quiet-id_taken env id = search put_rules

Quiet-publish : (env : Env) (stored : File) → Quiet (publish env stored)
unfolding publish
Quiet-publish env stored = search put_rules depth 12

-- After a success the index is that of `v` with the size charged to the owner, and the check passed.
pub record Charged (v : World) (owner : String) (size : Int64) (w : World) : Type 0 where
  pub usage : w.usage ≡ move_usage true owner none (some usage_file) size 1 v.usage
  pub within : Within v owner size
  pub owner_quota : w.owner_quota_bytes ≡ v.owner_quota_bytes

module _ (env : Env) (v : World) (ready : IsReady v) where
  abbrev P : World → Type 0
  P = Same v

  accounts : Accounts P
  accounts = Same-Accounts env v ready

  store_object-Within :
      (id owner : String) (reader : Reader)
      → Ensures P
          (store_object env id owner reader)
          (λ bytes w. P w × Within v owner (int64 (length bytes)))
  unfolding store_object
  store_object-Within id owner reader = Ensures-on_error P _ _ _ (
      Ensures-then P accounts _ _ _ (Quiet-copy_to _ _ _) λ bytes.
        Ensures-then P accounts _ _ _ Quiet-syscall λ _.
          Ensures-then P accounts _ _ _ Quiet-syscall λ _.
            Ensures-bind P _ _ _ _ (enforce-Within env v ready owner (int64 (length bytes))) λ _.
              Ensures-then _ (Accounts-given P accounts) _ _ _ (Quiet-rename _ _)
                λ _. Ensures-pure _ _ bytes (λ w x. x))

  move-Charged :
      (owner : String) (size : Int64)
      → Ensures
          (λ w. P w × Within v owner size)
          (move owner none (some usage_file) size)
          (λ a w. Charged v owner size w)
  unfolding move modify
  move-Charged owner size = record {
    at = λ w p x. record {
      usage = cc (x.0.usage, x.0.usage_valid, ready.valid);
      within = x.1;
      owner_quota = x.0.owner_quota;
    };
  }

  put_locked-Charged :
      (input : UploadInput) (reader : Reader) (id : String)
      → Ensures P
          (put_locked env input reader id)
          (λ f w. Charged v (owner_from_metadata input.metadata) f.size w)
  unfolding put_locked
  put_locked-Charged input reader id =
      let owner = owner_from_metadata input.metadata in
      Ensures-bind P _ _ _ _ (writes_paused-Same env v ready) λ paused.
        Ensures-then P accounts _ _ _ (Quiet-raise_if paused _) λ _.
          Ensures-bind P _ _ _ _ (ensure-Same env v ready) λ _.
            Ensures-then P accounts _ _ _ (Quiet-id_taken env id) λ taken.
              Ensures-then P accounts _ _ _ (Quiet-raise_if taken _) λ _.
                Ensures-then P accounts _ _ _ (Quiet-create_excl _) λ _.
                  Ensures-bind P _ _ _ _ (store_object-Within id owner reader) λ bytes.
                    let kept = Accounts-given P accounts in
                    Ensures-then _ kept _ _ _ (search put_rules) λ _.
                      Ensures-then _ kept _ _ _ (Quiet-now env) λ created.
                        Ensures-then _ kept _ _ _ (Quiet-publish env _) λ _.
                          Ensures-bind _ _ _ _ _ (move-Charged owner (int64 (length bytes)))
                            (λ _. Ensures-pure _ _ _ (λ w x. x))

  put-Charged :
      (ctx : Ctx) (input : UploadInput)
      → Ensures P
          (put env ctx input)
          (λ f w. Charged v (owner_from_metadata input.metadata) f.size w)
  unfolding put
  put-Charged ctx input = Ensures-then P accounts _ _ _ (Quiet-or_raise input.reader _) λ reader.
      Ensures-then P accounts _ _ _ (Quiet-check ctx) λ _.
        Ensures-then P accounts _ _ _ (Quiet-choose_id env input.id)
          λ id. put_locked-Charged input reader id

-- What a charge that passed the check comes to, in numbers.
Charged-le-quota :
    (v w : World) (owner : String) (size : Int64)
    → v.owner_quota_bytes ≢ 0
    → v.owner_quota_bytes < 2 ^ 63
    → all_charged (normalize_owner owner) v.usage < 2 ^ 63
    → size < 2 ^ 63
    → Charged v owner size w
    → (all_charged (normalize_owner owner) w.usage
        ≡ all_charged (normalize_owner owner) v.usage + size)
      × (all_charged (normalize_owner owner) w.usage ≤ v.owner_quota_bytes)
Charged-le-quota v w owner size on q u r c =
    let key = normalize_owner owner in
    let exact = total_exact key v.usage u in
    let fits =
      over_quota_sound v.owner_quota_bytes (total key v.usage) size q (omega (arith, exact)) r
        (c.within on) in
    let grown = move_usage_admit owner key usage_file size 1 v.usage (omega (arith, exact, fits)) in
    rw c.usage (ground (arith, grown, eq_iff key key, exact, fits))

-- With the index loaded and a quota set, a `Put` that succeeds has charged its owner with the size of
-- the file, and the owner's active, trashed and reserved bytes together are within the quota. This
-- holds for every plan of faults, while the owner's bytes before the call and the file's size stay
-- below 2 ^ 63.
pub put_within_quota :
    (env : Env) (v w : World) (ctx : Ctx) (input : UploadInput) (p p' : List Fault) (f : File)
    → IsReady v
    → v.owner_quota_bytes ≢ 0
    → v.owner_quota_bytes < 2 ^ 63
    → all_charged (normalize_owner (owner_from_metadata input.metadata)) v.usage < 2 ^ 63
    → f.size < 2 ^ 63
    → put env ctx input v p ≡ (ok f, w, p')
    → let key = normalize_owner (owner_from_metadata input.metadata) in
      (all_charged key w.usage ≡ all_charged key v.usage + f.size)
      × (all_charged key w.usage ≤ v.owner_quota_bytes)
put_within_quota env v w ctx input p p' f ready on q u r e =
    Charged-le-quota v w (owner_from_metadata input.metadata) f.size on q u r
      (Ensures-ok (put-Charged env v ready ctx input) v p (Same-refl v) e)
