-- ===== src/Files/Account/Quotas.antt =====
-- The quota check, once the index is loaded.
use astra_store_xion.Base.{
  ℕ, ◌+◌, ◌^◌, ◌≤◌, ◌<◌, String, ◌≡◌, ◌≢◌, Bool, true, false, ◌||◌, ◌&&◌, not, arith, ◌==◌, inl,
  inr, Bool-cases, List, [],
}
use astra_store_xion.Base.Int64.{Int64, is_neg, sub64, lt64_nonneg, sub64_le}
use astra_store_xion.Files.Text.{normalize_owner}
use astra_store_xion.Files.Usage.{total}
use astra_store_xion.Files.World.{Env, World, Fault, ok, loaded}
use astra_store_xion.Files.Io.{steps}
use astra_store_xion.Files.Io.Quiet.{
  Same, Same-trans, Quiet-syscall, Quiet-gets, Quiet-pure, Quiet-raise_if,
}
use astra_store_xion.Files.Io.Ensures.{
  Ensures, Ensures-bind, Ensures-pure, Ensures-gets, Ensures-Quiet, Ensures-raise_if, Ensures-if,
  Ensures-given, Ensures-weaken, Accounts,
}
use astra_store_xion.Files.Account.{
  ensure_usage_locked, owner_usage_locked, enforce_quota_unlocked, over_quota, is_paused,
  capacity_unlocked, writes_paused_unlocked,
}

-- The index has been loaded without an error.
pub record IsReady (v : World) : Type 0 where
  pub load : v.load ≡ loaded (ok tt)
  pub valid : v.usage_valid ≡ true

-- What a check that passed says: the quota is off, or the incoming bytes fit below it.
abbrev pub Within : World → String → Int64 → Type 0
Within v owner n =
    v.owner_quota_bytes ≢ 0
    → over_quota v.owner_quota_bytes (total (normalize_owner owner) v.usage) n ≡ false

pub over_quota_sound :
    (quota used n : ℕ)
    → quota < 2 ^ 63
    → used < 2 ^ 63
    → n < 2 ^ 63
    → over_quota quota used n ≡ false
    → used + n ≤ quota
over_quota_sound quota used n p q r h =
    ground
      (arith, lt64_nonneg quota used p q, sub64_le quota used p, lt64_nonneg (sub64 quota used) n)

module _ (env : Env) (v : World) (ready : IsReady v) where
  pub Same-Accounts : Accounts (Same v)
  Same-Accounts = record { keeps = λ s x. Same-trans x s }

  pub ensure-Same : Ensures (Same v) (ensure_usage_locked env) (λ a w. Same v w)
  unfolding ensure_usage_locked
  ensure-Same = record {
    at = λ w p s. let e : w.load ≡ loaded (ok tt) = cc (s.load, ready.load) in simp e s;
  }

  owner_usage-Same :
      (owner : String)
      → Ensures
          (Same v)
          (owner_usage_locked env owner)
          (λ used w. Same v w × (used ≡ total (normalize_owner owner) v.usage))
  unfolding owner_usage_locked
  owner_usage-Same owner = Ensures-bind (Same v) _ _ _ _ ensure-Same (λ a.
      Ensures-weaken (Same v) _ _ _ (λ u w x. (x.0, cc (x.1, x.0.usage))) (Ensures-gets (Same v) _))

  pub enforce-Within :
      (owner : String) (n : Int64)
      → Ensures (Same v) (enforce_quota_unlocked env owner n) (λ a w. Same v w × Within v owner n)
  unfolding enforce_quota_unlocked
  enforce-Within owner n =
      let P = Same v in
      let Q = λ (a : Unit {0}) (w : World). Same v w × Within v owner n in
      Ensures-bind P (λ quota w. P w × (quota ≡ v.owner_quota_bytes)) Q _ _
        (Ensures-weaken P _ _ _ (λ a w x. (x.0, cc (x.1, x.0.owner_quota))) (Ensures-gets P _))
        λ quota. Ensures-given P Q _ λ e.
          Ensures-if P Q (quota == 0) _ _
            (λ off. Ensures-pure P Q tt (λ w s. (s, λ ne. absurd (ne (ground arith)))))
            λ limited.
              Ensures-bind P (λ a w. P w) Q _ _
                (Ensures-Quiet P Same-Accounts _ (Quiet-raise_if _ _))
                λ _.
                  Ensures-bind P (λ used w. P w × (used ≡ total (normalize_owner owner) v.usage)) Q
                    _ _ (owner_usage-Same owner)
                    λ used. Ensures-given P Q _ λ f.
                      Ensures-weaken P _ Q _ (λ a w x. (x.0, λ ne. rw (← e, ← f) x.1))
                        (Ensures-raise_if P (over_quota quota used n) _)

  capacity-Same : Ensures (Same v) (capacity_unlocked env) (λ a w. Same v w)
  unfolding capacity_unlocked
  capacity-Same =
      Ensures-bind (Same v) (λ a w. Same v w) _ _ _ (Ensures-Quiet _ Same-Accounts _ Quiet-syscall)
        λ _.
          Ensures-bind (Same v) (λ a w. Same v w) _ _ _
            (Ensures-Quiet _ Same-Accounts _ (Quiet-gets _))
            λ stat.
              Ensures-bind (Same v) (λ a w. Same v w) _ _ _ ensure-Same
                (λ _. Ensures-Quiet _ Same-Accounts _ (Quiet-gets _))

  pub writes_paused-Same : Ensures (Same v) (writes_paused_unlocked env) (λ a w. Same v w)
  unfolding writes_paused_unlocked
  writes_paused-Same =
      Ensures-bind (Same v) (λ a w. Same v w) _ _ _ (Ensures-Quiet _ Same-Accounts _ (Quiet-gets _))
        λ percent.
          Ensures-if _ _ (percent == 0) _ _ (λ e. Ensures-Quiet _ Same-Accounts _ (Quiet-pure _))
            λ e.
              Ensures-bind (Same v) (λ a w. Same v w) _ _ _ capacity-Same
                (λ c. Ensures-Quiet _ Same-Accounts _ (Quiet-pure _))

-- Whether the quota check lets the bytes in.
abbrev pub admits : World → String → Int64 → Bool
admits v owner n =
    v.owner_quota_bytes == 0
    || (not (is_neg n)
        && not (over_quota v.owner_quota_bytes (total (normalize_owner owner) v.usage) n))

module _ (env : Env) (w : World) (p : List Fault) (ready : IsReady w) where
  pub ensure_runs : ensure_usage_locked env w p ≡ (ok tt, w, p)
  unfolding ensure_usage_locked
  ensure_runs = simp ready.load

  owner_usage_runs :
      (owner : String)
      → owner_usage_locked env owner w p ≡ (ok (total (normalize_owner owner) w.usage), w, p)
  unfolding owner_usage_locked steps
  owner_usage_runs owner = simp ensure_runs

  pub enforce_runs :
      (owner : String) (n : Int64)
      → admits w owner n ≡ true
      → enforce_quota_unlocked env owner n w p ≡ (ok tt, w, p)
  unfolding enforce_quota_unlocked steps
  enforce_runs owner n h = elim (Bool-cases (w.owner_quota_bytes == 0)) [
    | inl off ↦ rw off
    | inr on ↦
        let nonneg : is_neg n ≡ false = ground arith in
        let fits : over_quota w.owner_quota_bytes (total (normalize_owner owner) w.usage) n
            ≡ false =
          ground arith in
        rw on (simp (nonneg, owner_usage_runs owner, fits))
  ]

module _ (env : Env) (w : World) (ready : IsReady w) where
  -- The pause is decided by the file system alone.
  pub writes_paused_runs :
      writes_paused_unlocked env w []
      ≡ (ok (is_paused w.pause_at_percent (env.stat_fs w.disk)), w, [])
  unfolding writes_paused_unlocked capacity_unlocked steps
  writes_paused_runs = elim (Bool-cases (w.pause_at_percent == 0)) [
    | inl off ↦ let zero_percent : w.pause_at_percent ≡ 0 = ground arith in simp (zero_percent)
    | inr on ↦ rw on (simp (ensure_runs env w [] ready))
  ]
