-- ===== src/Replication/Restart.antt =====
-- `loadJobs` after a crash.
use astra_store_xion.Base.{
  ℕ, String, ◌≡◌, refl, false, Option, none, some, [], ◌∷◌, Bool-cases, inl, inr, string_key,
  str_eq, ◌∙◌, sym, subst,
}
use astra_store_xion.Base.Dict.{Dict, lookup, lookup-insert, lookup-empty}
use astra_store_xion.Replication.Jobs.{Job, Manager, is_running}
use astra_store_xion.Replication.Manager.{save_reloaded, show_job, reloaded, load_jobs, restart}

-- Each job stands under its id, once.
abbrev pub Filed : Dict String Job → Type 0
Filed [] = Unit
Filed ((k, job) ∷ m) = (job.id ≡ k) × (lookup k m ≡ none) × Filed m

abbrev pub reloaded_found : ℕ → Option Job → Option Job → Option Job
reloaded_found now none old = old
reloaded_found now (some job) old = some (reloaded now job)

reloaded_id : (now : ℕ) (job : Job) → (reloaded now job).id ≡ job.id
reloaded_id now job = elim (Bool-cases (is_running job.status)) [ inl e ↦ rw e | inr e ↦ rw e ]

load_jobs-lookup :
    (now : ℕ) (jobs : Dict String Job) (m : Manager) (id : String)
    → Filed jobs
    → lookup id (load_jobs now jobs m).jobs ≡ reloaded_found now (lookup id jobs) (lookup id m.jobs)
unfolding load_jobs lookup
load_jobs-lookup now [] m id filed = refl
load_jobs-lookup now ((k, job) ∷ rest) m id (own, fresh, filed) =
    let next = show_job (reloaded now job) (save_reloaded now job m) in
    let ih = load_jobs-lookup now rest next id filed in
    let put = lookup-insert k id (reloaded now job) m.jobs in
    let key = reloaded_id now job ∙ own in
    elim (Bool-cases (str_eq k id)) [
      | inl same ↦
          let absent : lookup id rest ≡ none =
            subst (λ i. lookup i rest ≡ none) ((string_key.beq_iff k id).0 same) fresh in
          rw same (ih ∙ simp (absent, key, put, same))
      | inr other ↦ rw other (ih ∙ simp (key, put, other))
    ]

not_running : (now : ℕ) (job : Job) → is_running (reloaded now job).status ≡ false
unfolding is_running
not_running now job = elim (Bool-cases (is_running job.status)) [ inl e ↦ rw e | inr e ↦ rw e e ]

reloaded_cases :
    (now : ℕ) (o : Option Job) (next : Job)
    → reloaded_found now o none ≡ some next
    → is_running next.status ≡ false
reloaded_cases now none next e = absurd (cc)
reloaded_cases now (some job) next e =
    subst (λ j. is_running j.status ≡ false) (some_inj e) (not_running now job)
  where
    some_inj : {x y : Job} → some x ≡ some y → x ≡ y
    some_inj e = cc

pub restart_resumes :
    (now : ℕ) (m : Manager) (id : String)
    → Filed m.saved
    → (lookup id (restart now m).jobs ≡ reloaded_found now (lookup id m.saved) none)
      × ((job : Job) → lookup id (restart now m).jobs ≡ some job → is_running job.status ≡ false)
unfolding restart
restart_resumes now m id filed =
    let found : lookup id (restart now m).jobs ≡ reloaded_found now (lookup id m.saved) none =
      load_jobs-lookup now m.saved (record m { jobs = []; wake = false }) id filed
      ∙ rw lookup-empty in
    (found, λ job e. reloaded_cases now (lookup id m.saved) job (sym found ∙ e))
