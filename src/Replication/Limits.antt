-- ===== src/Replication/Limits.antt =====
-- The bound on the attempts of the jobs, where one job is saved or shown.
use astra_store_xion.Base.{
  ℕ, ◌≤◌, ◌<◌, String, ◌≡◌, Bool, true, false, Option, none, some, [], ◌∷◌, arith, Bool-cases, inl,
  inr, str_eq, string_key, if◌then◌else◌,
}
use astra_store_xion.Base.Dict.{Dict, lookup, insert, lookup-insert}
use astra_store_xion.Replication.Jobs.{Job, Persist, persisted, not_persisted, persisted_unsynced}
use astra_store_xion.Replication.Manager.{save, show_job, signal}
use astra_store_xion.Replication.Steps.{System}

abbrev pub Every : (Job → Type 0) → Dict String Job → Type 0
Every P [] = Unit
Every P ((k, job) ∷ m) = P job × Every P m

module _ (P : Job → Type 0) where
  pub Every-insert :
      (k : String) (job : Job) (m : Dict String Job) → P job → Every P m → Every P (insert k job m)
  unfolding insert
  Every-insert k job [] p h = (p, tt)
  Every-insert k job ((j, other) ∷ m) p h = elim (Bool-cases (str_eq j k)) [
    | inl e ↦ rw e (p, h.1)
    | inr e ↦ rw e (
        place (string_key.before k j) ((k, job) ∷ (j, other) ∷ m) ((j, other) ∷ insert k job m)
          (p, (h.0, h.1)) (h.0, Every-insert k job m p h.1))
  ]
    where
      place :
          (b : Bool) (x y : Dict String Job) → Every P x → Every P y → Every P (if b then x else y)
      place true x y f g = f
      place false x y f g = g

-- The attempts of a job are within the limit.
abbrev pub Within : ℕ → Job → Type 0
Within limit job = job.attempts ≤ limit

-- The job that runs may fail once more.
abbrev pub MayFail : ℕ → Option String → Dict String Job → Type 0
MayFail limit none jobs = Unit
MayFail limit (some id) jobs = (job : Job) → lookup id jobs ≡ some job → job.attempts < limit

pub record Bounded (limit : ℕ) (s : System) : Type 0 where
  pub setting : s.manager.max_attempts ≡ limit
  pub jobs : Every (Within limit) s.manager.jobs
  pub saved : Every (Within limit) s.manager.saved
  pub may_fail : MayFail limit s.in_flight s.manager.jobs

module _ (limit : ℕ) where
  MayFail-insert :
      (flight : Option String) (k : String) (job : Job) (jobs : Dict String Job)
      → job.attempts < limit
      → MayFail limit flight jobs
      → MayFail limit flight (insert k job jobs)
  MayFail-insert none k job jobs small h = tt
  MayFail-insert (some id) k job jobs small h = λ j e. elim (Bool-cases (str_eq k id)) [
    | inl same ↦
        let found : some job ≡ some j = rw (lookup-insert k id job jobs, same) at e in
        ground (arith, small)
    | inr other ↦ h j (rw (lookup-insert k id job jobs, other) at e)
  ]

  pub saved-Bounded :
      (p : Persist) (job : Job) (s : System)
      → Within limit job
      → Bounded limit s
      → Bounded limit (record s { manager = save p job s.manager })
  saved-Bounded persisted job s small b = record {
    setting = b.setting;
    jobs = b.jobs;
    saved = Every-insert (Within limit) job.id job s.manager.saved small b.saved;
    may_fail = b.may_fail;
  }
  saved-Bounded not_persisted job s small b = b
  saved-Bounded persisted_unsynced job s small b = record {
    setting = b.setting;
    jobs = b.jobs;
    saved = Every-insert (Within limit) job.id job s.manager.saved small b.saved;
    may_fail = b.may_fail;
  }

  pub shown-Bounded :
      (job : Job) (s : System)
      → job.attempts < limit
      → Bounded limit s
      → Bounded limit (record s { manager = show_job job s.manager })
  shown-Bounded job s small b = record {
    setting = b.setting;
    jobs = Every-insert (Within limit) job.id job s.manager.jobs (omega (arith, small)) b.jobs;
    saved = b.saved;
    may_fail = MayFail-insert s.in_flight job.id job s.manager.jobs small b.may_fail;
  }

  pub signal-Bounded :
      (s : System) → Bounded limit s → Bounded limit (record s { manager = signal s.manager })
  signal-Bounded s b = record {
    setting = b.setting;
    jobs = b.jobs;
    saved = b.saved;
    may_fail = b.may_fail;
  }
