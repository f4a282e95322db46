-- ===== src/Replication/Steps.antt =====
-- The steps of a replication manager with its worker: the critical sections of
-- pkg/replication/manager.go, and a restart of the process.
use astra_store_xion.Base.{ℕ, String, ◌≡◌, true, Option, none, some, string_key, if◌then◌else◌}
use astra_store_xion.Base.Dict.{lookup}
use astra_store_xion.Replication.Jobs.{Operation, Job, Manager, Persist}
use astra_store_xion.Replication.Manager.{
  is_saved, enqueue, retry, claimable, claim, finish, restart,
}

-- The manager, and the job that its worker runs.
pub record System : Type 0 where
  pub manager : Manager
  pub in_flight : Option String

abbrev pub claimed_id : Persist → Job → Option String
claimed_id p job = if is_saved p then some job.id else none

-- The critical sections, in any order that the lock lets happen; the process may also start again.
pub data Step (s : System) : System → Type 0 where
  enqueues :
      (now : ℕ) (p : Persist) (operation : Operation) (file_id : String)
      → Step s (record s { manager = (enqueue now p operation file_id s.manager).1 })
  retries :
      (now : ℕ) (p : Job → Persist) (id : String)
      → Step s (record s { manager = (retry now p id s.manager).1 })
  claims :
      (now : ℕ) (p : Persist) (id : String) (job : Job)
      → s.in_flight ≡ none
      → lookup id s.manager.jobs ≡ some job
      → claimable now s.manager job ≡ true
      → Step s (record { manager = (claim now p job s.manager).1; in_flight = claimed_id p job })
  finishes :
      (now : ℕ) (p : Persist) (result : Option String) (id : String) (job : Job)
      → s.in_flight ≡ some id
      → lookup id s.manager.jobs ≡ some job
      → Step s (record { manager = finish now p result job s.manager; in_flight = none })
  restarts : (now : ℕ) → Step s (record { manager = restart now s.manager; in_flight = none })

pub data Steps (s : System) : System → Type 0 where
  here : Steps s s
  next : {t u : System} → Steps s t → Step t u → Steps s u
