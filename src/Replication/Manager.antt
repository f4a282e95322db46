-- ===== src/Replication/Manager.antt =====
-- The operations of pkg/replication/manager.go: `enqueue`, `Retry`, `Status`, `ProcessPending` in its
-- two critical sections, `loadJobs`. Each takes the clock's reading and what its writes come to.
use astra_store_xion.Base.{
  ℕ, ◌+◌, String, Bool, true, false, not, ◌&&◌, ◌||◌, Option, none, some, List, [], ◌∷◌, ltb,
  str_eq, string_key, if◌then◌else◌,
}
use astra_store_xion.Base.Dict.{Dict, lookup, insert}
use astra_store_xion.Base.Int64.{lt64}
use astra_store_xion.Files.Text.{is_blank, trim_space}
use astra_store_xion.Replication.Jobs.{
  Operation, JobStatus, job_pending, job_running, job_failed, job_completed, Job, Manager, Persist,
  persisted, not_persisted, persisted_unsynced, invalid_config, not_exist, persist_failed, Outcome,
  done, failed, job_id_of, is_failed, is_pending, is_running,
}
use astra_store_xion.Replication.Backoff.{backoff_for}

-- The directory after `persistJob`, and whether it returned nil.
abbrev pub save : Persist → Job → Manager → Manager
save persisted job m = record m { saved = insert job.id job m.saved }
save not_persisted job m = m
save persisted_unsynced job m = record m { saved = insert job.id job m.saved }

abbrev pub is_saved : Persist → Bool
is_saved persisted = true
is_saved not_persisted = false
is_saved persisted_unsynced = false

abbrev pub show_job : Job → Manager → Manager
show_job job m = record m { jobs = insert job.id job m.jobs }

abbrev pub signal : Manager → Manager
signal m = record m { wake = true }

-- A failed or stuck job made new.
abbrev pub reset : ℕ → Job → Job
reset now job = record job {
  status = job_pending;
  attempts = 0;
  last_error = "";
  next_attempt_at = none;
  updated_at = now;
}

abbrev pub new_job : ℕ → Operation → String → Job
new_job now operation file_id = record {
  id = job_id_of operation file_id;
  operation = operation;
  file_id = file_id;
  status = job_pending;
  attempts = 0;
  last_error = "";
  created_at = now;
  updated_at = now;
  next_attempt_at = none;
}

-- Saves the job, and shows it to the worker only if that worked.
unfoldable pub save_and_publish : Persist → Job → Manager → Outcome Job × Manager
save_and_publish p job m =
    if is_saved p
    then (done job, signal (show_job job (save p job m)))
    else (failed persist_failed, save p job m)

unfoldable pub enqueue_existing : ℕ → Persist → Job → Manager → Outcome Job × Manager
enqueue_existing now p job m =
    if is_failed job.status then save_and_publish p (reset now job) m else (done job, m)

unfoldable pub enqueue_by :
    ℕ → Persist → Operation → String → Option Job → Manager → Outcome Job × Manager
enqueue_by now p operation file_id none m = save_and_publish p (new_job now operation file_id) m
enqueue_by now p operation file_id (some job) m = enqueue_existing now p job m

-- `enqueue`, where the context is live
unfoldable pub enqueue : ℕ → Persist → Operation → String → Manager → Outcome Job × Manager
enqueue now p operation file_id m =
    if is_blank (trim_space file_id)
    then (failed invalid_config, m)
    else enqueue_by now p operation file_id (lookup (job_id_of operation file_id) m.jobs) m

-- The jobs that `Retry` takes: the one of that id, else those of that file that are not completed.
abbrev pub is_job_completed : JobStatus → Bool
is_job_completed job_pending = false
is_job_completed job_running = false
is_job_completed job_failed = false
is_job_completed job_completed = true

unfoldable pub jobs_of_file : String → Dict String Job → List Job
jobs_of_file file_id [] = []
jobs_of_file file_id ((k, job) ∷ rest) =
    let others = jobs_of_file file_id rest in
    if str_eq job.file_id file_id && not (is_job_completed job.status) then job ∷ others else others

abbrev pub retried : Option Job → String → Dict String Job → List Job
retried (some job) id jobs = job ∷ []
retried none id jobs = jobs_of_file id jobs

-- Each job with what its write comes to; the first that fails ends the loop.
unfoldable pub retry_all : ℕ → (Job → Persist) → List Job → Manager → Outcome (Unit {0}) × Manager
retry_all now p [] m = (done tt, signal m)
retry_all now p (job ∷ rest) m =
    let next = reset now job in
    let later = retry_all now p rest (show_job next (save (p job) next m)) in
    if is_saved (p job) then later else (failed persist_failed, save (p job) next m)

abbrev pub retry_some : ℕ → (Job → Persist) → List Job → Manager → Outcome (Unit {0}) × Manager
retry_some now p [] m = (failed not_exist, m)
retry_some now p (job ∷ rest) m = retry_all now p (job ∷ rest) m

unfoldable pub retry : ℕ → (Job → Persist) → String → Manager → Outcome (Unit {0}) × Manager
retry now p id m = retry_some now p (retried (lookup id m.jobs) id m.jobs) m

abbrev pub before_next : ℕ → Option ℕ → Bool
before_next now none = false
before_next now (some t) = ltb now t

-- Whether `claimNext` may take a job. The map's order is random, so that any such job may be taken.
unfoldable pub claimable : ℕ → Manager → Job → Bool
claimable now m job =
    (is_pending job.status || is_failed job.status)
    && ltb job.attempts m.max_attempts
    && not (lt64 0 m.backoff_base && before_next now job.next_attempt_at)

abbrev pub running : ℕ → Job → Job
running now job = record job { status = job_running; updated_at = now }

-- `claimNext` once a job is chosen: it is marked in memory before it is saved.
unfoldable pub claim : ℕ → Persist → Job → Manager → Outcome Job × Manager
claim now p job m =
    let next = running now job in
    let shown = save p next (show_job next m) in
    if is_saved p then (done next, shown) else (failed persist_failed, shown)

-- The record of a job after its run, with the error if it failed.
abbrev pub concluded : ℕ → Manager → Option String → Job → Job
concluded now m none job = record job { status = job_completed; last_error = ""; updated_at = now }
concluded now m (some e) job = record job {
  status = job_failed;
  attempts = job.attempts + 1;
  last_error = e;
  next_attempt_at = some (now + backoff_for m.backoff_base m.backoff_max (job.attempts + 1));
  updated_at = now;
}

-- The second critical section of `ProcessPending`, for the job as it is in memory by then.
unfoldable pub finish : ℕ → Persist → Option String → Job → Manager → Manager
finish now p result job m = let next = concluded now m result job in save p next (show_job next m)

-- `loadJobs`: a job that was running is pending again.
abbrev pub reloaded : ℕ → Job → Job
reloaded now job =
    if is_running job.status then record job { status = job_pending; updated_at = now } else job

-- Only such a job is saved again.
abbrev pub save_reloaded : ℕ → Job → Manager → Manager
save_reloaded now job m = record m {
  saved = if is_running job.status then insert job.id (reloaded now job) m.saved else m.saved;
}

unfoldable pub load_jobs : ℕ → Dict String Job → Manager → Manager
load_jobs now [] m = m
load_jobs now ((k, job) ∷ rest) m =
    load_jobs now rest (show_job (reloaded now job) (save_reloaded now job m))

-- A process that starts again has only what the directory holds.
unfoldable pub restart : ℕ → Manager → Manager
restart now m = load_jobs now m.saved (record m { jobs = []; wake = false })

unfoldable pub count_by : (JobStatus → Bool) → Dict String Job → ℕ
count_by f [] = 0
count_by f ((k, job) ∷ rest) = let n = count_by f rest in if f job.status then n + 1 else n
