-- ===== src/Replication/Tests.antt =====
-- The theorems on replication at concrete inputs.
use astra_store_xion.Base.{
  ◌<◌, String, ◌≡◌, refl, false, Option, some, none, [], ◌∷◌, arith, string_key,
}
use astra_store_xion.Base.Dict.{lookup}
use astra_store_xion.Replication.Jobs.{
  operation_upload, operation_delete, job_pending, job_running, job_completed, Job, Manager,
  persisted, job_id_of, is_running,
}
use astra_store_xion.Replication.Backoff.{backoff_for, backoff_for_lem}
use astra_store_xion.Replication.Manager.{enqueue, finish, restart}
use astra_store_xion.Replication.Steps.{System, Step, here, next, finishes, restarts}
use astra_store_xion.Replication.Limits.{Bounded}
use astra_store_xion.Replication.Attempts.{Steps-Bounded}
use astra_store_xion.Replication.Restart.{restart_resumes}
use astra_store_xion.Replication.Enqueue.{Durable, enqueue-Durable}

backoff_for_lem_example : backoff_for 5 60 4 ≡ 40
backoff_for_lem_example = backoff_for_lem 5 60 4 (omega arith) (omega arith)

abbrev job_at : String → Job
job_at id = record {
  id = id;
  operation = operation_delete;
  file_id = "f";
  status = job_running;
  attempts = 1;
  last_error = "";
  created_at = 1;
  updated_at = 2;
  next_attempt_at = none;
}

abbrev manager_example : Manager
manager_example = record {
  jobs = ("delete-f", job_at "delete-f") ∷ [];
  saved = ("delete-f", job_at "delete-f") ∷ [];
  max_attempts = 2;
  backoff_base = 5;
  backoff_max = 60;
  wake = false;
}

abbrev system_example : System
system_example = record { manager = manager_example; in_flight = some "delete-f" }

abbrev after_run : System
after_run = record {
  manager = finish 9 persisted (some "refused") (job_at "delete-f") manager_example;
  in_flight = none;
}

run_fails : Step system_example after_run
unfolding lookup
run_fails = finishes 9 persisted (some "refused") "delete-f" (job_at "delete-f") refl refl

Steps-Bounded_example :
    Bounded 2 (record { manager = restart 10 after_run.manager; in_flight = none })
unfolding lookup
Steps-Bounded_example =
    Steps-Bounded 2 (omega arith) system_example
      (record { manager = restart 10 after_run.manager; in_flight = none })
      (next (next here run_fails) (restarts 10))
      (record {
        setting = refl;
        jobs = (omega arith, tt);
        saved = (omega arith, tt);
        may_fail = λ job e. only job e;
      })
  where
    only :
        (job : Job) → ◌≡◌ {A = Option Job} (some (job_at "delete-f")) (some job) → job.attempts < 2
    only job e = ground arith

restart_resumes_example :
    (lookup "delete-f" (restart 3 manager_example).jobs
      ≡ some (record (job_at "delete-f") { status = job_pending; updated_at = 3 }))
    × ((job : Job)
        → lookup "delete-f" (restart 3 manager_example).jobs ≡ some job
        → is_running job.status ≡ false)
unfolding lookup is_running
restart_resumes_example = restart_resumes 3 manager_example "delete-f" (refl, refl, tt)

enqueue-Durable_example :
    Durable "upload-g" manager_example (enqueue 4 persisted operation_upload "g" manager_example)
unfolding lookup job_id_of
enqueue-Durable_example =
    enqueue-Durable 4 persisted operation_upload "g" manager_example (refl, refl, tt) refl

abbrev done_job : Job
done_job = record (job_at "delete-f") { status = job_completed }

abbrev done_manager : Manager
done_manager = record manager_example { jobs = ("delete-f", done_job) ∷ [] }
