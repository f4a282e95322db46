-- ===== src/Replication/Enqueue.antt =====
-- `enqueue` and `claimNext` around their writes.
use astra_store_xion.Base.{
  ℕ, String, ◌≡◌, refl, false, Option, none, some, [], ◌∷◌, Bool-cases, inl, inr, string_key, ◌∙◌,
  subst, str_eq,
}
use astra_store_xion.Base.Dict.{Dict, lookup, lookup-insert_self}
use astra_store_xion.Files.Text.{is_blank, trim_space}
use astra_store_xion.Replication.Jobs.{
  Operation, job_completed, Job, Manager, Persist, persisted, not_persisted, persisted_unsynced,
  Outcome, done, failed, job_id_of, is_failed, is_pending,
}
use astra_store_xion.Replication.Manager.{
  is_saved, reset, new_job, save_and_publish, enqueue_existing, enqueue_by, enqueue, claimable,
  claim, running,
}
use astra_store_xion.Replication.Restart.{Filed}

-- A success has the job in memory and on disk; an error leaves the memory as it was.
abbrev pub Durable : String → Manager → Outcome Job × Manager → Type 0
Durable id m (done job, m') = (lookup id m'.jobs ≡ some job) × (lookup id m'.saved ≡ some job)
Durable id m (failed e, m') = m'.jobs ≡ m.jobs

pub Filed-lookup :
    (k : String) (m : Dict String Job) (job : Job) → Filed m → lookup k m ≡ some job → job.id ≡ k
unfolding lookup
Filed-lookup k [] job h e = absurd (cc)
Filed-lookup k ((j, other) ∷ m) job (own, fresh, filed) e = elim (Bool-cases (str_eq j k)) [
  | inl same ↦
      let found : some other ≡ some job = rw same at e in
      subst (λ x. x.id ≡ k) (some_inj found) (own ∙ (string_key.beq_iff j k).0 same)
  | inr differ ↦ Filed-lookup k m job filed (rw differ at e)
]
  where
    some_inj : {x y : Job} → some x ≡ some y → x ≡ y
    some_inj e = cc

save_and_publish-Durable :
    (p : Persist) (job : Job) (m : Manager) → Durable job.id m (save_and_publish p job m)
unfolding save_and_publish
save_and_publish-Durable persisted job m =
    (lookup-insert_self job.id job m.jobs, lookup-insert_self job.id job m.saved)
save_and_publish-Durable not_persisted job m = refl
save_and_publish-Durable persisted_unsynced job m = refl

enqueue_by-Durable :
    (now : ℕ) (p : Persist) (operation : Operation) (file_id : String) (m : Manager)
    (o : Option Job)
    → Filed m.jobs
    → lookup (job_id_of operation file_id) m.jobs ≡ o
    → lookup (job_id_of operation file_id) m.saved ≡ o
    → Durable (job_id_of operation file_id) m (enqueue_by now p operation file_id o m)
unfolding enqueue_by enqueue_existing
enqueue_by-Durable now p operation file_id m none filed there backed =
    save_and_publish-Durable p (new_job now operation file_id) m
enqueue_by-Durable now p operation file_id m (some job) filed there backed =
    let own = Filed-lookup (job_id_of operation file_id) m.jobs job filed there in
    elim (Bool-cases (is_failed job.status)) [
      | inl e ↦ rw e (
          subst (λ id. Durable id m (save_and_publish p (reset now job) m)) own
            (save_and_publish-Durable p (reset now job) m))
      | inr e ↦ rw e (there, backed)
    ]

-- Where the memory holds each job once, under its id, and memory and disk agree on the job: an
-- enqueue that succeeds has the job that it returns in memory and on disk, and one that fails leaves
-- the memory as it was, so that the worker never runs a job that a crash would forget.
pub enqueue-Durable :
    (now : ℕ) (p : Persist) (operation : Operation) (file_id : String) (m : Manager)
    → Filed m.jobs
    → lookup (job_id_of operation file_id) m.saved ≡ lookup (job_id_of operation file_id) m.jobs
    → Durable (job_id_of operation file_id) m (enqueue now p operation file_id m)
unfolding enqueue
enqueue-Durable now p operation file_id m filed backed =
    elim (Bool-cases (is_blank (trim_space file_id))) [
      | inl e ↦ rw e refl
      | inr e ↦ rw e (
          enqueue_by-Durable now p operation file_id m (lookup (job_id_of operation file_id) m.jobs)
            filed refl backed)
    ]

-- Once an operation on a file is completed, a later request for the same operation on the same file
-- changes nothing and wakes no worker: the completed job is returned.
pub enqueue_completed :
    (now : ℕ) (p : Persist) (operation : Operation) (file_id : String) (m : Manager) (job : Job)
    → is_blank (trim_space file_id) ≡ false
    → lookup (job_id_of operation file_id) m.jobs ≡ some job
    → job.status ≡ job_completed
    → enqueue now p operation file_id m ≡ (done job, m)
unfolding enqueue enqueue_by enqueue_existing is_failed
enqueue_completed now p operation file_id m job named there finished = simp (named, there, finished)

-- A claim whose write fails leaves the job marked as running in memory, where no later claim takes it.
pub claim_unsaved :
    (now later : ℕ) (p : Persist) (job : Job) (m : Manager)
    → is_saved p ≡ false
    → (lookup job.id (claim now p job m).1.jobs ≡ some (running now job))
      × (claimable later (claim now p job m).1 (running now job) ≡ false)
unfolding claim claimable is_pending is_failed
claim_unsaved now later persisted job m lost = absurd (cc)
claim_unsaved now later not_persisted job m lost =
    (lookup-insert_self job.id (running now job) m.jobs, refl)
claim_unsaved now later persisted_unsynced job m lost =
    (lookup-insert_self job.id (running now job) m.jobs, refl)
