-- ===== src/Gateway/Entered.antt =====
-- What an enqueue of a handler comes to: `enqueueUpload`, `enqueueDelete` and `enqueueRestore` of
-- core/apigateway/handlers.go with `enqueue` of pkg/replication/manager.go.
use astra_store_xion.Base.{
  String, ◌≡◌, ◌≢◌, ◌⊎◌, inl, inr, refl, true, false, Option, none, some, Bool-cases, string_key,
  sym,
}
use astra_store_xion.Base.Dict.{lookup, lookup-insert_self, lookup-insert_ne}
use astra_store_xion.Files.Text.{is_blank, trim_space}
use astra_store_xion.Files.World.{Ctx, live, done}
use astra_store_xion.Replication.Jobs.{
  Operation, Job, Manager, Persist, persisted, not_persisted, persisted_unsynced, job_id_of,
  is_failed, is_pending,
}
use astra_store_xion.Replication.Manager.{
  is_saved, reset, new_job, save_and_publish, enqueue_existing, enqueue_by, enqueue,
}
use astra_store_xion.Replication.Enqueue.{Filed-lookup}
use astra_store_xion.Replication.Restart.{Filed}
use astra_store_xion.Gateway.Model.{Occasion, enqueue_in, queued}

-- The manager, if there is one, holds each job once, under its id.
abbrev pub FiledIn : Option Manager → Type 0
FiledIn none = Unit
FiledIn (some m) = Filed m.jobs

module _ (o : Occasion) (operation : Operation) (id : String) where
  -- The enqueue cannot be made: the request's context has ended, the job is not written, or the id is
  -- blank.
  abbrev pub IsLost : Type 0
  IsLost = (o.later ≡ done) ⊎ ((is_saved o.persist ≡ false) ⊎ (is_blank (trim_space id) ≡ true))

  -- A new job for the operation on the file, or the one that had failed, started again.
  abbrev pub IsFresh : Manager → Job → Type 0
  IsFresh m job =
      (job ≡ new_job o.clock operation id)
      ⊎ ((old : Job) × (lookup (job_id_of operation id) m.jobs ≡ some old)
          × (is_failed old.status ≡ true)
          × (job ≡ reset o.clock old))

  -- From the manager before to the one after.
  pub data Entered : Option Manager → Option Manager → Type 0 where
    no_replicator : Entered none none
    lost : {m n : Manager} → IsLost → n.jobs ≡ m.jobs → Entered (some m) (some n)
    there_already :
        {m : Manager} (job : Job)
        → lookup (job_id_of operation id) m.jobs ≡ some job
        → is_failed job.status ≡ false
        → Entered (some m) (some m)
    entered :
        {m n : Manager} (job : Job)
        → IsFresh m job
        → is_pending job.status ≡ true
        → lookup (job_id_of operation id) n.jobs ≡ some job
        → lookup (job_id_of operation id) n.saved ≡ some job
        → ((other : String)
            → other ≢ job_id_of operation id
            → lookup other n.jobs ≡ lookup other m.jobs)
        → n.wake ≡ true
        → Entered (some m) (some n)

  published :
      (p : Persist) (m : Manager) (job : Job)
      → o.persist ≡ p
      → job.id ≡ job_id_of operation id
      → is_pending job.status ≡ true
      → IsFresh m job
      → Entered (some m) (some (save_and_publish p job m).1)
  unfolding save_and_publish
  published persisted m job e own pending fresh =
      entered job fresh pending (rw (sym own) (lookup-insert_self job.id job m.jobs))
        (rw (sym own) (lookup-insert_self job.id job m.saved))
        (λ other differs.
          lookup-insert_ne job.id other job m.jobs (λ h. differs (rw (sym own) (sym h))))
        refl
  published not_persisted m job e own pending fresh = lost (inr (inl (rw e refl))) refl
  published persisted_unsynced m job e own pending fresh = lost (inr (inl (rw e refl))) refl

  by-Entered :
      (m : Manager) (found : Option Job)
      → Filed m.jobs
      → lookup (job_id_of operation id) m.jobs ≡ found
      → Entered (some m) (some (enqueue_by o.clock o.persist operation id found m).1)
  unfolding enqueue_by enqueue_existing is_pending
  by-Entered m none filed e =
      published o.persist m (new_job o.clock operation id) refl refl refl (inl refl)
  by-Entered m (some job) filed e = elim (Bool-cases (is_failed job.status)) [
    | inl f ↦ rw f (
        published o.persist m (reset o.clock job) refl
          (Filed-lookup (job_id_of operation id) m.jobs job filed e) refl (inr (job, e, f, refl)))
    | inr f ↦ rw f (there_already job e f)
  ]

  in-Entered :
      (c : Ctx) (m : Manager)
      → o.later ≡ c
      → Filed m.jobs
      → Entered (some m) (some (enqueue_in c o operation id m))
  unfolding enqueue
  in-Entered done m e filed = lost (inl e) refl
  in-Entered live m e filed = elim (Bool-cases (is_blank (trim_space id))) [
    | inl b ↦ rw (b, enqueue_in, enqueue) (lost (inr (inr b)) refl)
    | inr b ↦
        rw (b, enqueue_in, enqueue)
          (by-Entered m (lookup (job_id_of operation id) m.jobs) filed refl)
  ]

  pub queued-Entered :
      (before : Option Manager) → FiledIn before → Entered before (queued o operation id before)
  queued-Entered none filed = no_replicator
  queued-Entered (some m) filed = in-Entered o.later m refl filed
