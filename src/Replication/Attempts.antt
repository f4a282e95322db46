-- ===== src/Replication/Attempts.antt =====
-- The bound on the attempts of the jobs, along the steps.
use astra_store_xion.Base.{
  ℕ, ◌≤◌, ◌<◌, String, ◌≡◌, true, Option, none, some, List, [], ◌∷◌, arith, Bool-cases, inl, inr,
  string_key, subst, sym,
}
use astra_store_xion.Base.Dict.{Dict, lookup, insert, lookup-insert_self}
use astra_store_xion.Files.Text.{is_blank, trim_space}
use astra_store_xion.Replication.Jobs.{
  job_pending, Operation, Job, Manager, Persist, persisted, not_persisted, persisted_unsynced,
  job_id_of, is_failed, is_running,
}
use astra_store_xion.Replication.Manager.{
  save_reloaded, save, is_saved, show_job, reset, new_job, save_and_publish, enqueue_existing,
  enqueue_by, enqueue, retried, retry_all, retry_some, retry, claimable, claim, running, concluded,
  finish, reloaded, load_jobs, restart,
}
use astra_store_xion.Replication.Steps.{
  System, claimed_id, Step, enqueues, retries, claims, finishes, restarts, Steps, here, next,
}
use astra_store_xion.Replication.Limits.{
  Every, Every-insert, Within, MayFail, Bounded, saved-Bounded, shown-Bounded, signal-Bounded,
}

module _ (limit : ℕ) (positive : 1 ≤ limit) where
  save_and_publish-Bounded :
      (p : Persist) (job : Job) (s : System)
      → job.attempts < limit
      → Bounded limit s
      → Bounded limit (record s { manager = (save_and_publish p job s.manager).1 })
  unfolding save_and_publish
  save_and_publish-Bounded persisted job s small b = signal-Bounded limit _ (
      shown-Bounded limit job _ small
        (saved-Bounded limit persisted job s (omega (arith, small)) b))
  save_and_publish-Bounded not_persisted job s small b =
      saved-Bounded limit not_persisted job s (omega (arith, small)) b
  save_and_publish-Bounded persisted_unsynced job s small b =
      saved-Bounded limit persisted_unsynced job s (omega (arith, small)) b

  enqueue_by-Bounded :
      (now : ℕ) (p : Persist) (operation : Operation) (file_id : String) (o : Option Job)
      (s : System)
      → Bounded limit s
      → Bounded limit (record s { manager = (enqueue_by now p operation file_id o s.manager).1 })
  unfolding enqueue_by enqueue_existing
  enqueue_by-Bounded now p operation file_id none s b =
      save_and_publish-Bounded p (new_job now operation file_id) s (omega (arith, positive)) b
  enqueue_by-Bounded now p operation file_id (some job) s b =
      elim (Bool-cases (is_failed job.status)) [
        | inl e ↦ rw e (save_and_publish-Bounded p (reset now job) s (omega (arith, positive)) b)
        | inr e ↦ rw e b
      ]

  enqueue-Bounded :
      (now : ℕ) (p : Persist) (operation : Operation) (file_id : String) (s : System)
      → Bounded limit s
      → Bounded limit (record s { manager = (enqueue now p operation file_id s.manager).1 })
  unfolding enqueue
  enqueue-Bounded now p operation file_id s b = elim (Bool-cases (is_blank (trim_space file_id))) [
    | inl e ↦ rw e b
    | inr e ↦ rw e (
        enqueue_by-Bounded now p operation file_id
          (lookup (job_id_of operation file_id) s.manager.jobs) s b)
  ]

  retry_all-Bounded :
      (now : ℕ) (p : Job → Persist) (jobs : List Job) (s : System)
      → Bounded limit s
      → Bounded limit (record s { manager = (retry_all now p jobs s.manager).1 })
  unfolding retry_all
  retry_all-Bounded now p [] s b = signal-Bounded limit s b
  retry_all-Bounded now p (job ∷ rest) s b =
      let stored = saved-Bounded limit (p job) (reset now job) s (omega arith) b in
      elim (Bool-cases (is_saved (p job))) [
        | inl e ↦ rw e (
            retry_all-Bounded now p rest
              (record s {
                manager = show_job (reset now job) (save (p job) (reset now job) s.manager);
              })
              (shown-Bounded limit (reset now job) _ (omega (arith, positive)) stored))
        | inr e ↦ rw e stored
      ]

  retry_some-Bounded :
      (now : ℕ) (p : Job → Persist) (jobs : List Job) (s : System)
      → Bounded limit s
      → Bounded limit (record s { manager = (retry_some now p jobs s.manager).1 })
  retry_some-Bounded now p [] s b = b
  retry_some-Bounded now p (job ∷ rest) s b = retry_all-Bounded now p (job ∷ rest) s b

  reflight :
      (m : Manager) (f g : Option String)
      → Bounded limit (record { manager = m; in_flight = f })
      → MayFail limit g m.jobs
      → Bounded limit (record { manager = m; in_flight = g })
  reflight m f g b h = record { setting = b.setting; jobs = b.jobs; saved = b.saved; may_fail = h }

  marked-Bounded :
      (now : ℕ) (p : Persist) (job : Job) (s : System)
      → job.attempts < limit
      → Bounded limit s
      → Bounded limit
          (record s { manager = save p (running now job) (show_job (running now job) s.manager) })
  marked-Bounded now p job s fewer b =
      saved-Bounded limit p (running now job)
        (record s { manager = show_job (running now job) s.manager }) (omega (arith, fewer))
        (shown-Bounded limit (running now job) s fewer b)

  own_MayFail :
      (job : Job) (jobs : Dict String Job)
      → job.attempts < limit
      → MayFail limit (some job.id) (insert job.id job jobs)
  own_MayFail job jobs fewer j e =
      let found : some job ≡ some j = rw (lookup-insert_self job.id job jobs) at e in
      ground (arith, fewer)

  claim-Bounded :
      (now : ℕ) (p : Persist) (job : Job) (s : System)
      → claimable now s.manager job ≡ true
      → Bounded limit s
      → Bounded limit
          (record { manager = (claim now p job s.manager).1; in_flight = claimed_id p job })
  unfolding claim claimable
  claim-Bounded now persisted job s may b =
      let fewer : job.attempts < limit = rw (sym b.setting) (ground (arith, may)) in
      reflight _ s.in_flight (some job.id) (marked-Bounded now persisted job s fewer b)
        (own_MayFail (running now job) s.manager.jobs fewer)
  claim-Bounded now not_persisted job s may b =
      let fewer : job.attempts < limit = rw (sym b.setting) (ground (arith, may)) in
      reflight _ s.in_flight none (marked-Bounded now not_persisted job s fewer b) tt
  claim-Bounded now persisted_unsynced job s may b =
      let fewer : job.attempts < limit = rw (sym b.setting) (ground (arith, may)) in
      reflight _ s.in_flight none (marked-Bounded now persisted_unsynced job s fewer b) tt

  -- A job that is at most at the limit may be shown while nothing runs.
  rested-Bounded :
      (p : Persist) (job : Job) (m : Manager) (f : Option String)
      → Within limit job
      → Bounded limit (record { manager = m; in_flight = f })
      → Bounded limit (record { manager = save p job (show_job job m); in_flight = none })
  rested-Bounded p job m f small b =
      saved-Bounded limit p job (record { manager = show_job job m; in_flight = none }) small
        (record {
          setting = b.setting;
          jobs = Every-insert (Within limit) job.id job m.jobs small b.jobs;
          saved = b.saved;
          may_fail = tt;
        })

  concluded-Within :
      (now : ℕ) (m : Manager) (result : Option String) (job : Job)
      → job.attempts < limit
      → Within limit (concluded now m result job)
  concluded-Within now m none job fewer = omega (arith, fewer)
  concluded-Within now m (some e) job fewer = omega (arith, fewer)

  finish-Bounded :
      (now : ℕ) (p : Persist) (result : Option String) (id : String) (job : Job) (s : System)
      → s.in_flight ≡ some id
      → lookup id s.manager.jobs ≡ some job
      → Bounded limit s
      → Bounded limit (record { manager = finish now p result job s.manager; in_flight = none })
  unfolding finish
  finish-Bounded now p result id job s busy there b =
      let fewer : MayFail limit (some id) s.manager.jobs =
        subst (λ f. MayFail limit f s.manager.jobs) busy b.may_fail in
      rested-Bounded p (concluded now s.manager result job) s.manager s.in_flight
        (concluded-Within now s.manager result job (fewer job there)) b

  reloaded-Within : (now : ℕ) (job : Job) → Within limit job → Within limit (reloaded now job)
  reloaded-Within now job small = elim (Bool-cases (is_running job.status)) [
    | inl e ↦ rw e small
    | inr e ↦ rw e small
  ]

  reloaded-Bounded :
      (now : ℕ) (job : Job) (m : Manager)
      → Within limit job
      → Bounded limit (record { manager = m; in_flight = none })
      → Bounded limit (record {
        manager = show_job (reloaded now job) (save_reloaded now job m);
        in_flight = none;
      })
  reloaded-Bounded now job m small b =
      let within = reloaded-Within now job small in
      record {
        setting = b.setting;
        jobs =
            Every-insert (Within limit) (reloaded now job).id (reloaded now job) m.jobs within
              b.jobs;
        saved = elim (Bool-cases (is_running job.status)) [
          | inl e ↦ rw e (
              Every-insert (Within limit) job.id
                (record job { status = job_pending; updated_at = now }) m.saved small b.saved)
          | inr e ↦ rw e b.saved
        ];
        may_fail = tt;
      }

  load_jobs-Bounded :
      (now : ℕ) (jobs : Dict String Job) (m : Manager)
      → Every (Within limit) jobs
      → Bounded limit (record { manager = m; in_flight = none })
      → Bounded limit (record { manager = load_jobs now jobs m; in_flight = none })
  unfolding load_jobs
  load_jobs-Bounded now [] m h b = b
  load_jobs-Bounded now ((k, job) ∷ rest) m h b =
      load_jobs-Bounded now rest _ h.1 (reloaded-Bounded now job m h.0 b)

  Step-Bounded : (s t : System) → Step s t → Bounded limit s → Bounded limit t
  unfolding retry restart
  Step-Bounded s _ (enqueues now p operation file_id) b =
      enqueue-Bounded now p operation file_id s b
  Step-Bounded s _ (retries now p id) b =
      retry_some-Bounded now p (retried (lookup id s.manager.jobs) id s.manager.jobs) s b
  Step-Bounded s _ (claims now p id job idle there may) b = claim-Bounded now p job s may b
  Step-Bounded s _ (finishes now p result id job busy there) b =
      finish-Bounded now p result id job s busy there b
  Step-Bounded s _ (restarts now) b =
      load_jobs-Bounded now s.manager.saved _ b.saved
        (record { setting = b.setting; jobs = tt; saved = b.saved; may_fail = tt })

  -- In every order of calls, runs and restarts, with every outcome of the writes, a job's count of
  -- attempts never passes the limit, neither in memory nor on disk, where a system starts within it
  -- and the limit is at least one.
  pub Steps-Bounded : (s t : System) → Steps s t → Bounded limit s → Bounded limit t
  Steps-Bounded s _ here b = b
  Steps-Bounded s _ (next {t} before last) b = Step-Bounded t _ last (Steps-Bounded s t before b)
