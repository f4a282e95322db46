-- ===== src/Gateway/Queue.antt =====
-- What reaches the replication manager: the handlers hand on what succeeded, and only that.
use astra_store_xion.Gateway.Entered.{FiledIn, Entered, queued-Entered}
use astra_store_xion.Base.{
  subst, ℕ, String, Bool, true, false, Option, Bool-cases, List, ◌≡◌, inl, inr, refl, sym,
  string_key,
}
use astra_store_xion.Files.Model.{File, Reader}
use astra_store_xion.Files.World.{Env}
use astra_store_xion.Replication.Jobs.{
  Operation, operation_upload, operation_delete, operation_restore, Manager,
}
use astra_store_xion.Gateway.Model.{
  no_body, file_body, Response, write_json, Gateway, Formats, Request, Occasion, Site, Step,
  replied, goes_on, H, pure, ◌>>=◌, ◌>>◌, final, after, is_marked, enqueue_job,
}
use astra_store_xion.Gateway.Multipart.{Parts, upload}
use astra_store_xion.Gateway.Handlers.{
  Route, get_health, get_ready, list_files, get_capacity, get_quota, list_deleted, get_replication,
  list_sessions, sweep_sessions, post_file, post_restore, get_status, get_file, delete_file,
  retry_job, complete_session, get_session, abort_session, post_purge, start_session, put_chunk,
  serve, is_open, authenticate, routed, handle, download, status, list_handler, capacity_handler,
  quota_handler, list_trash_handler, restore_handler, delete_handler, purge_trash_handler,
  ready_handler, start_upload_handler, get_upload_handler, append_upload_handler,
  complete_upload_handler, abort_upload_handler, list_uploads_handler, sweep_uploads_handler,
}
use astra_store_xion.Gateway.Modest.{
  Refusal, Answer, Modest, modest_rules, pagination-Modest, take_parts-Modest,
  write_error-Refusal_401, reply_if-Modest,
}

-- What a route hands on with its response: an upload or a completed session its new file, a
-- restoration the file that is back, a deletion the id of the path.
abbrev pub Handed : Route → Operation → String → Response → Type 0
Handed (post_file form) operation_upload id r =
    (f : File) × (id ≡ f.id) × (r ≡ write_json 201 (file_body f))
Handed (complete_session s) operation_upload id r =
    (f : File) × (id ≡ f.id) × (r ≡ write_json 201 (file_body f))
Handed (post_restore s) operation_restore id r =
    (f : File) × (id ≡ f.id) × (r ≡ write_json 200 (file_body f))
Handed (delete_file s) operation_delete id r = (id ≡ s) × (r ≡ write_json 204 no_body)
Handed route operation id r = ⊥

-- The routes that hand nothing on; a retry is none of them.
abbrev pub is_quiet : Route → Bool
is_quiet (post_file form) = false
is_quiet (complete_session s) = false
is_quiet (post_restore s) = false
is_quiet (delete_file s) = false
is_quiet (retry_job s) = false
is_quiet route = true

-- What becomes of the replication manager.
pub data Fate (request : Request) (o : Occasion) (route : Route) (before : Option Manager)
    (r : Response) (now : Option Manager) : Type 0 where
  quiet : is_quiet route ≡ true → now ≡ before → Fate request o route before r now
  refused : Refusal r → now ≡ before → Fate request o route before r now
  marked : is_marked request ≡ true → now ≡ before → Fate request o route before r now
  handed_on :
      (operation : Operation) (id : String)
      → is_marked request ≡ false
      → Handed route operation id r
      → Entered o operation id before now
      → Fate request o route before r now

module _ (request : Request) (o : Occasion) (route : Route) where
  pub record Fated (m : H Response) : Type 0 where
    pub at :
        (site : Site)
        → FiledIn site.replicator
        → Fate request o route site.replicator (final (m site).0) (m site).1.replicator

  pub quiet-Fated : (m : H Response) → is_quiet route ≡ true → Modest m → Fated m
  quiet-Fated m q h = record { at = λ site filed. quiet q (h.kept site) }

  module _ {A : Type 0} where
    after-Fated :
        (before : Option Manager) (s : Step A) (f : A → H Response) (site : Site)
        → Answer s
        → site.replicator ≡ before
        → FiledIn before
        → ((a : A) → Fated (f a))
        → Fate request o route before (final (after s f site).0) (after s f site).1.replicator
    after-Fated before (replied r) f site p e filed h = refused p e
    after-Fated before (goes_on a) f site p e filed h =
        rw (sym e) ((h a).at site (subst FiledIn (sym e) filed))

    pub bind-Fated :
        (m : H A) (f : A → H Response) → Modest m → ((a : A) → Fated (f a)) → Fated (m >>= f)
    unfolding ◌>>=◌
    bind-Fated m f p h = record {
      at = λ site filed.
          after-Fated site.replicator (m site).0 f (m site).1 (p.refuses site) (p.kept site) filed
            h;
    }

  -- The end of a handler that hands something on.
  pub enqueue_job-Fated :
      (operation : Operation) (id : String) (r : Response)
      → Handed route operation id r
      → Fated (enqueue_job request o operation id >> pure r)
  unfolding enqueue_job pure ◌>>=◌
  enqueue_job-Fated operation id r h = record {
    at = λ site filed. elim (Bool-cases (is_marked request)) [
      | inl e ↦ marked e (rw e refl)
      | inr e ↦
          handed_on operation id e (rw e h)
            (rw e (queued-Entered o operation id site.replicator filed))
    ];
  }

module _ (env : Env) (fmt : Formats) (g : Gateway) (o : Occasion) (request : Request) where
  list_handler-Modest : Modest (list_handler env fmt g o request)
  unfolding list_handler
  list_handler-Modest = search (modest_rules, pagination-Modest) depth 14

  list_trash_handler-Modest : Modest (list_trash_handler env fmt g o request)
  unfolding list_trash_handler
  list_trash_handler-Modest = search (modest_rules, pagination-Modest) depth 14

  purge_trash_handler-Modest :
      (body : List ℕ) → Modest (purge_trash_handler env fmt g o request body)
  unfolding purge_trash_handler
  purge_trash_handler-Modest body = search modest_rules depth 14

  start_upload_handler-Modest : (body : List ℕ) → Modest (start_upload_handler env fmt g o body)
  unfolding start_upload_handler
  start_upload_handler-Modest body = search modest_rules depth 14

  append_upload_handler-Modest :
      (id : String) (body : Reader) → Modest (append_upload_handler env fmt g o request id body)
  unfolding append_upload_handler
  append_upload_handler-Modest id body = search modest_rules depth 18

  -- The handlers that make one call and answer with its result.
  serve-Modest : (route : Route) → is_quiet route ≡ true → Modest (serve env fmt g o request route)
  unfolding serve ready_handler capacity_handler quota_handler status download list_uploads_handler
      sweep_uploads_handler get_upload_handler abort_upload_handler
  serve-Modest get_health e = search modest_rules
  serve-Modest get_ready e = search modest_rules
  serve-Modest list_files e = list_handler-Modest
  serve-Modest get_capacity e = search modest_rules
  serve-Modest get_quota e = search modest_rules
  serve-Modest list_deleted e = list_trash_handler-Modest
  serve-Modest get_replication e = record { kept = λ site. refl; refuses = λ site. tt }
  serve-Modest list_sessions e = search modest_rules
  serve-Modest sweep_sessions e = search modest_rules
  serve-Modest (get_status id) e = search modest_rules
  serve-Modest (get_file id) e = search modest_rules
  serve-Modest (get_session id) e = search modest_rules
  serve-Modest (abort_session id) e = search modest_rules
  serve-Modest (post_purge body) e = purge_trash_handler-Modest body
  serve-Modest (start_session body) e = start_upload_handler-Modest body
  serve-Modest (put_chunk id body) e = append_upload_handler-Modest id body
  serve-Modest (post_file form) e = absurd (cc)
  serve-Modest (complete_session id) e = absurd (cc)
  serve-Modest (post_restore id) e = absurd (cc)
  serve-Modest (delete_file id) e = absurd (cc)
  serve-Modest (retry_job id) e = absurd (cc)

  upload-Fated :
      (form : Option Parts) → Fated request o (post_file form) (upload env fmt g o request form)
  unfolding upload
  upload-Fated form = bind-Fated request o (post_file form) _ _ (search modest_rules) (λ u.
      bind-Fated request o (post_file form) _ _ (search modest_rules) (λ parts.
        bind-Fated request o (post_file form) _ _ (take_parts-Modest env fmt g o _ _ _ parts) (λ f.
          enqueue_job-Fated request o (post_file form) operation_upload f.id _ (f, refl, refl))))

  complete_upload_handler-Fated :
      (id : String)
      → Fated request o (complete_session id) (complete_upload_handler env fmt g o request id)
  unfolding complete_upload_handler
  complete_upload_handler-Fated id =
      bind-Fated request o (complete_session id) _ _ (search modest_rules) (λ f.
        enqueue_job-Fated request o (complete_session id) operation_upload f.id _ (f, refl, refl))

  restore_handler-Fated :
      (id : String) → Fated request o (post_restore id) (restore_handler env fmt g o request id)
  unfolding restore_handler
  restore_handler-Fated id =
      bind-Fated request o (post_restore id) _ _ (search modest_rules) (λ f.
        enqueue_job-Fated request o (post_restore id) operation_restore f.id _ (f, refl, refl))

  delete_handler-Fated :
      (id : String) → Fated request o (delete_file id) (delete_handler env fmt g o request id)
  unfolding delete_handler
  delete_handler-Fated id =
      bind-Fated request o (delete_file id) _ _ (search modest_rules)
        (λ u. enqueue_job-Fated request o (delete_file id) operation_delete id _ (refl, refl))

  abbrev pub is_retry : Route → Bool
  is_retry (retry_job id) = true
  is_retry route = false

  serve-Fated :
      (route : Route)
      → is_retry route ≡ false
      → Fated request o route (serve env fmt g o request route)
  unfolding serve
  serve-Fated (post_file form) e = upload-Fated form
  serve-Fated (complete_session id) e = complete_upload_handler-Fated id
  serve-Fated (post_restore id) e = restore_handler-Fated id
  serve-Fated (delete_file id) e = delete_handler-Fated id
  serve-Fated (retry_job id) e = absurd (cc)
  serve-Fated route e = quiet-Fated request o route _ refl (serve-Modest route refl)

  guarded-Fated :
      (route : Route)
      → is_retry route ≡ false
      → Fated request o route (authenticate env fmt g o request >> serve env fmt g o request route)
  unfolding authenticate
  guarded-Fated route e =
      bind-Fated request o route _ _ (reply_if-Modest _ _ (write_error-Refusal_401 "unauthorized"))
        (λ u. serve-Fated route e)

  routed-Fated :
      (route : Route)
      → is_retry route ≡ false
      → Fated request o route (routed env fmt g o request route)
  unfolding routed
  routed-Fated route e = elim (Bool-cases (is_open route)) [
    | inl t ↦ rw t (serve-Fated route e)
    | inr t ↦ rw t (guarded-Fated route e)
  ]

  -- For every route but the retry of a job, whatever the store does, where the replication manager
  -- holds each job once, under its id: a response of 400 or above, a request of another site and a
  -- route that changes no file leave the manager as it was. Else the handler hands on the operation on
  -- the file that its response is about, and no other job changes: there is no manager; or the enqueue
  -- is lost, as the request's context has ended, the job cannot be written or the id is blank, and the
  -- jobs in memory are as before; or the job is there already and has not failed, and nothing
  -- changes; or the job is now pending, in memory and on disk, and the worker is woken.
  pub handle-Fate :
      (route : Route) (site : Site)
      → is_retry route ≡ false
      → FiledIn site.replicator
      → let (response, after) = handle env fmt g o request route site in
        Fate request o route site.replicator response after.replicator
  unfolding handle
  handle-Fate route site e filed = (routed-Fated route e).at site filed
