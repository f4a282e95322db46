-- ===== src/Gateway/Modest.antt =====
-- Handlers up to the point where something is handed on: they leave the replication manager alone,
-- and an early answer of theirs is a refusal.
use astra_store_xion.Base.{
  ℕ, ◌≤◌, String, Bool, true, false, Option, none, some, ◌≡◌, refl, ◌∙◌, arith, if◌then◌else◌,
}
use astra_store_xion.Base.Dict.{Dict}
use astra_store_xion.Files.Model.{Err, File, invalid_id, file_too_large}
use astra_store_xion.Files.World.{Env, Result, ok, err}
use astra_store_xion.Files.Io.{M}
use astra_store_xion.Gateway.Model.{
  Response, write_error, write_retryable, Gateway, Formats, Request, Occasion, Site, Step, replied,
  goes_on, H, pure, reply, ◌>>=◌, reply_if, call, try, after, answer, handle_service_error,
  handle_upload_error,
}
use astra_store_xion.Gateway.Multipart.{
  Part, Parts, no_more, too_large, malformed, next, or_reply, upload_error, cleanup_created,
  metadata_part, file_part, take_parts,
}
use astra_store_xion.Gateway.Handlers.{pagination}

pub record Refusal (r : Response) : Type 0 where
  pub high : 400 ≤ r.status

abbrev pub Answer {ℓ} : {A : Type ℓ} → Step A → Type 0
Answer (replied r) = Refusal r
Answer (goes_on a) = Unit

pub record Modest {ℓ} {A : Type ℓ} (m : H A) : Type ℓ where
  pub kept : (site : Site) → (m site).1.replicator ≡ site.replicator
  pub refuses : (site : Site) → Answer (m site).0

pub write_error-Refusal : (n : ℕ) (code : String) → 400 ≤ n → Refusal (write_error n code)
unfolding write_error
write_error-Refusal n code p = record { high = p }

pub write_error-Refusal_400 : (code : String) → Refusal (write_error 400 code)
write_error-Refusal_400 code = write_error-Refusal 400 code (omega arith)

pub write_error-Refusal_413 : (code : String) → Refusal (write_error 413 code)
write_error-Refusal_413 code = write_error-Refusal 413 code (omega arith)

pub write_error-Refusal_401 : (code : String) → Refusal (write_error 401 code)
write_error-Refusal_401 code = write_error-Refusal 401 code (omega arith)

pub write_error-Refusal_503 : (code : String) → Refusal (write_error 503 code)
write_error-Refusal_503 code = write_error-Refusal 503 code (omega arith)

-- Each error of the store is answered with a status of 400 or above.
pub handle_service_error-Refusal : (e : Err) → Refusal (handle_service_error e)
unfolding handle_service_error write_error write_retryable
handle_service_error-Refusal invalid_id = record { high = omega arith }
handle_service_error-Refusal e = record { high = omega arith }

pub handle_upload_error-Refusal : (e : Err) → Refusal (handle_upload_error e)
unfolding handle_upload_error write_error write_retryable
handle_upload_error-Refusal invalid_id = record { high = omega arith }
handle_upload_error-Refusal e = record { high = omega arith }

module _ {ℓ} {A : Type ℓ} where
  pub pure-Modest : (a : A) → Modest (pure a)
  unfolding pure
  pure-Modest a = record { kept = λ site. refl; refuses = λ site. tt }

  pub call-Modest :
      (on_err : Err → Response) (m : M A)
      → ((e : Err) → Refusal (on_err e))
      → Modest (call on_err m)
  unfolding call
  call-Modest on_err m h = record {
    kept = λ site. refl;
    refuses = λ site. answered (m site.world site.faults).0;
  }
    where
      answered : (r : Result A) → Answer (answer on_err r)
      answered (ok a) = tt
      answered (err e) = h e

  pub try-Modest : (m : M A) → Modest (try m)
  unfolding try
  try-Modest m = record { kept = λ site. refl; refuses = λ site. tt }

  pub or_reply-Modest : (o : Option A) (r : Response) → Refusal r → Modest (or_reply o r)
  unfolding reply pure
  or_reply-Modest none r h = record { kept = λ site. refl; refuses = λ site. h }
  or_reply-Modest (some a) r h = record { kept = λ site. refl; refuses = λ site. tt }

pub reply-Modest {ℓ} : (A : Type ℓ) (r : Response) → Refusal r → Modest (reply {A = A} r)
unfolding reply
reply-Modest A r h = record { kept = λ site. refl; refuses = λ site. h }

pub reply_if-Modest : (b : Bool) (r : Response) → Refusal r → Modest (reply_if b r)
unfolding reply_if reply pure
reply_if-Modest true r h = record { kept = λ site. refl; refuses = λ site. h }
reply_if-Modest false r h = record { kept = λ site. refl; refuses = λ site. tt }

module _ {A B : Type 0} where
  after-kept :
      (s : Step A) (f : A → H B) (site : Site)
      → ((a : A) → Modest (f a))
      → (after s f site).1.replicator ≡ site.replicator
  after-kept (replied r) f site h = refl
  after-kept (goes_on a) f site h = (h a).kept site

  after-refuses :
      (s : Step A) (f : A → H B) (site : Site)
      → Answer s
      → ((a : A) → Modest (f a))
      → Answer (after s f site).0
  after-refuses (replied r) f site p h = p
  after-refuses (goes_on a) f site p h = (h a).refuses site

  pub bind-Modest : (m : H A) (f : A → H B) → Modest m → ((a : A) → Modest (f a)) → Modest (m >>= f)
  unfolding ◌>>=◌
  bind-Modest m f p h = record {
    kept = λ site. after-kept (m site).0 f (m site).1 h ∙ p.kept site;
    refuses = λ site. after-refuses (m site).0 f (m site).1 (p.refuses site) h;
  }

pub if-Modest :
    {A : Type 0} (b : Bool) (m n : H A) → Modest m → Modest n → Modest (if b then m else n)
if-Modest true m n h k = h
if-Modest false m n h k = k

pub ruleset modest_rules = (
  write_error-Refusal_400, write_error-Refusal_413, write_error-Refusal_401,
  write_error-Refusal_503, handle_service_error-Refusal, handle_upload_error-Refusal, pure-Modest,
  call-Modest, try-Modest, or_reply-Modest, reply-Modest, reply_if-Modest, bind-Modest, if-Modest,
)

pub pagination-Modest : (request : Request) → Modest (pagination request)
unfolding pagination
pagination-Modest request = search modest_rules depth 14

upload_error-Refusal : (e : Err) → Refusal (upload_error e)
unfolding upload_error
upload_error-Refusal file_too_large = write_error-Refusal 413 _ (omega arith)
upload_error-Refusal e = handle_service_error-Refusal e

module _ (env : Env) (fmt : Formats) (g : Gateway) (o : Occasion) where
  cleanup_created-Modest : (created : Option File) → Modest (cleanup_created env fmt g o created)
  unfolding cleanup_created
  cleanup_created-Modest none = search modest_rules
  cleanup_created-Modest (some f) = search modest_rules

  metadata_part-Modest :
      (metadata : Dict String String) (part : Part)
      → Modest (metadata_part env fmt g o metadata part)
  unfolding metadata_part
  metadata_part-Modest metadata part = search modest_rules

  file_part-Modest :
      (id : String) (metadata : Dict String String) (part : Part)
      → Modest (file_part env fmt g o id metadata part)
  unfolding file_part
  file_part-Modest id metadata part =
      search (modest_rules, upload_error-Refusal, cleanup_created-Modest) depth 14

  pub take_parts-Modest :
      (id : String) (metadata : Dict String String) (created : Option File) (parts : Parts)
      → Modest (take_parts env fmt g o id metadata created parts)
  unfolding take_parts
  take_parts-Modest id metadata none no_more = search modest_rules
  take_parts-Modest id metadata (some f) no_more = search modest_rules
  take_parts-Modest id metadata created too_large =
      search (modest_rules, cleanup_created-Modest) depth 14
  take_parts-Modest id metadata created malformed =
      search (modest_rules, cleanup_created-Modest) depth 14
  take_parts-Modest id metadata (some f) (next part rest) =
      search (modest_rules, cleanup_created-Modest) depth 14
  take_parts-Modest id metadata none (next part rest) =
      if-Modest _ _ _
        (bind-Modest _ _ (metadata_part-Modest metadata part)
          (λ m. take_parts-Modest id m none rest))
        (if-Modest _ _ _
          (bind-Modest _ _ (file_part-Modest id metadata part)
            (λ created. take_parts-Modest id metadata (some created) rest))
          (reply-Modest File (write_error 400 "invalid_multipart")
            (write_error-Refusal_400 "invalid_multipart")))
