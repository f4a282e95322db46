-- ===== src/Gateway/Transfers.antt =====
-- A file on its way through the gateway: what `upload` takes in, `download` gives out.
use astra_store_xion.Base.Dict.{Dict}
use astra_store_xion.Base.{
  ◌*◌, ℕ, ◌^◌, ◌≤◌, ◌<◌, String, Bool, true, false, ◌&&◌, Option, none, some, List, [], length,
  string_key, ◌≡◌, refl, arith, ap,
}
use astra_store_xion.Base.Int64.{int64}
use astra_store_xion.Files.Model.{File, Reader}
use astra_store_xion.Files.Text.{is_blank, trim_space, valid_id, owner_from_metadata}
use astra_store_xion.Files.World.{Env, World, ok, live, Fault}
use astra_store_xion.Files.Account.{is_paused}
use astra_store_xion.Files.Account.Quotas.{IsReady, admits}
use astra_store_xion.Files.Read.{open_file}
use astra_store_xion.Files.Put.{put, stored_file}
use astra_store_xion.Files.Put.Runs.{IsFree, after_put}
use astra_store_xion.Files.Put.RoundTrip.{put_open}
use astra_store_xion.Replication.Jobs.{Manager}
use astra_store_xion.Gateway.Model.{
  write_json, file_body, download_body, Gateway, Formats, Request, Occasion, Site, goes_on, pure,
  ◌>>=◌, reply_if, call, is_marked, enqueue_job,
}
use astra_store_xion.Gateway.Multipart.{
  metadata_part, decoded, read_multipart_field, Part, no_more, next, upload_limit_reader,
  upload_input, file_part, take_parts, upload,
}
use astra_store_xion.Gateway.Handlers.{download}

abbrev pub ended : List ℕ → Reader
ended bytes = record { bytes = bytes; failure = none }

abbrev pub site_with : World → Option Manager → Site
site_with w replicator = record { world = w; faults = []; replicator = replicator }

-- A reader that ends within the limit is read as it is.
upload_limit_reader-short :
    (limit : ℕ) (r : Reader)
    → length r.bytes ≤ limit
    → r.failure ≡ none
    → upload_limit_reader limit r ≡ ended r.bytes
unfolding upload_limit_reader
upload_limit_reader-short limit r p e = ground (arith, p, e)

and_false : (b : Bool) → (b && false) ≡ false
and_false true = refl
and_false false = refl

-- A field whose JSON decodes to the metadata.
pub record IsMetadataPart (fmt : Formats) (metadata : Dict String String) (field : Part)
    : Type 0 where
  pub form_name : field.form_name ≡ "metadata"
  pub decodes : decoded fmt (read_multipart_field field.reader (64 * 1024)) [] ≡ some metadata

-- A part with a file that can be read to its end.
pub record IsFilePart (part : Part) : Type 0 where
  pub form_name : part.form_name ≡ "file"
  pub file_name : is_blank part.file_name ≡ false
  pub closes : part.close_fails ≡ false

module _ (env : Env) (fmt : Formats) (g : Gateway) (o : Occasion) where
  file_runs :
      (id : String) (metadata : Dict String String) (part : Part) (f : File) (site : Site)
      (w : World) (p : List Fault)
      → IsFilePart part
      → put env o.ctx (upload_input g id metadata part) site.world site.faults ≡ (ok f, w, p)
      → take_parts env fmt g o id metadata none (next part no_more) site
        ≡ (goes_on f, record site { world = w; faults = p })
  unfolding take_parts file_part reply_if pure call ◌>>=◌
  file_runs id metadata part f site w p h e = simp (h.form_name, h.file_name, h.closes, e)

  -- The metadata, and then the file.
  take_parts_runs :
      (id : String) (metadata : Dict String String) (field part : Part) (f : File) (site : Site)
      (w : World) (p : List Fault)
      → IsMetadataPart fmt metadata field
      → IsFilePart part
      → put env o.ctx (upload_input g id metadata part) site.world site.faults ≡ (ok f, w, p)
      → take_parts env fmt g o id [] none (next field (next part no_more)) site
        ≡ (goes_on f, record site { world = w; faults = p })
  unfolding take_parts metadata_part pure ◌>>=◌
  take_parts_runs id metadata field part f site w p m h e =
      simp (m.form_name, m.decodes) (file_runs id metadata part f site w p h e)

  -- The request of another site, which sends the metadata and the file.
  upload_runs :
      (request : Request) (metadata : Dict String String) (field part : Part) (f : File)
      (site : Site) (w : World) (p : List Fault)
      → is_marked request ≡ true
      → IsMetadataPart fmt metadata field
      → IsFilePart part
      → put env o.ctx
          (upload_input g (trim_space request.replication_file_id) metadata part)
          site.world
          site.faults
        ≡ (ok f, w, p)
      → upload env fmt g o request (some (next field (next part no_more))) site
        ≡ (goes_on (write_json 201 (file_body f)), record site { world = w; faults = p })
  unfolding upload reply_if pure ◌>>=◌ enqueue_job
  upload_runs request metadata field part f site w p marked m h e =
      simp (marked, and_false, take_parts_runs _ metadata field part f site w p m h e)

  download_runs :
      (id : String) (f : File) (bytes : List ℕ) (site : Site) (w : World) (p : List Fault)
      → open_file env o.ctx id site.world site.faults ≡ (ok (f, bytes), w, p)
      → download env fmt g o id site ≡ (
        goes_on (write_json 200 (download_body f.content_type f.size f.name f.checksum bytes)),
        record site { world = w; faults = p },
      )
  unfolding download pure call ◌>>=◌
  download_runs id f bytes site w p e = simp e

module _ (env : Env) (fmt : Formats) (g : Gateway) (w : World) (ready : IsReady w) where
  -- A file of less than 2 ^ 63 bytes that the other site uploads, marked as a replication and with an
  -- id that is valid and free, in a form that has its metadata first, as the program's replication
  -- sends it, and within the limit, on a ready store that is not paused and has its owner's quota for
  -- it: where no system call fails the response is 201 with its record, which has the metadata,
  -- nothing is handed on, and `download` of the id then answers 200 with the same bytes, the record's
  -- name, type and size, and its digest as ETag.
  pub upload-download :
      (o later : Occasion) (request : Request) (metadata : Dict String String) (field part : Part)
      (replicator : Option Manager)
      → o.ctx ≡ live
      → later.ctx ≡ live
      → is_marked request ≡ true
      → IsMetadataPart fmt metadata field
      → IsFilePart part
      → part.reader.failure ≡ none
      → length part.reader.bytes ≤ g.max_upload_bytes
      → let input = upload_input g (trim_space request.replication_file_id) metadata part in
        let id = trim_space input.id in
        let bytes = part.reader.bytes in
        let f = stored_file env input id bytes (env.clock w.ticks) in
        let site = site_with w replicator in
        let stored = site_with (after_put w f bytes) replicator in
        valid_id id ≡ true
        → IsFree w id
        → is_paused w.pause_at_percent (env.stat_fs w.disk) ≡ false
        → admits w (owner_from_metadata input.metadata) (int64 (length bytes)) ≡ true
        → length bytes < 2 ^ 63
        → is_blank (env.digest bytes) ≡ false
        → (upload env fmt g o request (some (next field (next part no_more))) site
            ≡ (goes_on (write_json 201 (file_body f)), stored))
          × (download env fmt g later id stored ≡ (
            goes_on (write_json 200 (download_body f.content_type f.size f.name f.checksum bytes)),
            stored,
          ))
  upload-download o later request metadata field part replicator now now_too marked m h whole within
        valid free running fits short sealed =
      let input = upload_input g (trim_space request.replication_file_id) metadata part in
      let bytes = part.reader.bytes in
      let f = stored_file env input (trim_space input.id) bytes (env.clock w.ticks) in
      let stored = after_put w f bytes in
      let reader = ended part.reader.bytes in
      let limited =
        ap some (upload_limit_reader-short g.max_upload_bytes part.reader within whole) in
      let runs =
        put_open env w ready input reader limited refl valid free running fits short sealed in
      (
        upload_runs env fmt g o request metadata field part f (site_with w replicator) stored []
            marked m h (rw now runs.0),
        download_runs env fmt g later (trim_space input.id) f bytes (site_with stored replicator)
            stored [] (rw now_too runs.1),
      )
