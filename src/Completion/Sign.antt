-- ===== src/Completion/Sign.antt =====
-- saveSignature of src/modules/jobs/completion.service.ts: the signature is registered PENDING,
-- written to the storage, and finalized READY. Other transactions may run between the two; the
-- storage's answer and the inspection of the image are arguments.
use easygas_guide_server.Common.{
  ℕ, ◌+◌, ◌*◌, Bool, true, false, not, ◌&&◌, ◌||◌, Option, none, some, [], ◌∷◌, ◌++◌, ◌==◌, leb,
  find, update, is_some, same_id, if◌then◌else◌,
}
use easygas_guide_server.Api.{Code, Result, ok, err, ◌>>=◌, ◌>>◌, require}
use easygas_guide_server.Rbac.{Actor}
use easygas_guide_server.Jobs.{load_scoped_job, is_workable}
use easygas_guide_server.Store.{
  Db, Job, EvidenceStatus, is_pending_evidence, is_ready, Signature, Checklist, find_job,
  find_checklist, log_audit, Entity, signature_upload_started, signature_upload_failed,
  signature_invalidated, customer_signed,
}
use easygas_guide_server.Completion.{find_last}
use easygas_guide_server.Completion.Summary.{Digests, current_summary_digest}
use easygas_guide_server.Completion.Close.{differ}

-- `inspectImage`: a recognised image, one with too many pixels, or no image.
pub data Inspection : Type 0 where
  image too_large not_image : Inspection

pub record Upload : Type 0 where
  pub inspection : Inspection
  pub size : ℕ
  pub hash : ℕ
  pub storage_key : ℕ

-- The storage's answer to a write: the size it stored, or an error.
pub data Put : Type 0 where
  stored_size : ℕ → Put
  storage_error : Put

abbrev pub put_ok : Put → ℕ → Bool
put_ok (stored_size n) size = n == size
put_ok storage_error size = false

abbrev pub max_signature_bytes : ℕ
max_signature_bytes = 5 * 1024 * 1024

unfoldable pub assert_image : ℕ → Upload → Result (Unit {0})
assert_image limit u = do
  elim u.inspection [
    | image ↦ ok tt
    | too_large ↦ err Code.image_too_large
    | not_image ↦ err Code.invalid_file_type
  ]
  require (leb u.size limit) Code.file_too_large

abbrev pub checklist_completed : Option Checklist → Bool
checklist_completed none = false
checklist_completed (some c) = is_some c.completed_at

unfoldable pub is_live_signature : ℕ → ℕ → Signature → Bool
is_live_signature job_id cycle g =
    (g.job_id == job_id && g.cycle == cycle)
    && ((is_pending_evidence g.status || is_ready g.status) && not (is_some g.superseded_at))

-- A live signature stands in the way if it is in flight or still matches the summary.
abbrev pub still_matches : Option ℕ → Signature → Bool
still_matches bound g = is_pending_evidence g.status || same_id g.summary_digest bound

abbrev pub insert_signature : Job → ℕ → Option ℕ → Upload → Db → Db
insert_signature job job_id bound u db = record db {
  signatures =
      db.signatures
      ++ record {
        id = db.next_id;
        job_id = job_id;
        customer_id = job.customer_id;
        cycle = job.cycle;
        status = EvidenceStatus.pending;
        superseded_at = none;
        storage_key = u.storage_key;
        size_bytes = u.size;
        hash = u.hash;
        summary_digest = bound;
      }
        ∷ [];
  next_id = db.next_id + 1;
}

abbrev update_signature : ℕ → (Signature → Signature) → Db → Db
update_signature id f db = record db { signatures = update (λ g. g.id == id) f db.signatures }

-- The live signature that no longer matches is kept and marked superseded.
unfoldable pub clear_signature : Actor → ℕ → ℕ → Option Signature → Option ℕ → Db → Result Db
unfolding update
clear_signature actor job_id now none bound db = ok db
clear_signature actor job_id now (some g) bound db = do
  require (not (still_matches bound g)) Code.signature_exists
  ok (
      log_audit actor.id signature_invalidated (Entity.job job_id)
        (update_signature g.id (λ x. record x { superseded_at = some now }) db))

pub record Registered : Type 0 where
  pub id : ℕ
  pub cycle : ℕ
  pub db : Db

-- The first transaction.
unfoldable pub register_signature :
    Digests → Actor → ℕ → Upload → Option ℕ → ℕ → Db → Result Registered
unfolding load_scoped_job clear_signature find_last is_live_signature
register_signature d actor job_id u shown now db = do
  job ← load_scoped_job actor job_id db
  require (is_workable job) Code.job_not_in_progress
  require (checklist_completed (find_checklist job_id db)) Code.checklist_incomplete
  let bound = current_summary_digest d job_id db
  require (not (differ shown bound)) Code.summary_stale
  cleared ←
      clear_signature actor job_id now
        (find_last (is_live_signature job_id job.cycle) db.signatures) bound db
  ok (record {
    id = cleared.next_id;
    cycle = job.cycle;
    db =
        log_audit actor.id signature_upload_started (Entity.job job_id)
          (insert_signature job job_id bound u cleared);
  })

abbrev pub find_signature : ℕ → Db → Option Signature
find_signature id db = find (λ g. g.id == id) db.signatures

abbrev pub is_pending_row : Option Signature → Bool
is_pending_row none = false
is_pending_row (some g) = is_pending_evidence g.status

unfoldable pub mark_signature_failed : Actor → ℕ → ℕ → Db → Db
unfolding find update
mark_signature_failed actor job_id id db =
    if is_pending_row (find_signature id db)
    then log_audit actor.id signature_upload_failed (Entity.job job_id)
        (update_signature id (λ g. record g { status = EvidenceStatus.failed }) db)
    else db

abbrev pub still_signable : ℕ → Option Job → Bool
still_signable cycle none = false
still_signable cycle (some j) = is_workable j && j.cycle == cycle

-- The second transaction: READY, or FAILED where the job has moved on.
unfoldable pub finalize_signature : Actor → ℕ → ℕ → ℕ → Db → Bool × Db
unfolding find update
finalize_signature actor job_id id cycle db =
    if is_pending_row (find_signature id db)
    then (if still_signable cycle (find_job job_id db)
        then (
          true,
          log_audit actor.id customer_signed (Entity.job job_id)
              (update_signature id (λ g. record g { status = EvidenceStatus.ready }) db),
        )
        else (
          false,
          log_audit actor.id signature_upload_failed (Entity.job job_id)
              (update_signature id (λ g. record g { status = EvidenceStatus.failed }) db),
        ))
    else (false, db)

abbrev pub finish_upload : Bool × Db → Code → Db × Result (Unit {0})
finish_upload (true, db) code = (db, ok tt)
finish_upload (false, db) code = (db, err code)

-- `between` is what other transactions did to the store while the object was written.
unfoldable pub upload_signature :
    Actor → ℕ → Upload → Put → (Db → Db) → Result Registered → Db → Db × Result (Unit {0})
unfolding finalize_signature mark_signature_failed
upload_signature actor job_id u put between (err e) db = (db, err e)
upload_signature actor job_id u put between (ok r) db =
    if put_ok put u.size
    then finish_upload (finalize_signature actor job_id r.id r.cycle (between r.db))
        Code.job_state_changed
    else (mark_signature_failed actor job_id r.id (between r.db), err Code.storage_unavailable)

unfoldable pub save_signature :
    Digests → Actor → ℕ → Upload → Option ℕ → ℕ → Put → (Db → Db) → Db → Db × Result (Unit {0})
unfolding upload_signature register_signature assert_image
save_signature d actor job_id u shown now put between db =
    upload_signature actor job_id u put between
      (assert_image max_signature_bytes u >> register_signature d actor job_id u shown now db) db
