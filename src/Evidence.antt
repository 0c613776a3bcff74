-- ===== src/Evidence.antt =====
-- src/modules/photos/photos.service.ts: the upload of a step's photo, in two transactions with
-- the write to the storage between them.
pub mod Photos
use easygas_guide_server.Common.{
  ℕ, ◌+◌, ◌*◌, Bool, true, false, not, ◌&&◌, ◌||◌, Option, none, some, List, [], ◌∷◌, ◌++◌, ◌==◌,
  leb, ltb, find, count, update, is_some, if◌then◌else◌,
}
use easygas_guide_server.Api.{Code, Result, ok, err, ◌>>=◌, ◌>>◌, require, present}
use easygas_guide_server.Rbac.{Actor}
use easygas_guide_server.Jobs.{load_scoped_job, is_workable}
use easygas_guide_server.Store.{
  Db, Job, JobStep, StepStatus, step_status_eq, EvidenceStatus, is_pending_evidence, is_ready,
  Photo, find_job, find_checklist, log_audit, Entity, photo_upload_started, photo_upload_failed,
  photo_upload_ready,
}
use easygas_guide_server.Completion.Sign.{Upload, Inspection, assert_image, Put, put_ok}
use easygas_guide_server.Checklist.{find_step}

abbrev max_photo_bytes : ℕ
max_photo_bytes = 10 * 1024 * 1024

abbrev pub max_photos_per_attempt : ℕ
max_photos_per_attempt = 10

-- The size is tested before the image is inspected.
unfoldable pub assert_photo : Upload → Result (Unit {0})
unfolding assert_image
assert_photo u = do
  require (leb u.size max_photo_bytes) Code.file_too_large
  assert_image max_photo_bytes u

-- The PENDING and READY rows of an attempt.
unfoldable pub counts_to_limit : ℕ → ℕ → Photo → Bool
counts_to_limit step_id attempt p =
    p.job_step_id == step_id
    && (p.attempt == attempt && (is_pending_evidence p.status || is_ready p.status))

pub record RegisteredPhoto : Type 0 where
  pub id : ℕ
  pub attempt : ℕ
  pub db : Db

abbrev pub new_photo : ℕ → ℕ → ℕ → ℕ → ℕ → Upload → Photo
new_photo id job_id step_id attempt user u = record {
  id = id;
  job_id = job_id;
  job_step_id = step_id;
  attempt = attempt;
  status = EvidenceStatus.pending;
  storage_key = u.storage_key;
  size_bytes = u.size;
  hash = u.hash;
  created_by = user;
}

unfoldable pub register_photo : Actor → ℕ → ℕ → Upload → Db → Result RegisteredPhoto
unfolding find_step count counts_to_limit
register_photo actor job_id step_id u db = do
  job ← present (find_job job_id db) Code.job_not_in_progress
  require (is_workable job) Code.job_not_in_progress
  checklist ← present (find_checklist job_id db) Code.not_found
  step ← present (find_step step_id checklist.id db) Code.not_found
  require (step_status_eq step.status StepStatus.pending) Code.step_not_pending
  require (ltb (count (counts_to_limit step_id step.attempt) db.photos) max_photos_per_attempt)
      Code.photo_limit
  ok (record {
    id = db.next_id;
    attempt = step.attempt;
    db = log_audit actor.id photo_upload_started (Entity.job_photo db.next_id) (record db {
      photos = db.photos ++ new_photo db.next_id job_id step_id step.attempt actor.id u ∷ [];
      next_id = db.next_id + 1;
    });
  })

abbrev pub find_photo : ℕ → Db → Option Photo
find_photo id db = find (λ p. p.id == id) db.photos

abbrev is_pending_photo : Option Photo → Bool
is_pending_photo none = false
is_pending_photo (some p) = is_pending_evidence p.status

abbrev update_photo : ℕ → (Photo → Photo) → Db → Db
update_photo id f db = record db { photos = update (λ p. p.id == id) f db.photos }

unfoldable pub mark_photo_failed : Actor → ℕ → Db → Db
unfolding find update
mark_photo_failed actor id db =
    if is_pending_photo (find_photo id db)
    then log_audit actor.id photo_upload_failed (Entity.job_photo id)
        (update_photo id (λ p. record p { status = EvidenceStatus.failed }) db)
    else db

abbrev job_workable : Option Job → Bool
job_workable none = false
job_workable (some j) = is_workable j

abbrev same_attempt : ℕ → Option JobStep → Bool
same_attempt attempt none = false
same_attempt attempt (some s) = step_status_eq s.status StepStatus.pending && s.attempt == attempt

abbrev pub step_row : ℕ → Db → Option JobStep
step_row id db = find (λ (s : JobStep). s.id == id) db.steps

unfoldable pub still_valid : ℕ → ℕ → ℕ → Db → Bool
unfolding find
still_valid job_id step_id attempt db =
    job_workable (find_job job_id db) && same_attempt attempt (step_row step_id db)

unfoldable pub finalize_photo : Actor → ℕ → ℕ → ℕ → ℕ → Db → Bool × Db
unfolding find update still_valid
finalize_photo actor job_id step_id id attempt db =
    if is_pending_photo (find_photo id db)
    then (if still_valid job_id step_id attempt db
        then (
          true,
          log_audit actor.id photo_upload_ready (Entity.job_photo id)
              (update_photo id (λ p. record p { status = EvidenceStatus.ready }) db),
        )
        else (
          false,
          log_audit actor.id photo_upload_failed (Entity.job_photo id)
              (update_photo id (λ p. record p { status = EvidenceStatus.failed }) db),
        ))
    else (false, db)

abbrev finish_upload : Bool × Db → Db × Result (Unit {0})
finish_upload (true, db) = (db, ok tt)
finish_upload (false, db) = (db, err Code.step_state_changed)

unfoldable pub upload_photo :
    Actor → ℕ → ℕ → Upload → Put → (Db → Db) → Result RegisteredPhoto → Db → Db × Result (Unit {0})
unfolding finalize_photo mark_photo_failed
upload_photo actor job_id step_id u put between (err e) db = (db, err e)
upload_photo actor job_id step_id u put between (ok r) db =
    if put_ok put u.size
    then finish_upload (finalize_photo actor job_id step_id r.id r.attempt (between r.db))
    else (mark_photo_failed actor r.id (between r.db), err Code.storage_unavailable)

-- `before` is the store at the unlocked check, `between` what others do during the write.
unfoldable pub upload_step_photo :
    Actor → ℕ → ℕ → Upload → Put → (Db → Db) → Db → Db → Db × Result (Unit {0})
unfolding upload_photo register_photo load_scoped_job assert_photo
upload_step_photo actor job_id step_id u put between before db =
    let registered = (do
      job ← load_scoped_job actor job_id before
      require (is_workable job) Code.job_not_in_progress
      assert_photo u
      register_photo actor job_id step_id u db) in
    upload_photo actor job_id step_id u put between registered db
