-- ===== src/System/Tests.antt =====
-- The theorems of the jobs, their checklists and their completion at work on a small store.
pub mod Policies
pub mod Uploads
pub mod Sessions
pub mod Outboxes
pub mod Chains
pub mod Templates
use easygas_guide_server.Common.{
  ℕ, Bool, true, false, Option, none, some, List, [], ◌∷◌, ◌≡◌, ◌≢◌, refl, arith, Text, text, find,
  ◌==◌, count, ◌≤◌, All,
}
use easygas_guide_server.Api.{Result, ok, err}
use easygas_guide_server.Store.{
  Db, JobStatus, StepStatus, Job, Photo, Measurement, Signature, Checklist, JobStep, TemplateStep,
}
use easygas_guide_server.Checklist.{
  Submitted, Cleared, clear_step, complete_step, to_thousandths, column_value, above,
}
use easygas_guide_server.Risk.{Dyadic}
use easygas_guide_server.Checklist.Halting.{stop_halts_job}
use easygas_guide_server.Completion.{Joined, validate_job_completion, photos_missing}
use easygas_guide_server.Completion.Gate.{Ready, gate_sound, gate_complete}
use easygas_guide_server.Completion.Close.{
  close_job, confirm_quality, reopen_job, finalize_snapshot,
}
use easygas_guide_server.Completion.Closing.{Gated, close_job-Gated, confirm_quality-Gated}
use easygas_guide_server.Completion.Corrections.{reopen_shuts_gate, correction_photo_ignored}
use easygas_guide_server.Completion.Recorded.{Left, complete_step_leaves}
use easygas_guide_server.Completion.Snapshots.{
  is_snapshot_of, finalize_snapshot_once, finalize_snapshot_unique,
}
use easygas_guide_server.Completion.Sign.{stored_size}
use easygas_guide_server.Evidence.{RegisteredPhoto, register_photo, upload_step_photo}
use easygas_guide_server.Evidence.Photos.{
  WithinLimit, register_photo-WithinLimit, Confirmed, upload_step_photo-Confirmed,
}
use easygas_guide_server.Jobs.Scope.{Visible}
use easygas_guide_server.Jobs.Diagram.{Moves}
use easygas_guide_server.System.{Request, create, start, cancel, close, confirm, serve}
use easygas_guide_server.System.Life.{
  GateHeld, completed_only_gated, serve-Moves, Run, cancelled_forever,
}
use easygas_guide_server.System.Visibility.{serve_only_visible}
use easygas_guide_server.System.Fixtures.{
  chief, technician, stranger, inspector, the_job, the_step, the_stop, the_template, the_stop_step,
  the_photo, the_checklist, the_signature, two, finished, underway, store, digests, storage, after,
  the_upload,
}

abbrev ready : Db
ready = finished JobStatus.in_progress

abbrev closed : Db
closed = after (close_job digests storage chief 1 50 ready ready) ready

abbrev corrected : Db
corrected = finished JobStatus.quality_review

abbrev confirmed : Db
confirmed = after (confirm_quality digests storage inspector 1 50 corrected corrected) corrected

gate_sound_example : Ready 1 ready
unfolding validate_job_completion easygas_guide_server.Checklist.within_range
    easygas_guide_server.Checklist.le_thousandths easygas_guide_server.Checklist.to_thousandths
    easygas_guide_server.RiskEvents.count_open_blocking_risks
    easygas_guide_server.Completion.current_cycle
gate_sound_example = gate_sound 1 ready refl

gate_complete_example : (validate_job_completion 1 ready).can_complete ≡ true
unfolding validate_job_completion easygas_guide_server.Checklist.within_range
    easygas_guide_server.Checklist.le_thousandths easygas_guide_server.Checklist.to_thousandths
    easygas_guide_server.RiskEvents.count_open_blocking_risks
    easygas_guide_server.Completion.current_cycle
gate_complete_example = gate_complete 1 ready (gate_sound 1 ready refl)

close_job-Gated_example : Gated digests storage 1 ready ready
unfolding close_job easygas_guide_server.Jobs.load_scoped_job easygas_guide_server.Store.find_job
    easygas_guide_server.Rbac.in_scope easygas_guide_server.Rbac.jobs_branch_scope
    validate_job_completion easygas_guide_server.Checklist.within_range
    easygas_guide_server.Checklist.le_thousandths easygas_guide_server.Checklist.to_thousandths
    easygas_guide_server.RiskEvents.count_open_blocking_risks
    easygas_guide_server.Completion.current_cycle
    easygas_guide_server.Completion.assert_ready_evidence_objects
    easygas_guide_server.RiskPolicy.assert_risk_policy_approved
    easygas_guide_server.Completion.Summary.collect_material easygas_guide_server.Common.update
close_job-Gated_example = close_job-Gated digests storage chief 1 50 ready ready closed refl

confirm_quality-Gated_example : Gated digests storage 1 corrected corrected
unfolding confirm_quality easygas_guide_server.Jobs.load_scoped_job
    easygas_guide_server.Store.find_job easygas_guide_server.Rbac.in_scope
    easygas_guide_server.Rbac.jobs_branch_scope validate_job_completion
    easygas_guide_server.Checklist.within_range easygas_guide_server.Checklist.le_thousandths
    easygas_guide_server.Checklist.to_thousandths
    easygas_guide_server.RiskEvents.count_open_blocking_risks
    easygas_guide_server.Completion.current_cycle
    easygas_guide_server.Completion.assert_ready_evidence_objects
    easygas_guide_server.RiskPolicy.assert_risk_policy_approved
    easygas_guide_server.Completion.Summary.collect_material easygas_guide_server.Common.update
confirm_quality-Gated_example =
    confirm_quality-Gated digests storage inspector 1 50 corrected corrected confirmed refl

abbrev closed_job : Job
closed_job = record (the_job JobStatus.completed 1) { closed_by = some 2; closed_at = some 50 }

completed_only_gated_example : GateHeld digests 1 ready (close 1 storage ready)
unfolding serve close_job easygas_guide_server.Jobs.load_scoped_job
    easygas_guide_server.Store.find_job easygas_guide_server.Rbac.in_scope
    easygas_guide_server.Rbac.jobs_branch_scope validate_job_completion
    easygas_guide_server.Checklist.within_range easygas_guide_server.Checklist.le_thousandths
    easygas_guide_server.Checklist.to_thousandths
    easygas_guide_server.RiskEvents.count_open_blocking_risks
    easygas_guide_server.Completion.current_cycle
    easygas_guide_server.Completion.assert_ready_evidence_objects
    easygas_guide_server.RiskPolicy.assert_risk_policy_approved
    easygas_guide_server.Completion.Summary.collect_material easygas_guide_server.Common.update
completed_only_gated_example =
    completed_only_gated digests chief 50 (close 1 storage ready) ready closed 1
      (the_job JobStatus.in_progress 1) closed_job refl refl (λ h. ground arith) refl refl

serve-Moves_example : Moves true ready.jobs closed.jobs
unfolding serve close_job easygas_guide_server.Jobs.load_scoped_job
    easygas_guide_server.Store.find_job easygas_guide_server.Rbac.in_scope
    easygas_guide_server.Rbac.jobs_branch_scope validate_job_completion
    easygas_guide_server.Checklist.within_range easygas_guide_server.Checklist.le_thousandths
    easygas_guide_server.Checklist.to_thousandths
    easygas_guide_server.RiskEvents.count_open_blocking_risks
    easygas_guide_server.Completion.current_cycle
    easygas_guide_server.Completion.assert_ready_evidence_objects
    easygas_guide_server.RiskPolicy.assert_risk_policy_approved
    easygas_guide_server.Completion.Summary.collect_material easygas_guide_server.Common.update
serve-Moves_example = serve-Moves digests chief 50 (close 1 storage ready) ready closed refl

-- A cancelled job, and another job created after it.
abbrev dropped : Db
dropped = record (finished JobStatus.cancelled) {
  customers = record { id = 8; name = text "C"; phone = none; deleted = false } ∷ [];
  vehicles =
      record {
        id = 9;
        customer_id = 8;
        plate_number = text "P";
        vin = none;
        make = none;
        model = none;
        year = none;
        deleted = false;
      }
      ∷ [];
}

abbrev resumed : Db
resumed = after (serve digests technician 1 (create 8 9) dropped) dropped

cancelled_forever_example :
    (k : Job) × (find (λ x. x.id == 1) resumed.jobs ≡ some k) × (k.status ≡ JobStatus.cancelled)
unfolding find serve easygas_guide_server.Jobs.create_job
cancelled_forever_example =
    cancelled_forever digests dropped resumed 1 (the_job JobStatus.cancelled 1) refl refl
      (Run.then resumed technician 1 (create 8 9) Run.here refl)

-- The first step with its measurement, and the STOP step after it.
-- 0.5005 is in a range that ends at 0.5, and the column makes 0.501 of it, which is not.
abbrev near_half : Dyadic
near_half = record { negative = false; mantissa = 2254051613498933; exponent = 52 }

near_half_checked : to_thousandths near_half ≡ above 500
unfolding to_thousandths
near_half_checked = refl

near_half_stored : to_thousandths (column_value near_half) ≡ above 501
unfolding to_thousandths column_value
near_half_stored = refl

abbrev values : List Submitted
values = record { measurement_id = 41; value = two } ∷ []

abbrev first_done : Db
first_done =
    after
      (complete_step technician 1 11 none values 9 (underway StepStatus.pending)
        (underway StepStatus.pending))
      (underway StepStatus.pending)

complete_step_leaves_example : Left 1 11 values (underway StepStatus.pending) first_done
unfolding complete_step easygas_guide_server.Jobs.load_scoped_job
    easygas_guide_server.Store.find_job easygas_guide_server.Rbac.in_scope
    easygas_guide_server.Rbac.jobs_branch_scope easygas_guide_server.Jobs.is_workable
    easygas_guide_server.Jobs.can_execute_job easygas_guide_server.Store.find_checklist
    easygas_guide_server.Checklist.le_thousandths easygas_guide_server.Checklist.to_thousandths
complete_step_leaves_example =
    complete_step_leaves technician 1 11 none values 9 (underway StepStatus.pending)
      (underway StepStatus.pending) first_done refl

abbrev at_stop : Db
at_stop = underway StepStatus.completed

abbrev stop_cleared : Cleared
stop_cleared = record {
  job = the_job JobStatus.in_progress 1;
  step = the_stop_step StepStatus.pending;
  template = the_stop;
  rows = [];
}

abbrev submitted : Db
submitted = after (complete_step technician 1 12 none [] 9 at_stop at_stop) at_stop

stop_halts_job_example : complete_step chief 1 11 none values 10 submitted submitted ≢ ok submitted
unfolding clear_step easygas_guide_server.Store.find_job easygas_guide_server.Jobs.is_workable
    easygas_guide_server.Jobs.can_execute_job easygas_guide_server.Store.find_checklist
    complete_step easygas_guide_server.Jobs.load_scoped_job easygas_guide_server.Rbac.in_scope
    easygas_guide_server.Rbac.jobs_branch_scope
stop_halts_job_example =
    stop_halts_job technician 1 12 none [] 9 at_stop at_stop submitted stop_cleared refl refl refl
      chief 11 none values 10 submitted submitted

abbrev over : Db
over = finished JobStatus.completed

abbrev reopened : Db
reopened = after (reopen_job inspector 1 (text "x") 60 over) over

reopen_shuts_gate_example : (validate_job_completion 1 reopened).can_complete ≡ false
unfolding easygas_guide_server.Store.find_job reopen_job easygas_guide_server.Rbac.in_scope
    easygas_guide_server.Rbac.jobs_branch_scope
reopen_shuts_gate_example =
    reopen_shuts_gate inspector 1 (text "x") 60 (the_job JobStatus.completed 1) over reopened refl
      ((λ same. omega arith), tt) refl

-- The gate still asks for the photo of attempt 1 after the correction of the step was photographed.
abbrev unphotographed : Db
unphotographed =
    store (the_job JobStatus.reopened 2) (the_checklist (some 2) ∷ [])
      (record (the_step StepStatus.completed) { attempt = 2 } ∷ []) [] [] []

abbrev joined : Joined
joined = record {
  step = record (the_step StepStatus.completed) { attempt = 2 };
  template = the_template;
}

correction_photo_ignored_example :
    photos_missing (record unphotographed { photos = record the_photo { attempt = 2 } ∷ [] }) joined
    ≡ photos_missing unphotographed joined
unfolding easygas_guide_server.Completion.latest_attempt
correction_photo_ignored_example =
    correction_photo_ignored unphotographed joined (record the_photo { attempt = 2 }) refl
      (λ h. ground arith)

abbrev unpictured : Db
unpictured =
    store (the_job JobStatus.in_progress 1) (the_checklist none ∷ [])
      (the_step StepStatus.pending ∷ []) [] [] []

abbrev pictured : Db
pictured =
    (upload_step_photo technician 1 11 the_upload (stored_size 50) (λ db. db) unpictured
      unpictured).0

upload_step_photo-Confirmed_example :
    (reg : RegisteredPhoto) × (register_photo technician 1 11 the_upload unpictured ≡ ok reg)
    × Confirmed 1 11 the_upload (stored_size 50) (λ db. db) reg pictured
unfolding upload_step_photo easygas_guide_server.Store.find_job easygas_guide_server.Rbac.in_scope
    easygas_guide_server.Rbac.jobs_branch_scope easygas_guide_server.Jobs.is_workable
    easygas_guide_server.Store.find_checklist
upload_step_photo-Confirmed_example =
    upload_step_photo-Confirmed technician 1 11 the_upload (stored_size 50) (λ db. db) unpictured
      unpictured pictured refl

abbrev registered : Result RegisteredPhoto → RegisteredPhoto
registered (ok r) = r
registered (err e) = record { id = 0; attempt = 0; db = unpictured }

abbrev first_photo : RegisteredPhoto
first_photo = registered (register_photo technician 1 11 the_upload unpictured)

register_photo-WithinLimit_example : WithinLimit first_photo.db
unfolding count register_photo easygas_guide_server.Store.find_job
    easygas_guide_server.Jobs.is_workable easygas_guide_server.Store.find_checklist
register_photo-WithinLimit_example =
    register_photo-WithinLimit technician 1 11 the_upload unpictured first_photo
      (λ step attempt. omega arith) refl

serve_only_visible_example : Visible chief 1 ready
unfolding serve close_job easygas_guide_server.Jobs.load_scoped_job
    easygas_guide_server.Store.find_job easygas_guide_server.Rbac.in_scope
    easygas_guide_server.Rbac.jobs_branch_scope validate_job_completion
    easygas_guide_server.Checklist.within_range easygas_guide_server.Checklist.le_thousandths
    easygas_guide_server.Checklist.to_thousandths
    easygas_guide_server.RiskEvents.count_open_blocking_risks
    easygas_guide_server.Completion.current_cycle
    easygas_guide_server.Completion.assert_ready_evidence_objects
    easygas_guide_server.RiskPolicy.assert_risk_policy_approved
    easygas_guide_server.Completion.Summary.collect_material easygas_guide_server.Common.update
serve_only_visible_example =
    serve_only_visible digests chief 50 (close 1 storage ready) ready closed refl
