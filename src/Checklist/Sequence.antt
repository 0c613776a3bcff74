-- ===== src/Checklist/Sequence.antt =====
-- What a step that is completed has passed, and the sequence of the checklist.
use easygas_guide_server.Common.{
  ℕ, true, not, Option, some, List, ◌++◌, ◌==◌, leb, ◌≡◌, refl, sym, filter, any, subst,
  if◌then◌else◌, Text,
}
use easygas_guide_server.Api.{Code, ok, present-ok, require-ok, >>=-eq-ok, ok-injective}
use easygas_guide_server.Rbac.{Actor}
use easygas_guide_server.Jobs.{is_workable, can_execute_job, load_scoped_job}
use easygas_guide_server.Store.{
  Db, JobStep, StepStatus, step_status_eq, Checklist, MeasurementDef, find_job, find_checklist,
}
use easygas_guide_server.Checklist.{
  Submitted, clear_step, Cleared, complete_step, find_step, template_of, ready_photo_count,
  blocks_before, all_known, all_fit, store_rows, check_all, submit_stop, finish_step,
}

abbrev pub defs_of : JobStep → Db → List MeasurementDef
defs_of s db = filter (λ d. d.step_id == s.step_id) db.measurement_defs

-- All that the guards of a completion have established.
pub record Passed (actor : Actor) (job_id step_id : ℕ) (ms : List Submitted) (db : Db) (c : Cleared)
    : Type 0 where
  pub job_found : find_job job_id db ≡ some c.job
  pub workable : is_workable c.job ≡ true
  pub executable : can_execute_job actor c.job ≡ true
  pub checklist : Checklist
  pub checklist_found : find_checklist job_id db ≡ some checklist
  pub step_found : find_step step_id checklist.id db ≡ some c.step
  pub template_found : template_of c.step db ≡ some c.template
  pub pending : step_status_eq c.step.status StepStatus.pending ≡ true
  pub photos : leb c.template.required_photos (ready_photo_count c.step.id c.step.attempt db) ≡ true
  pub in_order : not (any (blocks_before db checklist.id c.template.sort_order) db.steps) ≡ true
  pub known : all_known (defs_of c.step db) ms ≡ true
  pub valid : (check_all c.step.id c.step.attempt ms (defs_of c.step db)).valid ≡ true
  pub fits : all_fit (check_all c.step.id c.step.attempt ms (defs_of c.step db)).rows ≡ true
  pub rows : c.rows ≡ store_rows (check_all c.step.id c.step.attempt ms (defs_of c.step db)).rows

pub clear_step-Passed :
    (actor : Actor) (job_id step_id : ℕ) (ms : List Submitted) (db : Db) {c : Cleared}
    → clear_step actor job_id step_id ms db ≡ ok c
    → Passed actor job_id step_id ms db c
unfolding clear_step
clear_step-Passed actor job_id step_id ms db h =
    let (job, found, h1) = present-ok (find_job job_id db) Code.job_not_in_progress _ h in
    let (workable, h2) = require-ok (is_workable job) Code.job_not_in_progress _ h1 in
    let (executable, h3) = require-ok (can_execute_job actor job) Code.forbidden _ h2 in
    let (list, list_found, h4) = present-ok (find_checklist job_id db) Code.not_found _ h3 in
    let (step, step_found, h5) = present-ok (find_step step_id list.id db) Code.not_found _ h4 in
    let (t, t_found, h6) = present-ok (template_of step db) Code.not_found _ h5 in
    let (pending, h7) =
      require-ok (step_status_eq step.status StepStatus.pending) Code.step_already_completed _ h6 in
    let (photos, h8) =
      require-ok (leb t.required_photos (ready_photo_count step.id step.attempt db))
        Code.photos_required _ h7 in
    let (in_order, h9) =
      require-ok (not (any (blocks_before db list.id t.sort_order) db.steps))
        Code.previous_step_incomplete _ h8 in
    let (known, h10) = require-ok (all_known (defs_of step db) ms) Code.invalid_measurement _ h9 in
    let (valid, h11) =
      require-ok (check_all step.id step.attempt ms (defs_of step db)).valid Code.out_of_range _
        h10 in
    let (fits, h12) =
      require-ok (all_fit (check_all step.id step.attempt ms (defs_of step db)).rows)
        Code.internal_error _ h11 in
    subst (λ c. Passed actor job_id step_id ms db c) (ok-injective h12)
      (record {
        job_found = found;
        workable = workable;
        executable = executable;
        checklist = list;
        checklist_found = list_found;
        step_found = step_found;
        template_found = t_found;
        pending = pending;
        photos = photos;
        in_order = in_order;
        known = known;
        valid = valid;
        fits = fits;
        rows = refl;
      })

-- A completed request: the cleared step, and the store it was cleared in.
pub complete_step-cleared :
    (actor : Actor) (job_id step_id : ℕ) (remark : Option Text) (ms : List Submitted) (now : ℕ)
    (before db : Db) {r : Db}
    → complete_step actor job_id step_id remark ms now before db ≡ ok r
    → (c : Cleared) × (clear_step actor job_id step_id ms db ≡ ok c)
      × (r ≡ (
          if c.template.is_stop
          then submit_stop actor job_id c.step now remark
              (record db { measurements = db.measurements ++ c.rows })
          else finish_step actor c.step now remark
              (record db { measurements = db.measurements ++ c.rows })))
unfolding complete_step
complete_step-cleared actor job_id step_id remark ms now before db h =
    let (_, _, h1) = >>=-eq-ok (load_scoped_job actor job_id before) _ h in
    let (c, cleared, h2) = >>=-eq-ok (clear_step actor job_id step_id ms db) _ h1 in
    (c, cleared, sym (ok-injective h2))
