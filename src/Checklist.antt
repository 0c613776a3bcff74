-- ===== src/Checklist.antt =====
-- src/modules/checklist: assignment and the sequential completion of steps
-- (execution.service.ts).
pub mod Stop
pub mod Moves
pub mod Halting
pub mod Decisions
pub mod Sequence
use easygas_guide_server.Common.{
  ℕ, zero, suc, ◌+◌, ◌*◌, ◌/◌, ◌%◌, ◌^◌, ◌-◌, Bool, true, false, not, ◌&&◌, ◌||◌, Option, none,
  some, List, [], ◌∷◌, ◌++◌, ◌==◌, leb, ltb, Text, find, filter, update, count, any, sort_on,
  is_some, same_id, if◌then◌else◌, length,
}
use easygas_guide_server.Api.{Code, Result, ok, err, ◌>>=◌, ◌>>◌, require, present}
use easygas_guide_server.Rbac.{Actor}
use easygas_guide_server.Risk.{Dyadic, round_ratio}
use easygas_guide_server.Jobs.{is_workable, can_execute_job, load_scoped_job}
use easygas_guide_server.Store.{
  Db, Job, JobStatus, job_status_eq, JobStep, StepStatus, is_done, step_status_eq, TemplateStep,
  TemplateVersion, Checklist, find_checklist, find_job, Photo, is_ready, MeasurementDef,
  Measurement, StopApproval, ApprovalStatus, update_job, update_step, log_audit, Entity,
  checklist_assigned, step_completed, stop_submitted, step_correction_started,
}

-- The template row that a job step executes: the join with `checklist_steps`.
unfoldable pub template_of : JobStep → Db → Option TemplateStep
unfolding find
template_of s db = find (λ t. t.id == s.step_id) db.template_steps

-- `Math.round(v * 1000)`. The product of a mantissa below 2^53 and 1000 is below 2^63, so that it
-- keeps 53 bits after dropping at most ten, rounded to even.
shift_for : ℕ → ℕ → ℕ
shift_for zero n = 0
shift_for (suc f) n = let more = suc (shift_for f (n / 2)) in if ltb n (2 ^ 53) then 0 else more

round_even : ℕ → ℕ → ℕ
unfolding round_ratio
round_even n s = round_ratio n (2 ^ s)

to_double : ℕ → ℕ
unfolding shift_for round_even
to_double n = let s = shift_for 10 n in if s == 0 then n else round_even n s * 2 ^ s

-- The rounded thousandths with their sign. A half rounds up, so a negative half rounds towards 0.
pub data Thousandths : Type 0 where
  above below : ℕ → Thousandths

unfoldable pub to_thousandths : Dyadic → Thousandths
unfolding to_double
to_thousandths v =
    let m = to_double (v.mantissa * 1000) in
    let unit = 2 ^ v.exponent in
    if v.negative
    then below ((2 * m + (unit - 1)) / (2 * unit))
    else above ((2 * m + unit) / (2 * unit))

unfoldable pub le_thousandths : Thousandths → Thousandths → Bool
le_thousandths (above a) (above b) = leb a b
le_thousandths (above a) (below b) = a == 0 && b == 0
le_thousandths (below a) (above b) = true
le_thousandths (below a) (below b) = leb b a

abbrev reaches : Option Dyadic → Dyadic → Bool
reaches none v = true
reaches (some lo) v = le_thousandths (to_thousandths lo) (to_thousandths v)

abbrev stays_below : Option Dyadic → Dyadic → Bool
stays_below none v = true
stays_below (some hi) v = le_thousandths (to_thousandths v) (to_thousandths hi)

-- The inclusive range of a definition.
unfoldable pub within_range : MeasurementDef → Dyadic → Bool
within_range def v = reaches def.min_value v && stays_below def.max_value v

pub record Submitted : Type 0 where
  pub measurement_id : ℕ
  pub value : Dyadic

-- `new Map(measurements.map(...)).get(id)`: the last entry of a repeated key.
unfoldable pub submitted_value : ℕ → List Submitted → Option Dyadic
submitted_value id [] = none
submitted_value id (m ∷ ms) =
    let later = submitted_value id ms in
    elim later [ some v ↦ some v | none ↦ if m.measurement_id == id then some m.value else none ]

-- What one definition contributes: a stored value, an error, or nothing.
pub data Check : Type 0 where
  stored : Dyadic → Check
  problem : Check
  skipped : Check

unfoldable pub check_value : MeasurementDef → Option Dyadic → Check
unfolding within_range
check_value def none = if def.required then problem else skipped
check_value def (some v) = if within_range def v then stored v else problem

-- The loop over the definitions: the rows to store, and whether an error was met.
pub record Checked : Type 0 where
  pub rows : List Measurement
  pub valid : Bool

abbrev pub add_check : ℕ → ℕ → ℕ → Check → Checked → Checked
add_check step_id attempt def_id (stored v) rest = record rest {
  rows =
      record {
        job_step_id = step_id;
        measurement_id = def_id;
        value = v;
        is_within_range = true;
        attempt = attempt;
      }
      ∷ rest.rows;
}
add_check step_id attempt def_id problem rest = record rest { valid = false }
add_check step_id attempt def_id skipped rest = rest

unfoldable pub check_all : ℕ → ℕ → List Submitted → List MeasurementDef → Checked
unfolding check_value submitted_value
check_all step_id attempt ms [] = record { rows = []; valid = true }
check_all step_id attempt ms (d ∷ ds) =
    add_check step_id attempt d.id (check_value d (submitted_value d.id ms))
      (check_all step_id attempt ms ds)

-- The double nearest to n / d, for 1 / 2000 ≤ n / d: 63 doublings bring it to 53 bits.
doublings : ℕ → ℕ → ℕ → ℕ
doublings zero n d = 0
doublings (suc fuel) n d =
    let more = suc (doublings fuel (2 * n) d) in if ltb n (d * 2 ^ 52) then more else 0

unfoldable pub nearest : ℕ → ℕ → Dyadic
unfolding doublings round_ratio
nearest zero d = record { negative = false; mantissa = 0; exponent = 0 }
nearest (suc n) d =
    let e = doublings 64 (suc n) d in
    record { negative = false; mantissa = round_ratio (suc n * 2 ^ e) d; exponent = e }

-- `value` is a DECIMAL(12, 3). The driver writes the shortest decimal of the double, and MySQL rounds
-- it to thousandths, a half away from zero. The shortest decimal is a half, 2k + 1 of 2000, exactly
-- where the double is the nearest one to it; elsewhere both lie on the same side of the half.
unfoldable pub column_thousandths : Dyadic → ℕ
unfolding nearest
column_thousandths v =
    let unit = 2 ^ v.exponent in
    let k = 1000 * v.mantissa / unit in
    let half = nearest (2 * k + 1) 2000 in
    if leb ((2 * k + 1) * unit) (2000 * v.mantissa)
      || half.mantissa * unit == v.mantissa * 2 ^ half.exponent
    then k + 1
    else k

-- What `Number(row.value)` gives back.
unfoldable pub column_value : Dyadic → Dyadic
unfolding column_thousandths nearest
column_value v = record (nearest (column_thousandths v) 1000) {
  negative = v.negative && not (column_thousandths v == 0);
}

-- The inserts of the rows: a value that the column cannot hold is an error of MySQL.
unfoldable pub all_fit : List Measurement → Bool
unfolding column_thousandths
all_fit [] = true
all_fit (m ∷ ms) = let rest = all_fit ms in ltb (column_thousandths m.value) (10 ^ 12) && rest

abbrev pub store_row : Measurement → Measurement
store_row m = record m { value = column_value m.value }

unfoldable pub store_rows : List Measurement → List Measurement
store_rows [] = []
store_rows (m ∷ ms) = store_row m ∷ store_rows ms

-- Every submitted id names a definition of the step.
unfoldable pub all_known : List MeasurementDef → List Submitted → Bool
unfolding any
all_known ds [] = true
all_known ds (m ∷ ms) = any (λ d. d.id == m.measurement_id) ds && all_known ds ms

-- A step of the checklist that stands before the given order and is not done.
abbrev blocks_template : ℕ → Option TemplateStep → Bool
blocks_template order none = false
blocks_template order (some t) = ltb t.sort_order order

unfoldable pub blocks_before : Db → ℕ → ℕ → JobStep → Bool
unfolding template_of
blocks_before db checklist_id order s =
    (s.job_checklist_id == checklist_id && not (is_done s.status))
    && blocks_template order (template_of s db)

-- READY evidence of one attempt.
unfoldable pub ready_photo_count : ℕ → ℕ → Db → ℕ
unfolding count
ready_photo_count step_id attempt db =
    count (λ p. p.job_step_id == step_id && (p.attempt == attempt && is_ready p.status)) db.photos

abbrev pub remaining_step : ℕ → JobStep → Bool
remaining_step checklist_id s = s.job_checklist_id == checklist_id && not (is_done s.status)

abbrev set_checklist_completed : ℕ → Option ℕ → Db → Db
set_checklist_completed id at db = record db {
  checklists =
      update (λ (c : Checklist). c.id == id) (λ c. record c { completed_at = at }) db.checklists;
}

-- "If that was the last open step, the checklist itself is complete."
unfoldable pub complete_checklist_if_done : ℕ → ℕ → Db → Db
unfolding any update
complete_checklist_if_done id now db =
    if any (remaining_step id) db.steps then db else set_checklist_completed id (some now) db

abbrev store_result : StepStatus → Actor → ℕ → Option Text → JobStep → JobStep
store_result status actor now note s = record s {
  status = status;
  note = note;
  completed_by = some actor.id;
  completed_at = some now;
}

-- The end of the transaction for a STOP step: it waits for a decision, and so does the job.
unfoldable pub submit_stop : Actor → ℕ → JobStep → ℕ → Option Text → Db → Db
submit_stop actor job_id step now note db =
    let waiting =
      update_step step.id (store_result StepStatus.waiting_approval actor now note) db in
    log_audit actor.id stop_submitted (Entity.job_step step.id) (
      update_job job_id (λ j. record j { status = JobStatus.waiting_stop_approval })
        (record waiting {
          approvals =
              waiting.approvals
              ++ record {
                id = waiting.next_id;
                job_id = job_id;
                job_step_id = step.id;
                status = ApprovalStatus.pending;
                attempt = step.attempt;
                submitted_by = actor.id;
                decided_by = none;
                decided_at = none;
                reject_reason = none;
              }
                ∷ [];
          next_id = waiting.next_id + 1;
        }))

-- The end of the transaction for a normal step.
unfoldable pub finish_step : Actor → JobStep → ℕ → Option Text → Db → Db
unfolding complete_checklist_if_done
finish_step actor step now note db = log_audit actor.id step_completed (Entity.job_step step.id) (
    complete_checklist_if_done step.job_checklist_id now
      (update_step step.id (store_result StepStatus.completed actor now note) db))

-- The step of a checklist by its id, joined with its template row.
unfoldable pub find_step : ℕ → ℕ → Db → Option JobStep
unfolding find
find_step id checklist_id db = find (λ s. s.id == id && s.job_checklist_id == checklist_id) db.steps

-- The guards of `completeStep`, in order; what it goes on with.
pub record Cleared : Type 0 where
  pub job : Job
  pub step : JobStep
  pub template : TemplateStep
  pub rows : List Measurement

unfoldable pub clear_step : Actor → ℕ → ℕ → List Submitted → Db → Result Cleared
unfolding find_step template_of ready_photo_count blocks_before check_all all_known all_fit
    store_rows any filter
clear_step actor job_id step_id submitted db = do
  job ← present (find_job job_id db) Code.job_not_in_progress
  require (is_workable job) Code.job_not_in_progress
  require (can_execute_job actor job) Code.forbidden
  checklist ← present (find_checklist job_id db) Code.not_found
  step ← present (find_step step_id checklist.id db) Code.not_found
  template ← present (template_of step db) Code.not_found
  require (step_status_eq step.status StepStatus.pending) Code.step_already_completed
  require (leb template.required_photos (ready_photo_count step.id step.attempt db))
      Code.photos_required
  require (not (any (blocks_before db checklist.id template.sort_order) db.steps))
      Code.previous_step_incomplete
  let defs = filter (λ d. d.step_id == step.step_id) db.measurement_defs
  require (all_known defs submitted) Code.invalid_measurement
  let checked = check_all step.id step.attempt submitted defs
  require checked.valid Code.out_of_range
  require (all_fit checked.rows) Code.internal_error
  ok (record { job = job; step = step; template = template; rows = store_rows checked.rows })

-- `before` is the store at the unlocked visibility check, `db` the store under the locks.
unfoldable pub complete_step :
    Actor → ℕ → ℕ → Option Text → List Submitted → ℕ → Db → Db → Result Db
unfolding clear_step submit_stop finish_step
complete_step actor job_id step_id note submitted now before db = do
  _ ← load_scoped_job actor job_id before
  c ← clear_step actor job_id step_id submitted db
  let measured = record db { measurements = db.measurements ++ c.rows }
  ok (
      if c.template.is_stop
      then submit_stop actor job_id c.step now note measured
      else finish_step actor c.step now note measured)

unfoldable pub redo_step : Actor → ℕ → ℕ → Db → Db → Result Db
unfolding find_step template_of
redo_step actor job_id step_id before db = do
  _ ← load_scoped_job actor job_id before
  job ← present (find_job job_id db) Code.job_not_reopened
  require (job_status_eq job.status JobStatus.reopened) Code.job_not_reopened
  checklist ← present (find_checklist job_id db) Code.not_found
  step ← present (find_step step_id checklist.id db) Code.not_found
  _ ← present (template_of step db) Code.not_found
  require (is_done step.status) Code.step_not_done
  ok (
      log_audit actor.id step_correction_started (Entity.job_step step.id) (
        set_checklist_completed checklist.id none (
          update_step step.id
            (λ s. record s { status = StepStatus.pending; attempt = step.attempt + 1 }) db)))

abbrev new_step : ℕ → ℕ → ℕ → JobStep
new_step id checklist_id step_id = record {
  id = id;
  job_checklist_id = checklist_id;
  step_id = step_id;
  status = StepStatus.pending;
  attempt = 1;
  note = none;
  completed_by = none;
  completed_at = none;
}

-- One PENDING row for each step of the version.
unfoldable pub insert_steps : ℕ → List TemplateStep → Db → Db
insert_steps checklist_id [] db = db
insert_steps checklist_id (t ∷ ts) db = insert_steps checklist_id ts (record db {
  steps = db.steps ++ new_step db.next_id checklist_id t.id ∷ [];
  next_id = db.next_id + 1;
})

abbrev pub is_cons {ℓ} : {A : Type ℓ} → List A → Bool
is_cons [] = false
is_cons (x ∷ xs) = true

-- The header of the job's checklist, its steps, and the audit record.
unfoldable pub attach_checklist : Actor → ℕ → ℕ → List TemplateStep → Db → Db
attach_checklist actor job_id version_id steps db =
    let id = db.next_id in
    let assigned = record db {
      checklists =
          db.checklists
          ++ record {
            id = id;
            job_id = job_id;
            version_id = version_id;
            assigned_by = actor.id;
            completed_at = none;
          }
            ∷ [];
      next_id = id + 1;
    } in
    log_audit actor.id checklist_assigned (Entity.job job_id) (insert_steps id steps assigned)

abbrev pub published_version : ℕ → Db → Option TemplateVersion
published_version template_id db =
    find (λ v. v.template_id == template_id && v.published) db.template_versions

abbrev pub steps_of_version : ℕ → Db → List TemplateStep
steps_of_version version_id db =
    sort_on (λ t. t.sort_order)
      (filter (λ (t : TemplateStep). t.version_id == version_id) db.template_steps)

abbrev pub is_assignable_state : JobStatus → Bool
is_assignable_state s = job_status_eq s JobStatus.draft || job_status_eq s JobStatus.in_progress

-- The version is the template's published one; the client names only the template.
unfoldable pub assign_checklist : Actor → ℕ → ℕ → Db → Db → Result Db
unfolding attach_checklist insert_steps filter find sort_on
assign_checklist actor job_id template_id before db = do
  _ ← load_scoped_job actor job_id before
  job ← present (find_job job_id db) Code.job_state_invalid
  require (is_assignable_state job.status) Code.job_state_invalid
  require (not (is_some (find_checklist job_id db))) Code.checklist_exists
  version ← present (published_version template_id db) Code.no_published_version
  let steps = steps_of_version version.id db
  require (is_cons steps) Code.empty_version
  ok (attach_checklist actor job_id version.id steps db)
