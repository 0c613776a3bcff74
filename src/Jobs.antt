-- ===== src/Jobs.antt =====
-- src/modules/jobs: the cycle helpers of job-cycle.ts, creation and the explicit transitions of
-- jobs.service.ts, and assignment.service.ts. `now` is the database's clock at the statement.
pub mod Diagram
pub mod Transitions
pub mod Scope
use easygas_guide_server.Common.{
  ℕ, zero, suc, ◌+◌, Bool, true, false, not, ◌&&◌, ◌||◌, Option, none, some, List, [], ◌∷◌, ◌++◌,
  ◌==◌, leb, Text, text_eq, find, update, any, is_some, same_id, if◌then◌else◌,
}
use easygas_guide_server.Api.{Code, Result, ok, err, ◌>>=◌, ◌>>◌, require, present}
use easygas_guide_server.Rbac.{
  Role, usta, master, role_eq, Actor, jobs_branch_scope, in_scope, can, jobs_assign,
}
use easygas_guide_server.RiskPolicy.{assert_risk_policy_approved}
use easygas_guide_server.Store.{
  Db, Job, Customer, Vehicle, User, JobStatus, job_status_eq, GasType, lpg, cng, Installation,
  Assignment, Provenance, self_at_creation, reassigned, unassigned, find_job, update_job, log_audit,
  Entity, job_created, job_started, job_cancelled, job_installation_updated, job_reassigned,
  job_unassigned,
}

-- After REOPENED, the comparison of the two times decides; a close and a reopening in one second
-- count as reopened.
abbrev reopened_last : Option ℕ → Option ℕ → Bool
reopened_last none closed_at = false
reopened_last (some r) none = true
reopened_last (some r) (some c) = leb c r

unfoldable pub is_reopen_cycle : Job → Bool
is_reopen_cycle j =
    if job_status_eq j.status JobStatus.reopened
    then true
    else reopened_last j.reopened_at j.closed_at

unfoldable pub working_status : Job → JobStatus
unfolding is_reopen_cycle
working_status j = if is_reopen_cycle j then JobStatus.reopened else JobStatus.in_progress

unfoldable pub is_workable : Job → Bool
is_workable j =
    job_status_eq j.status JobStatus.in_progress || job_status_eq j.status JobStatus.reopened

-- The row of a job in the actor's scope; any other is "not found".
unfoldable pub load_scoped_job : Actor → ℕ → Db → Result Job
load_scoped_job actor id db = do
  job ← present (find_job id db) Code.not_found
  require (in_scope (jobs_branch_scope actor) job.branch_id) Code.not_found
  ok job

unfoldable pub lock_job_for_transition : Actor → ℕ → List JobStatus → Db → Result Job
unfolding load_scoped_job
lock_job_for_transition actor id allowed_from db = do
  job ← load_scoped_job actor id db
  require (any (job_status_eq job.status) allowed_from) Code.invalid_transition
  ok job

-- ASSIGNABLE_ROLES.includes
abbrev pub is_assignable : Role → Bool
is_assignable role = role_eq role usta || role_eq role master

unfoldable pub assign_at_creation : ℕ → Actor → ℕ → Db → Db
assign_at_creation job_id creator cycle db =
    if is_assignable creator.role
    then record (update_job job_id
        (λ j. record j { assigned_technician_id = some creator.id; assigned = true }) db) {
          assignments =
              db.assignments
              ++ record {
                job_id = job_id;
                cycle = cycle;
                technician_id = some creator.id;
                assigned_by = creator.id;
                provenance = self_at_creation;
                reason = none;
              }
                ∷ [];
        }
    else db

-- `!actor.branchId`: null and 0 are no branch.
abbrev pub truthy_id : Option ℕ → Option ℕ
truthy_id none = none
truthy_id (some zero) = none
truthy_id (some (suc n)) = some (suc n)

abbrev new_job : ℕ → ℕ → ℕ → ℕ → ℕ → Job
new_job id branch customer vehicle creator = record {
  id = id;
  branch_id = branch;
  customer_id = customer;
  vehicle_id = vehicle;
  created_by = creator;
  status = JobStatus.draft;
  cycle = 1;
  installation = record { gas_type = none; kit = none; ecu = none; cylinder = none; note = none };
  assigned_technician_id = none;
  assigned = false;
  started_at = none;
  closed_by = none;
  closed_at = none;
  reopened_by = none;
  reopened_at = none;
  reopen_reason = none;
  cancelled_by = none;
  cancelled_at = none;
  cancel_reason = none;
}

unfoldable pub create_job : Actor → ℕ → ℕ → Db → Result (ℕ × Db)
unfolding assign_at_creation find
create_job actor customer_id vehicle_id db = do
  branch ← present (truthy_id actor.branch_id) Code.no_branch
  customer ←
      present (find (λ c. c.id == customer_id && not c.deleted) db.customers) Code.invalid_customer
  vehicle ←
      present (find (λ v. v.id == vehicle_id && not v.deleted) db.vehicles) Code.invalid_vehicle
  require (vehicle.customer_id == customer_id) Code.vehicle_customer_mismatch
  let id = db.next_id
  let inserted = record db {
    jobs = db.jobs ++ new_job id branch customer_id vehicle_id actor.id ∷ [];
    next_id = id + 1;
  }
  ok (id, log_audit actor.id job_created (Entity.job id) (assign_at_creation id actor 1 inserted))

unfoldable pub start_job : Actor → ℕ → ℕ → Db → Result Db
unfolding lock_job_for_transition
start_job actor id now db = do
  _ ← lock_job_for_transition actor id (JobStatus.draft ∷ []) db
  assert_risk_policy_approved db
  ok (
      log_audit actor.id job_started (Entity.job id) (
        update_job id (λ j. record j { status = JobStatus.in_progress; started_at = some now }) db))

-- A field of the request is absent, null or a value.
pub record InstallationInput : Type 0 where
  pub gas_type : Option (Option GasType)
  pub kit : Option (Option Text)
  pub ecu : Option (Option Text)
  pub cylinder : Option (Option Text)
  pub note : Option (Option Text)

abbrev gas_eq : GasType → GasType → Bool
gas_eq lpg lpg = true
gas_eq cng cng = true
gas_eq _ _ = false

module _ {A : Type 0} where
  abbrev same : (A → A → Bool) → Option A → Option A → Bool
  same eq none none = true
  same eq (some a) (some b) = eq a b
  same eq _ _ = false

  -- `next !== undefined && next !== current`
  abbrev is_change : (A → A → Bool) → Option (Option A) → Option A → Bool
  is_change eq none current = false
  is_change eq (some next) current = not (same eq next current)

  abbrev take_change : (A → A → Bool) → Option (Option A) → Option A → Option A
  take_change eq none current = current
  take_change eq (some next) current = if same eq next current then current else next

unfoldable pub has_changes : InstallationInput → Installation → Bool
has_changes input current =
    is_change gas_eq input.gas_type current.gas_type
    || is_change text_eq input.kit current.kit
    || is_change text_eq input.ecu current.ecu
    || is_change text_eq input.cylinder current.cylinder
    || is_change text_eq input.note current.note

unfoldable pub apply_changes : InstallationInput → Installation → Installation
apply_changes input current = record {
  gas_type = take_change gas_eq input.gas_type current.gas_type;
  kit = take_change text_eq input.kit current.kit;
  ecu = take_change text_eq input.ecu current.ecu;
  cylinder = take_change text_eq input.cylinder current.cylinder;
  note = take_change text_eq input.note current.note;
}

unfoldable pub update_installation : Actor → ℕ → InstallationInput → Db → Result Db
unfolding lock_job_for_transition has_changes apply_changes
update_installation actor id input db = do
  job ← lock_job_for_transition actor id (JobStatus.draft ∷ JobStatus.in_progress ∷ []) db
  let next = apply_changes input job.installation
  ok (
      if has_changes input job.installation
      then log_audit actor.id job_installation_updated (Entity.job id)
          (update_job id (λ j. record j { installation = next }) db)
      else db)

unfoldable pub cancel_job : Actor → ℕ → Text → ℕ → Db → Result Db
unfolding lock_job_for_transition
cancel_job actor id reason now db = do
  _ ← lock_job_for_transition actor id (JobStatus.draft ∷ JobStatus.in_progress ∷ []) db
  ok (
      log_audit actor.id job_cancelled (Entity.job id) (
        update_job id
          (λ j. record j {
            status = JobStatus.cancelled;
            cancel_reason = some reason;
            cancelled_by = some actor.id;
            cancelled_at = some now;
          })
          db))

-- TERMINAL.includes
abbrev pub is_terminal : JobStatus → Bool
is_terminal status =
    job_status_eq status JobStatus.completed || job_status_eq status JobStatus.cancelled

abbrev set_technician : ℕ → Option ℕ → Db → Db
set_technician id technician =
    update_job id
      (λ j. record j { assigned_technician_id = technician; assigned = is_some technician })

abbrev add_assignment : Job → Option ℕ → ℕ → Provenance → Option Text → Db → Db
add_assignment job technician by provenance reason db = record db {
  assignments =
      db.assignments
      ++ record {
        job_id = job.id;
        cycle = job.cycle;
        technician_id = technician;
        assigned_by = by;
        provenance = provenance;
        reason = reason;
      }
        ∷ [];
}

unfoldable pub reassign : Actor → ℕ → ℕ → Option Text → Db → Result Db
unfolding load_scoped_job
reassign actor job_id technician_id reason db = do
  require (can actor.role jobs_assign) Code.forbidden
  job ← load_scoped_job actor job_id db
  require (not (is_terminal job.status)) Code.job_terminal
  target ←
      present (find (λ u. u.id == technician_id && not u.deleted) db.users) Code.invalid_technician
  require target.active Code.technician_inactive
  require (is_assignable target.role) Code.role_not_assignable
  require (same_id target.branch_id (some job.branch_id)) Code.cross_branch_assignment
  ok (
      log_audit actor.id job_reassigned (Entity.job job_id) (
        add_assignment job (some technician_id) actor.id reassigned reason
          (set_technician job_id (some technician_id) db)))

unfoldable pub unassign : Actor → ℕ → Option Text → Db → Result Db
unfolding load_scoped_job
unassign actor job_id reason db = do
  require (can actor.role jobs_assign) Code.forbidden
  job ← load_scoped_job actor job_id db
  require (not (is_terminal job.status)) Code.job_terminal
  ok (
      log_audit actor.id job_unassigned (Entity.job job_id)
        (add_assignment job none actor.id unassigned reason (set_technician job_id none db)))

abbrev assigned_to : Option ℕ → ℕ → Bool
assigned_to none user = true
assigned_to (some technician) user = technician == user

-- Who may perform the job's checklist work.
unfoldable pub can_execute_job : Actor → Job → Bool
can_execute_job actor job =
    if role_eq actor.role master then true else assigned_to job.assigned_technician_id actor.id
