-- ===== src/RiskEvents.antt =====
-- src/modules/risk/risk.service.ts: raising, resolving, revising and overriding a risk, the risk
-- linked to a rejected STOP, and the count of blocking risks that gates completion.
pub mod Blocking
use easygas_guide_server.Common.{
  ℕ, ◌+◌, Bool, true, false, not, ◌&&◌, ◌||◌, Option, none, some, List, [], ◌∷◌, ◌++◌, ◌==◌, Text,
  text, trim, is_blank, slice_to, find, filter, update, count, is_some, same_id, if◌then◌else◌,
}
use easygas_guide_server.Api.{Code, Result, ok, err, ◌>>=◌, ◌>>◌, require, present}
use easygas_guide_server.Rbac.{Actor, can, risks_create, risks_resolve, risks_override}
use easygas_guide_server.Risk.{Source, stop_rejected, source_eq, Num, whole}
use easygas_guide_server.RiskPolicy.{Assessment, assess_risk}
use easygas_guide_server.Jobs.{load_scoped_job}
use easygas_guide_server.Store.{
  Db, Job, JobStatus, job_status_eq, RiskEvent, RiskStatus, is_open, JobStep, Checklist,
  find_checklist, log_audit, Entity, risk_created, risk_revised, risk_resolved, risk_override,
}

unfoldable pub is_risk_raisable : Job → Bool
is_risk_raisable job =
    not (job_status_eq job.status JobStatus.completed)
    && not (job_status_eq job.status JobStatus.cancelled)

unfoldable pub is_open_blocking : ℕ → ℕ → RiskEvent → Bool
is_open_blocking job_id cycle r =
    (r.job_id == job_id && r.cycle == cycle) && (r.blocking && is_open r.status)

unfoldable pub count_open_blocking_risks : ℕ → ℕ → Db → ℕ
unfolding count is_open_blocking
count_open_blocking_risks job_id cycle db = count (is_open_blocking job_id cycle) db.risks

pub record RiskInput : Type 0 where
  pub hazard : Text
  pub description : Text
  pub severity : Num
  pub likelihood : Num
  pub job_step_id : Option ℕ
  pub responsible_user_id : Option ℕ
  pub source : Option Source

-- `a ?? b`
abbrev pub or_else {ℓ} : {A : Type ℓ} → Option A → Option A → Option A
or_else none b = b
or_else (some a) b = some a

abbrev pub get_or {ℓ} : {A : Type ℓ} → Option A → A → A
get_or none b = b
get_or (some a) b = a

abbrev new_risk : ℕ → ℕ → ℕ → RiskInput → Source → Assessment → ℕ → RiskEvent
new_risk id job_id cycle input source a creator = record {
  id = id;
  job_id = job_id;
  cycle = cycle;
  job_step_id = input.job_step_id;
  attempt = none;
  hazard = input.hazard;
  description = input.description;
  severity = input.severity;
  likelihood = input.likelihood;
  score = a.assessed.score;
  level = a.assessed.level;
  blocking = a.assessed.blocking;
  matrix_version = a.matrix_version;
  source = source;
  status = RiskStatus.open_risk;
  created_by = creator;
  responsible_user_id = input.responsible_user_id;
  mitigation = none;
  resolution_note = none;
  resolved_by = none;
  resolved_at = none;
  resolution_stop_approval_id = none;
  supersedes_id = none;
}

abbrev pub insert_risk : RiskEvent → Db → Db
insert_risk r db = record db { risks = db.risks ++ r ∷ []; next_id = db.next_id + 1 }

-- The step, joined with its checklist, must belong to the job. Its attempt is recorded.
abbrev owned_by : List Checklist → ℕ → JobStep → Bool
owned_by checklists job_id s =
    is_some (find (λ (c : Checklist). c.id == s.job_checklist_id && c.job_id == job_id) checklists)

unfoldable pub step_attempt : Option ℕ → ℕ → Db → Result (Option ℕ)
unfolding find
step_attempt none job_id db = ok none
step_attempt (some step_id) job_id db = do
  step ←
      present (find (λ s. s.id == step_id && owned_by db.checklists job_id s) db.steps)
        Code.invalid_step
  ok (some step.attempt)

unfoldable pub create_risk : Actor → ℕ → RiskInput → Db → Result (ℕ × Db)
unfolding load_scoped_job is_risk_raisable step_attempt
create_risk actor job_id input db = do
  require (can actor.role risks_create) Code.forbidden
  require (not (is_blank input.hazard) && not (is_blank input.description)) Code.risk_input_required
  let source = get_or input.source Source.manual
  job ← load_scoped_job actor job_id db
  require (is_risk_raisable job) Code.job_not_workable
  a ← assess_risk db input.severity input.likelihood source
  attempt ← step_attempt input.job_step_id job_id db
  let id = db.next_id
  let r : RiskEvent = record (new_risk id job_id job.cycle input source a actor.id) {
    attempt = attempt;
    hazard = slice_to 80 (trim input.hazard);
    description = trim input.description;
    responsible_user_id = or_else input.responsible_user_id job.assigned_technician_id;
  }
  ok (id, log_audit actor.id risk_created (Entity.risk_event id) (insert_risk r db))

-- The open risk that a rejected STOP linked to this step.
unfoldable pub is_open_stop_risk : ℕ → ℕ → ℕ → RiskEvent → Bool
is_open_stop_risk job_id cycle step_id r =
    (r.job_id == job_id && r.cycle == cycle)
    && (same_id r.job_step_id (some step_id)
        && (source_eq r.source stop_rejected && is_open r.status))

pub record StopRiskArgs : Type 0 where
  pub job_id : ℕ
  pub cycle : ℕ
  pub job_step_id : ℕ
  pub attempt : ℕ
  pub actor_id : ℕ
  pub step_name : Text
  pub reason : Text

-- `STOP "${stepName}" rad etildi: ${reason}`, at most 1000 units.
stop_description : StopRiskArgs → Text
unfolding slice_to text
stop_description args =
    slice_to 1000
      (text "STOP " ++ (b'"' ∷ (args.step_name ++ (b'"' ∷ (text " rad etildi: " ++ args.reason)))))

unfoldable stop_risk_input : StopRiskArgs → RiskInput
unfolding text stop_description
stop_risk_input args = record {
  hazard = text "STOP_CHECKPOINT_REJECTED";
  description = stop_description args;
  severity = whole 4;
  likelihood = whole 4;
  job_step_id = some args.job_step_id;
  responsible_user_id = none;
  source = some stop_rejected;
}

-- Called inside the transaction that rejects a STOP; one open record for each step and cycle.
unfoldable pub link_stop_rejection_risk : StopRiskArgs → Db → Result Db
unfolding find is_open_stop_risk stop_risk_input
link_stop_rejection_risk args db =
    let linked = (do
      a ← assess_risk db (whole 4) (whole 4) stop_rejected
      let id = db.next_id
      let input = stop_risk_input args
      let r : RiskEvent =
          record (new_risk id args.job_id args.cycle input stop_rejected a args.actor_id) {
            attempt = some args.attempt;
          }
      ok (log_audit args.actor_id risk_created (Entity.risk_event id) (insert_risk r db))) in
    elim (find (is_open_stop_risk args.job_id args.cycle args.job_step_id) db.risks) [
      | some existing ↦ ok db
      | none ↦ linked
    ]

abbrev resolve_row : ℕ → ℕ → Option Text → RiskEvent → RiskEvent
resolve_row user now note r = record r {
  status = RiskStatus.resolved;
  resolved_by = some user;
  resolved_at = some now;
  resolution_note = note;
}

-- The loop over the linked risks when the STOP is approved.
unfoldable pub resolve_all : ℕ → ℕ → ℕ → Text → List RiskEvent → Db → Db
unfolding update
resolve_all user approval_id now note [] db = db
resolve_all user approval_id now note (r ∷ rs) db = resolve_all user approval_id now note rs (
    log_audit user risk_resolved (Entity.risk_event r.id) (record db {
      risks =
          update (λ x. x.id == r.id)
            (λ x. record (resolve_row user now (some note) x) {
              resolution_stop_approval_id = some approval_id;
            })
            db.risks;
    }))

unfoldable pub resolve_stop_risk : ℕ → ℕ → ℕ → ℕ → ℕ → ℕ → Text → Db → Db
unfolding resolve_all filter is_open_stop_risk
resolve_stop_risk job_id cycle step_id user approval_id now note db =
    resolve_all user approval_id now note (filter (is_open_stop_risk job_id cycle step_id) db.risks)
      db

abbrev find_risk : ℕ → Db → Option RiskEvent
find_risk id db = find (λ r. r.id == id) db.risks

unfoldable pub resolve_risk : Actor → ℕ → Text → Option Text → ℕ → Db → Result Db
unfolding load_scoped_job
resolve_risk actor risk_id note mitigation now db = do
  require (can actor.role risks_resolve) Code.forbidden
  require (not (is_blank note)) Code.resolution_note_required
  risk ← present (find_risk risk_id db) Code.not_found
  _ ← load_scoped_job actor risk.job_id db
  require (is_open risk.status) Code.risk_not_open
  let write = λ (r : RiskEvent). record (resolve_row actor.id now (some (trim note)) r) {
    mitigation = or_else mitigation risk.mitigation;
  }
  ok (
      log_audit actor.id risk_resolved (Entity.risk_event risk_id)
        (record db { risks = update (λ r. r.id == risk_id) write db.risks }))

pub record ReviseInput : Type 0 where
  pub severity : Num
  pub likelihood : Num
  pub hazard : Option Text
  pub description : Option Text
  pub reason : Text

-- A correction inserts a superseding row; the original stays, with status REJECTED.
unfoldable pub revise_risk : Actor → ℕ → ReviseInput → Db → Result (ℕ × Db)
unfolding load_scoped_job
revise_risk actor risk_id input db = do
  require (can actor.role risks_resolve) Code.forbidden
  require (not (is_blank input.reason)) Code.revision_reason_required
  orig ← present (find_risk risk_id db) Code.not_found
  _ ← load_scoped_job actor orig.job_id db
  require (is_open orig.status) Code.risk_not_open
  a ← assess_risk db input.severity input.likelihood orig.source
  let id = db.next_id
  let r : RiskEvent = record orig {
    id = id;
    hazard = slice_to 80 (get_or input.hazard orig.hazard);
    description = get_or input.description orig.description;
    severity = input.severity;
    likelihood = input.likelihood;
    score = a.assessed.score;
    level = a.assessed.level;
    blocking = a.assessed.blocking;
    matrix_version = a.matrix_version;
    status = RiskStatus.open_risk;
    created_by = actor.id;
    mitigation = none;
    resolution_note = none;
    resolved_by = none;
    resolved_at = none;
    resolution_stop_approval_id = none;
    supersedes_id = some orig.id;
  }
  let inserted = insert_risk r db
  ok (
    id,
    log_audit actor.id risk_revised (Entity.risk_event id) (record inserted {
      risks =
          update (λ x. x.id == orig.id) (λ x. record x { status = RiskStatus.rejected })
            inserted.risks;
    }),
  )

-- `OVERRIDE: ${reason}`
override_note : Text → Text
unfolding text
override_note reason = text "OVERRIDE: " ++ reason

unfoldable pub override_risk : Actor → ℕ → Text → ℕ → Db → Result Db
unfolding load_scoped_job override_note
override_risk actor risk_id reason now db = do
  require (can actor.role risks_override) Code.forbidden
  require (not (is_blank reason)) Code.override_reason_required
  risk ← present (find_risk risk_id db) Code.not_found
  _ ← load_scoped_job actor risk.job_id db
  require (is_open risk.status) Code.risk_not_open
  let write = resolve_row actor.id now (some (override_note (trim reason)))
  ok (
      log_audit actor.id risk_override (Entity.risk_event risk_id)
        (record db { risks = update (λ r. r.id == risk_id) write db.risks }))
