-- ===== src/Checklist/Stop.antt =====
-- src/modules/checklist/stop.service.ts: the decisions on a submitted STOP step and its rework.
-- The job is locked first, so each handler reads and writes one store.
use easygas_guide_server.Common.{ℕ, ◌+◌, ◌&&◌, Option, some, ◌==◌, Text, text, find, update}
use easygas_guide_server.Api.{Code, Result, ok, ◌>>=◌, ◌>>◌, require, present}
use easygas_guide_server.Rbac.{Actor}
use easygas_guide_server.Jobs.{load_scoped_job, working_status}
use easygas_guide_server.RiskEvents.{link_stop_rejection_risk, resolve_stop_risk}
use easygas_guide_server.Store.{
  Db, Job, JobStatus, job_status_eq, JobStep, StepStatus, step_status_eq, TemplateStep,
  StopApproval, ApprovalStatus, is_pending_approval, find_checklist, update_job, update_step,
  log_audit, Entity, stop_approved, stop_rejected, stop_correction_started,
}
use easygas_guide_server.Checklist.{template_of, complete_checklist_if_done}

pub record PendingStop : Type 0 where
  pub job : Job
  pub approval : StopApproval
  pub step : JobStep
  pub template : TemplateStep

abbrev pub pending_approval : ℕ → Db → Option StopApproval
pending_approval job_id db =
    find (λ a. a.job_id == job_id && is_pending_approval a.status) db.approvals

abbrev pub step_by_id : ℕ → Db → Option JobStep
step_by_id id db = find (λ s. s.id == id) db.steps

abbrev pub rejected_step : ℕ → Db → Option JobStep
rejected_step checklist_id db =
    find (λ s. s.job_checklist_id == checklist_id && step_status_eq s.status StepStatus.rejected)
      db.steps

unfoldable pub lock_pending_stop : Actor → ℕ → Db → Result PendingStop
unfolding load_scoped_job template_of find
lock_pending_stop actor job_id db = do
  job ← load_scoped_job actor job_id db
  require (job_status_eq job.status JobStatus.waiting_stop_approval) Code.job_not_waiting_stop
  approval ← present (pending_approval job_id db) Code.no_pending_stop
  step ← present (step_by_id approval.job_step_id db) Code.stop_step_state_invalid
  template ← present (template_of step db) Code.stop_step_state_invalid
  require (step_status_eq step.status StepStatus.waiting_approval) Code.stop_step_state_invalid
  ok (record { job = job; approval = approval; step = step; template = template })

abbrev decide : ApprovalStatus → ℕ → ℕ → Option Text → StopApproval → StopApproval
decide status user now reason a = record a {
  status = status;
  decided_by = some user;
  decided_at = some now;
  reject_reason = reason;
}

abbrev update_approval : ℕ → (StopApproval → StopApproval) → Db → Db
update_approval id f db = record db { approvals = update (λ a. a.id == id) f db.approvals }

-- The writes of an approval, in order.
unfoldable pub approve_writes : Actor → ℕ → PendingStop → ℕ → Db → Db
approve_writes actor job_id p now db =
    let settled =
      resolve_stop_risk job_id p.job.cycle p.step.id actor.id p.approval.id now
        (text "STOP tasdiqlandi (mitigatsiya qabul qilindi)") db in
    let decided =
      update_approval p.approval.id
        (λ a. record a {
          status = ApprovalStatus.approved;
          decided_by = some actor.id;
          decided_at = some now;
        })
        settled in
    let moved =
      update_job job_id (λ j. record j { status = working_status p.job })
        (update_step p.step.id (λ s. record s { status = StepStatus.approved }) decided) in
    log_audit actor.id stop_approved (Entity.stop_approval p.approval.id)
      (complete_checklist_if_done p.step.job_checklist_id now moved)

unfoldable pub approve_stop : Actor → ℕ → ℕ → Db → Result Db
unfolding lock_pending_stop approve_writes
approve_stop actor job_id now db = do
  p ← lock_pending_stop actor job_id db
  ok (approve_writes actor job_id p now db)

-- The rejected step becomes the current one again, as a new attempt; history stays.
unfoldable pub rework_stop : Actor → ℕ → Db → Result Db
unfolding load_scoped_job template_of working_status find
rework_stop actor job_id db = do
  job ← load_scoped_job actor job_id db
  require (job_status_eq job.status JobStatus.rejected) Code.job_not_rejected
  checklist ← present (find_checklist job_id db) Code.no_checklist
  step ← present (rejected_step checklist.id db) Code.no_rejected_step
  _ ← present (template_of step db) Code.no_rejected_step
  ok (
      log_audit actor.id stop_correction_started (Entity.job_step step.id) (
        update_job job_id (λ j. record j { status = working_status job })
          (update_step step.id
            (λ s. record s { status = StepStatus.pending; attempt = step.attempt + 1 }) db)))

unfoldable pub reject_stop : Actor → ℕ → Text → ℕ → Db → Result Db
unfolding lock_pending_stop
reject_stop actor job_id reason now db = do
  p ← lock_pending_stop actor job_id db
  let decided =
      update_approval p.approval.id (decide ApprovalStatus.rejected actor.id now (some reason)) db
  let moved =
      update_job job_id (λ j. record j { status = JobStatus.rejected })
        (update_step p.step.id (λ s. record s { status = StepStatus.rejected }) decided)
  linked ←
      link_stop_rejection_risk
        (record {
          job_id = job_id;
          cycle = p.job.cycle;
          job_step_id = p.step.id;
          attempt = p.step.attempt;
          actor_id = actor.id;
          step_name = p.template.name;
          reason = reason;
        })
        moved
  ok (log_audit actor.id stop_rejected (Entity.stop_approval p.approval.id) linked)
