-- ===== src/Store/Status.antt =====
-- The status columns: JOB_STATUSES of src/modules/jobs/jobs.validators.ts, the step statuses of
-- src/modules/checklist/execution.service.ts, and those of approvals, evidence, risks and matrices.
use easygas_guide_server.Common.{ℕ, Bool, true, false, ◌==◌}

pub data JobStatus : Type 0 where
  draft in_progress waiting_stop_approval rejected quality_review completed reopened cancelled :
      JobStatus

abbrev job_status_code : JobStatus → ℕ
job_status_code JobStatus.draft = 0
job_status_code JobStatus.in_progress = 1
job_status_code JobStatus.waiting_stop_approval = 2
job_status_code JobStatus.rejected = 3
job_status_code JobStatus.quality_review = 4
job_status_code JobStatus.completed = 5
job_status_code JobStatus.reopened = 6
job_status_code JobStatus.cancelled = 7

abbrev pub job_status_eq : JobStatus → JobStatus → Bool
job_status_eq a b = job_status_code a == job_status_code b

pub data StepStatus : Type 0 where
  pending completed waiting_approval approved rejected : StepStatus

abbrev step_status_code : StepStatus → ℕ
step_status_code StepStatus.pending = 0
step_status_code StepStatus.completed = 1
step_status_code StepStatus.waiting_approval = 2
step_status_code StepStatus.approved = 3
step_status_code StepStatus.rejected = 4

abbrev pub step_status_eq : StepStatus → StepStatus → Bool
step_status_eq a b = step_status_code a == step_status_code b

-- STEP_DONE_STATUSES.includes
abbrev pub is_done : StepStatus → Bool
is_done StepStatus.completed = true
is_done StepStatus.approved = true
is_done _ = false

pub data ApprovalStatus : Type 0 where
  pending approved rejected : ApprovalStatus

abbrev pub is_pending_approval : ApprovalStatus → Bool
is_pending_approval ApprovalStatus.pending = true
is_pending_approval _ = false

pub data EvidenceStatus : Type 0 where
  pending ready failed unverified : EvidenceStatus

abbrev pub is_pending_evidence : EvidenceStatus → Bool
is_pending_evidence EvidenceStatus.pending = true
is_pending_evidence _ = false

abbrev pub is_ready : EvidenceStatus → Bool
is_ready EvidenceStatus.ready = true
is_ready _ = false

pub data RiskStatus : Type 0 where
  open_risk mitigation_in_progress resolved rejected : RiskStatus

-- OPEN_STATUSES.includes
abbrev pub is_open : RiskStatus → Bool
is_open RiskStatus.open_risk = true
is_open RiskStatus.mitigation_in_progress = true
is_open _ = false

pub data MatrixStatus : Type 0 where
  draft active retired : MatrixStatus

abbrev pub is_active : MatrixStatus → Bool
is_active MatrixStatus.active = true
is_active _ = false

abbrev pub is_retired : MatrixStatus → Bool
is_retired MatrixStatus.retired = true
is_retired _ = false
