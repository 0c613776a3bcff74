-- ===== src/Store.antt =====
-- The database: a table is the list of its rows. One counter stands for the tables' automatic
-- ids. An audit record keeps who did what to which entity; the hash chain over it is in AuditChain.
mod Status
mod Rows
pub use Status.*
pub use Rows.*
use easygas_guide_server.Common.{
  ℕ, ◌+◌, Bool, true, false, Option, none, some, List, [], ◌∷◌, ◌++◌, ◌==◌, Text, find, update,
}

pub data Action : Type 0 where
  job_created job_started job_cancelled job_installation_updated job_reassigned job_unassigned :
      Action
  checklist_assigned step_completed stop_submitted stop_approved stop_rejected
        stop_correction_started step_correction_started :
      Action
  risk_created risk_revised risk_resolved risk_override : Action
  risk_matrix_created risk_matrix_activated risk_matrix_retired : Action
  signature_upload_started signature_upload_failed signature_invalidated signature_superseded
        customer_signed completion_snapshot_finalized :
      Action
  photo_upload_started photo_upload_failed photo_upload_ready : Action
  quality_review_requested job_closed job_reopened : Action

pub data Entity : Type 0 where
  job job_step stop_approval risk_event job_photo : ℕ → Entity
  risk_matrix : Text → Entity

pub record AuditRecord : Type 0 where
  pub user_id : ℕ
  pub action : Action
  pub entity : Entity

pub record Db : Type 0 where
  pub jobs : List Job
  pub customers : List Customer
  pub vehicles : List Vehicle
  pub users : List User
  pub template_versions : List TemplateVersion
  pub template_steps : List TemplateStep
  pub measurement_defs : List MeasurementDef
  pub checklists : List Checklist
  pub steps : List JobStep
  pub approvals : List StopApproval
  pub photos : List Photo
  pub measurements : List Measurement
  pub signatures : List Signature
  pub risks : List RiskEvent
  pub matrices : List Matrix
  pub assignments : List Assignment
  pub snapshots : List Snapshot
  pub audit : List AuditRecord
  pub next_id : ℕ

-- `logAudit` of src/modules/audit/audit.service.ts, inside the caller's transaction.
abbrev pub log_audit : ℕ → Action → Entity → Db → Db
log_audit user action entity db = record db {
  audit = db.audit ++ record { user_id = user; action = action; entity = entity } ∷ [];
}

-- `trx('jobs').where({ id }).first()`
unfoldable pub find_job : ℕ → Db → Option Job
unfolding find
find_job id db = find (λ j. j.id == id) db.jobs

abbrev pub update_job : ℕ → (Job → Job) → Db → Db
update_job id f db = record db { jobs = update (λ j. j.id == id) f db.jobs }

abbrev pub update_step : ℕ → (JobStep → JobStep) → Db → Db
update_step id f db = record db { steps = update (λ s. s.id == id) f db.steps }

-- `trx('job_checklists').where({ job_id }).first()`
unfoldable pub find_checklist : ℕ → Db → Option Checklist
unfolding find
find_checklist job_id db = find (λ c. c.job_id == job_id) db.checklists
