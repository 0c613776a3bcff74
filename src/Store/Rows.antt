-- ===== src/Store/Rows.antt =====
-- The rows of the tables, with the columns that the handlers read or write (migrations/ declares
-- them). Times are counted on the database's clock; hashes and digests are numbers.
use easygas_guide_server.Common.{ℕ, Bool, Option, Text}
use easygas_guide_server.Rbac.{Role}
use easygas_guide_server.Risk.{Level, Source, Num, Dyadic, MatrixDefinition}
use easygas_guide_server.Store.Status.{
  JobStatus, StepStatus, ApprovalStatus, EvidenceStatus, RiskStatus, MatrixStatus,
}

pub data GasType : Type 0 where
  lpg cng : GasType

pub record Installation : Type 0 where
  pub gas_type : Option GasType
  pub kit : Option Text
  pub ecu : Option Text
  pub cylinder : Option Text
  pub note : Option Text

-- `assignment_status` is ASSIGNED exactly where a technician is named, in every write below.
pub record Job : Type 0 where
  pub id : ℕ
  pub branch_id : ℕ
  pub customer_id : ℕ
  pub vehicle_id : ℕ
  pub created_by : ℕ
  pub status : JobStatus
  pub cycle : ℕ
  pub installation : Installation
  pub assigned_technician_id : Option ℕ
  pub assigned : Bool
  pub started_at : Option ℕ
  pub closed_by : Option ℕ
  pub closed_at : Option ℕ
  pub reopened_by : Option ℕ
  pub reopened_at : Option ℕ
  pub reopen_reason : Option Text
  pub cancelled_by : Option ℕ
  pub cancelled_at : Option ℕ
  pub cancel_reason : Option Text

pub record Customer : Type 0 where
  pub id : ℕ
  pub name : Text
  pub phone : Option Text
  pub deleted : Bool

pub record Vehicle : Type 0 where
  pub id : ℕ
  pub customer_id : ℕ
  pub plate_number : Text
  pub vin : Option Text
  pub make : Option Text
  pub model : Option Text
  pub year : Option ℕ
  pub deleted : Bool

pub record User : Type 0 where
  pub id : ℕ
  pub role : Role
  pub active : Bool
  pub branch_id : Option ℕ
  pub deleted : Bool

pub record TemplateVersion : Type 0 where
  pub id : ℕ
  pub template_id : ℕ
  pub version : ℕ
  pub published : Bool

pub record TemplateStep : Type 0 where
  pub id : ℕ
  pub version_id : ℕ
  pub sort_order : ℕ
  pub name : Text
  pub is_stop : Bool
  pub required_photos : ℕ

pub record MeasurementDef : Type 0 where
  pub id : ℕ
  pub step_id : ℕ
  pub required : Bool
  pub min_value : Option Dyadic
  pub max_value : Option Dyadic

pub record Checklist : Type 0 where
  pub id : ℕ
  pub job_id : ℕ
  pub version_id : ℕ
  pub assigned_by : ℕ
  pub completed_at : Option ℕ

pub record JobStep : Type 0 where
  pub id : ℕ
  pub job_checklist_id : ℕ
  pub step_id : ℕ
  pub status : StepStatus
  pub attempt : ℕ
  pub note : Option Text
  pub completed_by : Option ℕ
  pub completed_at : Option ℕ

pub record StopApproval : Type 0 where
  pub id : ℕ
  pub job_id : ℕ
  pub job_step_id : ℕ
  pub status : ApprovalStatus
  pub attempt : ℕ
  pub submitted_by : ℕ
  pub decided_by : Option ℕ
  pub decided_at : Option ℕ
  pub reject_reason : Option Text

pub record Photo : Type 0 where
  pub id : ℕ
  pub job_id : ℕ
  pub job_step_id : ℕ
  pub attempt : ℕ
  pub status : EvidenceStatus
  pub storage_key : ℕ
  pub size_bytes : ℕ
  pub hash : ℕ
  pub created_by : ℕ

pub record Measurement : Type 0 where
  pub job_step_id : ℕ
  pub measurement_id : ℕ
  pub value : Dyadic
  pub is_within_range : Bool
  pub attempt : ℕ

pub record Signature : Type 0 where
  pub id : ℕ
  pub job_id : ℕ
  pub customer_id : ℕ
  pub cycle : ℕ
  pub status : EvidenceStatus
  pub superseded_at : Option ℕ
  pub storage_key : ℕ
  pub size_bytes : ℕ
  pub hash : ℕ
  pub summary_digest : Option ℕ

pub record RiskEvent : Type 0 where
  pub id : ℕ
  pub job_id : ℕ
  pub cycle : ℕ
  pub job_step_id : Option ℕ
  pub attempt : Option ℕ
  pub hazard : Text
  pub description : Text
  pub severity : Num
  pub likelihood : Num
  pub score : ℕ
  pub level : Level
  pub blocking : Bool
  pub matrix_version : Text
  pub source : Source
  pub status : RiskStatus
  pub created_by : ℕ
  pub responsible_user_id : Option ℕ
  pub mitigation : Option Text
  pub resolution_note : Option Text
  pub resolved_by : Option ℕ
  pub resolved_at : Option ℕ
  pub resolution_stop_approval_id : Option ℕ
  pub supersedes_id : Option ℕ

pub record Matrix : Type 0 where
  pub id : ℕ
  pub version : Text
  pub definition : MatrixDefinition
  pub status : MatrixStatus
  pub superseded_by : Option ℕ
  pub approved_by : Option ℕ
  pub approved_at : Option ℕ
  pub rationale : Option Text

pub data Provenance : Type 0 where
  self_at_creation reassigned unassigned : Provenance

pub record Assignment : Type 0 where
  pub job_id : ℕ
  pub cycle : ℕ
  pub technician_id : Option ℕ
  pub assigned_by : ℕ
  pub provenance : Provenance
  pub reason : Option Text

pub record Snapshot : Type 0 where
  pub job_id : ℕ
  pub cycle : ℕ
  pub digest : ℕ
  pub summary_digest : ℕ
  pub signature_hash : Option ℕ
  pub finalized_by : ℕ
