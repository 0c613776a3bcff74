-- ===== src/System/Fixtures.antt =====
-- A small store for the tests: one job with a checklist of one normal step and one STOP step.
use easygas_guide_server.Common.{
  ℕ, Bool, true, false, Option, none, some, List, [], ◌∷◌, ◌==◌, text,
}
use easygas_guide_server.Api.{Result, ok, err}
use easygas_guide_server.Rbac.{Role, Actor}
use easygas_guide_server.Risk.{Dyadic, v1_definition}
use easygas_guide_server.Store.{
  Db, Job, JobStatus, TemplateStep, MeasurementDef, Checklist, JobStep, StepStatus, Photo,
  EvidenceStatus, Measurement, Signature, Matrix, MatrixStatus,
}
use easygas_guide_server.Completion.{Stat, missing, size}
use easygas_guide_server.Completion.Summary.{Digests}
use easygas_guide_server.Completion.Sign.{Upload, image}

abbrev pub chief : Actor
chief = record { id = 2; role = Role.master; branch_id = some 3 }

abbrev pub technician : Actor
technician = record { id = 5; role = Role.usta; branch_id = some 3 }

abbrev pub stranger : Actor
stranger = record { id = 6; role = Role.master; branch_id = some 4 }

-- Reopens jobs, confirms quality and governs the matrices.
abbrev pub inspector : Actor
inspector = record { id = 7; role = Role.sifat; branch_id = none }

abbrev pub the_job : JobStatus → ℕ → Job
the_job status cycle = record {
  id = 1;
  branch_id = 3;
  customer_id = 8;
  vehicle_id = 9;
  created_by = 2;
  status = status;
  cycle = cycle;
  installation = record { gas_type = none; kit = none; ecu = none; cylinder = none; note = none };
  assigned_technician_id = some 5;
  assigned = true;
  started_at = some 1;
  closed_by = none;
  closed_at = none;
  reopened_by = none;
  reopened_at = none;
  reopen_reason = none;
  cancelled_by = none;
  cancelled_at = none;
  cancel_reason = none;
}

abbrev pub the_matrix : Matrix
the_matrix = record {
  id = 60;
  version = text "v1";
  definition = v1_definition;
  status = MatrixStatus.active;
  superseded_by = none;
  approved_by = some 7;
  approved_at = some 1;
  rationale = none;
}

abbrev pub the_draft : Matrix
the_draft = record the_matrix { id = 61; version = text "v2"; status = MatrixStatus.draft }

abbrev pub the_template : TemplateStep
the_template = record {
  id = 21;
  version_id = 20;
  sort_order = 1;
  name = text "A";
  is_stop = false;
  required_photos = 1;
}

abbrev pub the_stop : TemplateStep
the_stop = record the_template {
  id = 22;
  sort_order = 2;
  name = text "B";
  is_stop = true;
  required_photos = 0;
}

abbrev pub the_step : StepStatus → JobStep
the_step status = record {
  id = 11;
  job_checklist_id = 10;
  step_id = 21;
  status = status;
  attempt = 1;
  note = none;
  completed_by = some 5;
  completed_at = some 2;
}

abbrev pub the_stop_step : StepStatus → JobStep
the_stop_step status = record (the_step status) { id = 12; step_id = 22 }

abbrev pub the_photo : Photo
the_photo = record {
  id = 31;
  job_id = 1;
  job_step_id = 11;
  attempt = 1;
  status = EvidenceStatus.ready;
  storage_key = 100;
  size_bytes = 50;
  hash = 3;
  created_by = 5;
}

abbrev pub two : Dyadic
two = record { negative = false; mantissa = 2; exponent = 0 }

abbrev pub the_def : MeasurementDef
the_def = record { id = 41; step_id = 21; required = true; min_value = none; max_value = some two }

abbrev pub the_measurement : Measurement
the_measurement = record {
  job_step_id = 11;
  measurement_id = 41;
  value = two;
  is_within_range = true;
  attempt = 1;
}

abbrev pub the_signature : Signature
the_signature = record {
  id = 51;
  job_id = 1;
  customer_id = 8;
  cycle = 1;
  status = EvidenceStatus.ready;
  superseded_at = none;
  storage_key = 200;
  size_bytes = 60;
  hash = 4;
  summary_digest = some 7;
}

abbrev pub the_checklist : Option ℕ → Checklist
the_checklist completed_at = record {
  id = 10;
  job_id = 1;
  version_id = 20;
  assigned_by = 2;
  completed_at = completed_at;
}

abbrev pub store :
    Job → List Checklist → List JobStep → List Photo → List Measurement → List Signature → Db
store job checklists steps photos measurements signatures = record {
  jobs = job ∷ [];
  customers = [];
  vehicles = [];
  users = [];
  template_versions = [];
  template_steps = the_template ∷ the_stop ∷ [];
  measurement_defs = the_def ∷ [];
  checklists = checklists;
  steps = steps;
  approvals = [];
  photos = photos;
  measurements = measurements;
  signatures = signatures;
  risks = [];
  matrices = the_matrix ∷ the_draft ∷ [];
  assignments = [];
  snapshots = [];
  audit = [];
  next_id = 1000;
}

-- The job under work, its evidence complete and signed.
abbrev pub finished : JobStatus → Db
finished status =
    store (the_job status 1) (the_checklist (some 2) ∷ [])
      (the_step StepStatus.completed ∷ the_stop_step StepStatus.approved ∷ []) (the_photo ∷ [])
      (the_measurement ∷ []) (the_signature ∷ [])

-- The first step is photographed, and the STOP step follows.
abbrev pub underway : StepStatus → Db
underway first =
    store (the_job JobStatus.in_progress 1) (the_checklist none ∷ [])
      (the_step first ∷ the_stop_step StepStatus.pending ∷ []) (the_photo ∷ []) [] []

abbrev pub digests : Digests
digests = record { summary = λ _. 7; content = λ _. 9 }

abbrev pub storage : ℕ → Stat
storage key = if_known (key == 100) (size 50) (if_known (key == 200) (size 60) missing)
  where
    if_known : Bool → Stat → Stat → Stat
    if_known true a b = a
    if_known false a b = b

abbrev pub the_upload : Upload
the_upload = record { inspection = image; size = 50; hash = 3; storage_key = 300 }

-- The store of a result, or another where it is an error.
abbrev pub after : Result Db → Db → Db
after (ok r) other = r
after (err e) other = other
