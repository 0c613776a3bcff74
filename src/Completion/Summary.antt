-- ===== src/Completion/Summary.antt =====
-- src/modules/completion/summary.service.ts: the material work state that the customer signs, and
-- the content of the completion snapshot. SHA-256 over the canonical serialization is a pair of
-- parameters.
use easygas_guide_server.Common.{
  ℕ, Bool, ◌&&◌, Option, none, some, List, [], ◌∷◌, ◌++◌, ◌==◌, leb, Text, text, length, map, find,
  filter, sort_on, is_some, if◌then◌else◌,
}
use easygas_guide_server.Risk.{Dyadic, Level, Source}
use easygas_guide_server.RiskEvents.{is_open_blocking}
use easygas_guide_server.Store.{
  Db, Job, JobStatus, StepStatus, Installation, Photo, is_ready, Measurement, StopApproval,
  ApprovalStatus, TemplateVersion, RiskEvent, RiskStatus, Signature, find_job, find_checklist,
}
use easygas_guide_server.Completion.{
  Joined, join_steps, relevant_attempt, find_last, is_active_signature,
}

pub record PhotoSummary : Type 0 where
  pub photo_id : ℕ
  pub sha256 : ℕ
  pub size : ℕ

pub record MeasurementSummary : Type 0 where
  pub measurement_id : ℕ
  pub value : Dyadic
  pub within_range : Bool

pub record StepSummary : Type 0 where
  pub step_id : ℕ
  pub job_step_id : ℕ
  pub order : ℕ
  pub name : Text
  pub is_stop : Bool
  pub status : StepStatus
  pub attempt : ℕ
  pub required_photos : ℕ
  pub evidence : List PhotoSummary
  pub measurements : List MeasurementSummary

pub record StopSummary : Type 0 where
  pub job_step_id : ℕ
  pub attempt : ℕ
  pub status : ApprovalStatus

pub record CustomerSummary : Type 0 where
  pub id : ℕ
  pub name : Text
  pub phone_masked : Option Text

pub record VehicleSummary : Type 0 where
  pub id : ℕ
  pub plate : Text
  pub vin : Option Text
  pub make : Option Text
  pub model : Option Text
  pub year : Option ℕ

pub record Summary : Type 0 where
  pub job_id : ℕ
  pub cycle : ℕ
  pub branch_id : ℕ
  pub assigned_technician_id : Option ℕ
  pub checklist_template_id : Option ℕ
  pub checklist_version : Option ℕ
  pub installation : Installation
  pub customer : Option CustomerSummary
  pub vehicle : Option VehicleSummary
  pub steps : List StepSummary
  pub stops : List StopSummary
  pub open_blocking_risk_ids : List ℕ

abbrev is_digit : ℕ → Bool
is_digit c = leb b'0' c && leb c b'9'

last_four : Text → Text
last_four [] = []
last_four (c ∷ s) = let rest = last_four s in if leb (length s) 3 then c ∷ s else rest

-- `***` and the last four digits, if there are four.
unfoldable pub mask_phone : Option Text → Option Text
unfolding filter last_four text
mask_phone none = none
mask_phone (some []) = none
mask_phone (some (c ∷ s)) =
    let digits = filter is_digit (c ∷ s) in
    some (if leb 4 (length digits) then text "***" ++ last_four digits else text "***")

unfoldable pub step_summary : Db → Joined → StepSummary
unfolding filter sort_on relevant_attempt
step_summary db s =
    let attempt = relevant_attempt s.step.id db in
    let photos =
      filter
        (λ (p : Photo). p.job_step_id == s.step.id && (p.attempt == attempt && is_ready p.status))
        db.photos in
    let values =
      sort_on (λ m. m.measurement_id)
        (filter (λ (m : Measurement). m.job_step_id == s.step.id && m.attempt == attempt)
          db.measurements) in
    record {
      step_id = s.step.step_id;
      job_step_id = s.step.id;
      order = s.template.sort_order;
      name = s.template.name;
      is_stop = s.template.is_stop;
      status = s.step.status;
      attempt = attempt;
      required_photos = s.template.required_photos;
      evidence = map (λ p. record { photo_id = p.id; sha256 = p.hash; size = p.size_bytes }) photos;
      measurements =
          map
            (λ m. record {
              measurement_id = m.measurement_id;
              value = m.value;
              within_range = m.is_within_range;
            })
            values;
    }

-- The approvals of the steps, by step and attempt.
abbrev stop_rows : List Joined → List StopApproval → List StopApproval
stop_rows steps approvals =
    sort_on (λ a. a.job_step_id)
      (sort_on (λ a. a.attempt)
        (filter (λ a. is_some (find (λ s. s.step.id == a.job_step_id) steps)) approvals))

unfoldable pub collect_material : ℕ → Db → Option Summary
unfolding step_summary join_steps mask_phone find filter sort_on
collect_material job_id db = elim (find_job job_id db) [
  | none ↦ none
  | some job ↦
      let checklist = find_checklist job_id db in
      let version : Option TemplateVersion = elim checklist [
        | none ↦ none
        | some c ↦ find (λ v. v.id == c.version_id) db.template_versions
      ] in
      let steps : List Joined = elim checklist [
        | none ↦ []
        | some c ↦ sort_on (λ s. s.template.sort_order) (join_steps c.id db db.steps)
      ] in
      some (record {
        job_id = job_id;
        cycle = job.cycle;
        branch_id = job.branch_id;
        assigned_technician_id = job.assigned_technician_id;
        checklist_template_id = elim version [ none ↦ none | some v ↦ some v.template_id ];
        checklist_version = elim version [ none ↦ none | some v ↦ some v.version ];
        installation = job.installation;
        customer = elim (find (λ c. c.id == job.customer_id) db.customers) [
          | none ↦ none
          | some c ↦ some (record { id = c.id; name = c.name; phone_masked = mask_phone c.phone })
        ];
        vehicle = elim (find (λ v. v.id == job.vehicle_id) db.vehicles) [
          | none ↦ none
          | some v ↦ some (record {
            id = v.id;
            plate = v.plate_number;
            vin = v.vin;
            make = v.make;
            model = v.model;
            year = v.year;
          })
        ];
        steps = map (step_summary db) steps;
        stops =
            map
              (λ a. record { job_step_id = a.job_step_id; attempt = a.attempt; status = a.status })
              (stop_rows steps db.approvals);
        open_blocking_risk_ids =
            map (λ r. r.id) (filter (is_open_blocking job_id job.cycle) db.risks);
      })
]

pub record SignatureSummary : Type 0 where
  pub id : ℕ
  pub sha256 : ℕ
  pub size_bytes : ℕ
  pub summary_digest : Option ℕ

pub record RiskSummary : Type 0 where
  pub id : ℕ
  pub level : Level
  pub blocking : Bool
  pub status : RiskStatus
  pub source : Source
  pub matrix_version : Text

pub record Content : Type 0 where
  pub job_id : ℕ
  pub cycle : ℕ
  pub status : JobStatus
  pub branch_id : ℕ
  pub closed_by : Option ℕ
  pub technician_id : Option ℕ
  pub assigned : Bool
  pub summary : Summary
  pub summary_digest : ℕ
  pub signature : Option SignatureSummary
  pub risks : List RiskSummary
  pub finalized_by : ℕ

-- The digests: SHA-256 of the canonical text of a summary and of a snapshot's content.
pub record Digests : Type 0 where
  pub summary : Summary → ℕ
  pub content : Content → ℕ

abbrev digest_of : Digests → Option Summary → Option ℕ
digest_of d none = none
digest_of d (some m) = some (d.summary m)

unfoldable pub current_summary_digest : Digests → ℕ → Db → Option ℕ
current_summary_digest d job_id db = digest_of d (collect_material job_id db)

abbrev signature_summary : Option Signature → Option SignatureSummary
signature_summary none = none
signature_summary (some g) = some (record {
  id = g.id;
  sha256 = g.hash;
  size_bytes = g.size_bytes;
  summary_digest = g.summary_digest;
})

abbrev pub accepted_signature : ℕ → ℕ → Db → Option Signature
accepted_signature job_id cycle db = find_last (is_active_signature job_id cycle) db.signatures

unfoldable pub snapshot_content : Digests → Job → Summary → ℕ → ℕ → ℕ → Db → Content
unfolding find_last is_active_signature filter
snapshot_content d job m job_id cycle finalized_by db = record {
  job_id = job_id;
  cycle = cycle;
  status = job.status;
  branch_id = job.branch_id;
  closed_by = job.closed_by;
  technician_id = job.assigned_technician_id;
  assigned = job.assigned;
  summary = m;
  summary_digest = d.summary m;
  signature = signature_summary (accepted_signature job_id cycle db);
  risks =
      map
        (λ r. record {
          id = r.id;
          level = r.level;
          blocking = r.blocking;
          status = r.status;
          source = r.source;
          matrix_version = r.matrix_version;
        })
        (filter (λ (r : RiskEvent). r.job_id == job_id && r.cycle == cycle) db.risks);
  finalized_by = finalized_by;
}
