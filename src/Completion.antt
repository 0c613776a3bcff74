-- ===== src/Completion.antt =====
-- validateJobCompletion and assertReadyEvidenceObjects of
-- src/modules/jobs/completion.service.ts: the completion gate. The messages of the reasons are
-- left out, and with them the order of the steps that give the same reason.
pub mod Reasons
pub mod Values
pub mod Gate
pub mod Summary
pub mod Close
pub mod Sign
pub mod Moves
pub mod Closing
pub mod Snapshots
pub mod Corrections
pub mod Recorded
pub mod Signing
pub mod Live
use easygas_guide_server.Common.{
  ℕ, suc, max, Bool, true, false, not, ◌&&◌, ◌||◌, Option, none, some, List, [], ◌∷◌, ◌++◌, ◌==◌,
  leb, ltb, find, filter, count, any, is_some, if◌then◌else◌,
}
use easygas_guide_server.Api.{Code, Result, ok, err, ◌>>=◌, ◌>>◌, require}
use easygas_guide_server.Risk.{is_nil}
use easygas_guide_server.RiskEvents.{count_open_blocking_risks, get_or}
use easygas_guide_server.Checklist.{template_of, ready_photo_count, within_range}
use easygas_guide_server.Store.{
  Db, Job, JobStep, StepStatus, step_status_eq, TemplateStep, StopApproval, MeasurementDef,
  Measurement, Signature, is_ready, Photo, find_job, find_checklist,
}

pub data Reason : Type 0 where
  checklist_not_assigned checklist_incomplete stop_approval_pending stop_rejected
        required_photos_missing invalid_measurement critical_risk_unresolved
        customer_signature_required :
      Reason

pub record Conditions : Type 0 where
  pub checklist : Bool
  pub stops : Bool
  pub photos : Bool
  pub measurements : Bool
  pub risks : Bool
  pub signature : Bool

pub record Readiness : Type 0 where
  pub can_complete : Bool
  pub reasons : List Reason
  pub conditions : Conditions

-- A job step joined with its template row.
pub record Joined : Type 0 where
  pub step : JobStep
  pub template : TemplateStep

abbrev cons_joined : JobStep → Option TemplateStep → List Joined → List Joined
cons_joined s none rest = rest
cons_joined s (some t) rest = record { step = s; template = t } ∷ rest

unfoldable pub join_steps : ℕ → Db → List JobStep → List Joined
unfolding template_of
join_steps checklist_id db [] = []
join_steps checklist_id db (s ∷ ss) =
    let rest = join_steps checklist_id db ss in
    if s.job_checklist_id == checklist_id then cons_joined s (template_of s db) rest else rest

abbrev pub in_status : StepStatus → Joined → Bool
in_status status s = step_status_eq s.step.status status

abbrev reason_if : Bool → Reason → List Reason
reason_if true r = r ∷ []
reason_if false r = []

unfoldable pub step_reasons : List Joined → List Reason
unfolding any
step_reasons steps = reason_if (any (in_status StepStatus.pending) steps) checklist_incomplete

unfoldable pub stop_reasons : List Joined → List Reason
unfolding any
stop_reasons steps =
    reason_if (any (in_status StepStatus.waiting_approval) steps) stop_approval_pending
    ++ reason_if (any (in_status StepStatus.rejected) steps) stop_rejected

-- The approvals by falling attempt, the first of each step: the greatest attempt decided on.
unfoldable pub latest_attempt : ℕ → List StopApproval → Option ℕ
latest_attempt step_id [] = none
latest_attempt step_id (a ∷ approvals) =
    let rest = latest_attempt step_id approvals in
    if a.job_step_id == step_id then some (max a.attempt (get_or rest 0)) else rest

-- The attempt that the gate examines: that of the latest STOP submission, or 1.
unfoldable pub relevant_attempt : ℕ → Db → ℕ
unfolding latest_attempt
relevant_attempt step_id db = get_or (latest_attempt step_id db.approvals) 1

unfoldable pub photos_missing : Db → Joined → Bool
unfolding relevant_attempt ready_photo_count
photos_missing db s =
    ltb 0 s.template.required_photos
    && ltb (ready_photo_count s.step.id (relevant_attempt s.step.id db) db)
        s.template.required_photos

unfoldable pub photo_reasons : Db → List Joined → List Reason
unfolding photos_missing
photo_reasons db [] = []
photo_reasons db (s ∷ ss) =
    reason_if (photos_missing db s) required_photos_missing ++ photo_reasons db ss

-- The map of stored values by step, definition and attempt: the last row of a key.
unfoldable pub stored_value : ℕ → ℕ → ℕ → List Measurement → Option Measurement
stored_value step_id def_id attempt [] = none
stored_value step_id def_id attempt (m ∷ ms) =
    let later = stored_value step_id def_id attempt ms in
    elim later [
      | some v ↦ some v
      | none ↦
          if m.job_step_id == step_id && (m.measurement_id == def_id && m.attempt == attempt)
          then some m
          else none
    ]

abbrev value_fails : MeasurementDef → Option Measurement → Bool
value_fails def none = true
value_fails def (some row) = not (within_range def row.value)

-- A required definition whose value is missing or out of range.
unfoldable pub measurement_fails : Db → ℕ → ℕ → ℕ → MeasurementDef → Bool
unfolding stored_value
measurement_fails db step_id template_id attempt def =
    (def.step_id == template_id && def.required)
    && value_fails def (stored_value step_id def.id attempt db.measurements)

unfoldable pub def_reasons : Db → ℕ → ℕ → ℕ → List MeasurementDef → List Reason
unfolding measurement_fails
def_reasons db step_id template_id attempt [] = []
def_reasons db step_id template_id attempt (d ∷ ds) =
    reason_if (measurement_fails db step_id template_id attempt d) invalid_measurement
    ++ def_reasons db step_id template_id attempt ds

unfoldable pub measurement_reasons : Db → List Joined → List Reason
unfolding def_reasons relevant_attempt
measurement_reasons db [] = []
measurement_reasons db (s ∷ ss) =
    def_reasons db s.step.id s.step.step_id (relevant_attempt s.step.id db) db.measurement_defs
    ++ measurement_reasons db ss

-- `jobForSig?.cycle ?? 1`
unfoldable pub current_cycle : ℕ → Db → ℕ
unfolding find_job
current_cycle job_id db = elim (find_job job_id db) [ some j ↦ j.cycle | none ↦ 1 ]

unfoldable pub is_active_signature : ℕ → ℕ → Signature → Bool
is_active_signature job_id cycle g =
    (g.job_id == job_id && g.cycle == cycle) && (is_ready g.status && not (is_some g.superseded_at))

unfoldable pub risk_reasons : ℕ → Db → List Reason
risk_reasons job_id db =
    reason_if (ltb 0 (count_open_blocking_risks job_id (current_cycle job_id db) db))
      critical_risk_unresolved

unfoldable pub signature_reasons : ℕ → Db → List Reason
unfolding find is_active_signature
signature_reasons job_id db =
    reason_if
      (not (is_some (find (is_active_signature job_id (current_cycle job_id db)) db.signatures)))
      customer_signature_required

abbrev no_checklist_readiness : Readiness
no_checklist_readiness = record {
  can_complete = false;
  reasons = checklist_not_assigned ∷ [];
  conditions = record {
    checklist = false;
    stops = false;
    photos = false;
    measurements = false;
    risks = false;
    signature = false;
  };
}

-- The reasons and conditions over the joined steps of the checklist.
unfoldable pub readiness_of : ℕ → Db → List Joined → Readiness
unfolding step_reasons stop_reasons photo_reasons measurement_reasons risk_reasons signature_reasons
readiness_of job_id db steps =
    let reasons =
      step_reasons steps
      ++ (stop_reasons steps
          ++ (photo_reasons db steps
              ++ (measurement_reasons db steps
                  ++ (risk_reasons job_id db ++ signature_reasons job_id db)))) in
    record {
      can_complete = is_nil reasons;
      reasons = reasons;
      conditions = record {
        checklist = is_nil (step_reasons steps);
        stops = is_nil (stop_reasons steps);
        photos = is_nil (photo_reasons db steps);
        measurements = is_nil (measurement_reasons db steps);
        risks = is_nil (risk_reasons job_id db);
        signature = is_nil (signature_reasons job_id db);
      };
    }

unfoldable pub validate_job_completion : ℕ → Db → Readiness
unfolding readiness_of join_steps find_checklist
validate_job_completion job_id db = elim (find_checklist job_id db) [
  | none ↦ no_checklist_readiness
  | some c ↦ readiness_of job_id db (join_steps c.id db db.steps)
]

-- What the storage answers: an error or timeout, no object, or an object's size.
pub data Stat : Type 0 where
  unavailable missing : Stat
  size : ℕ → Stat

pub record Target : Type 0 where
  pub storage_key : ℕ
  pub size : ℕ

unfoldable pub photo_targets : ℕ → ℕ → List Photo → List Target
photo_targets step_id attempt [] = []
photo_targets step_id attempt (p ∷ ps) =
    let rest = photo_targets step_id attempt ps in
    if p.job_step_id == step_id && (p.attempt == attempt && is_ready p.status)
    then record { storage_key = p.storage_key; size = p.size_bytes } ∷ rest
    else rest

unfoldable pub step_targets : Db → List Joined → List Target
unfolding photo_targets relevant_attempt
step_targets db [] = []
step_targets db (s ∷ ss) =
    (if ltb 0 s.template.required_photos
      then photo_targets s.step.id (relevant_attempt s.step.id db) db.photos
      else [])
    ++ step_targets db ss

-- `.orderBy('id', 'desc').first()` over rows that are stored by rising id.
unfoldable pub find_last {ℓ} : {A : Type ℓ} → (A → Bool) → List A → Option A
find_last p [] = none
find_last p (x ∷ xs) =
    let later = find_last p xs in
    elim later [ some y ↦ some y | none ↦ if p x then some x else none ]

unfoldable pub signature_targets : ℕ → Db → List Target
unfolding find_last is_active_signature
signature_targets job_id db =
    elim (find_last (is_active_signature job_id (current_cycle job_id db)) db.signatures) [
      | none ↦ []
      | some g ↦ record { storage_key = g.storage_key; size = g.size_bytes } ∷ []
    ]

unfoldable pub evidence_targets : ℕ → Db → List Target
unfolding step_targets signature_targets join_steps
evidence_targets job_id db =
    elim (find_checklist job_id db) [
      | none ↦ []
      | some c ↦ step_targets db (join_steps c.id db db.steps)
    ]
    ++ signature_targets job_id db

abbrev has_size : Stat → ℕ → Bool
has_size (size n) m = n == m
has_size _ m = false

-- The loop over the objects, which fails closed at the first that is not as recorded.
unfoldable pub verify_targets : (ℕ → Stat) → List Target → Result (Unit {0})
verify_targets stat [] = ok tt
verify_targets stat (t ∷ ts) =
    let rest = verify_targets stat ts in
    require (has_size (stat t.storage_key) t.size) Code.evidence_unverifiable >> rest

unfoldable pub assert_ready_evidence_objects : (ℕ → Stat) → ℕ → Db → Result (Unit {0})
unfolding verify_targets evidence_targets
assert_ready_evidence_objects stat job_id db = verify_targets stat (evidence_targets job_id db)
