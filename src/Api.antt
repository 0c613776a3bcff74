-- ===== src/Api.antt =====
-- src/utils/errors.ts: a handler returns its result or one of the error codes that the handlers
-- throw. Inside `db.transaction` an error rolls every write back, so an error carries no store.
use easygas_guide_server.Common.{Bool, true, false, Option, none, some, ◌≡◌, refl, arith}

pub data Code : Type 0 where
  not_found forbidden no_branch invalid_customer invalid_vehicle vehicle_customer_mismatch : Code
  invalid_transition risk_policy_not_approved : Code
  invalid_technician technician_inactive role_not_assignable cross_branch_assignment job_terminal :
      Code
  job_state_invalid checklist_exists no_published_version empty_version : Code
  job_not_in_progress step_already_completed photos_required previous_step_incomplete
        invalid_measurement out_of_range job_not_reopened step_not_done :
      Code
  job_not_waiting_stop no_pending_stop stop_step_state_invalid job_not_rejected no_checklist
        no_rejected_step :
      Code
  risk_input_required job_not_workable invalid_step resolution_note_required risk_not_open
        revision_reason_required override_reason_required :
      Code
  invalid_source invalid_severity invalid_likelihood invalid_version invalid_matrix version_exists
        rationale_required matrix_retired :
      Code
  job_not_closable completion_blocked evidence_unverifiable signature_stale job_not_completed
        job_not_in_quality_review checklist_incomplete summary_stale signature_exists
        storage_unavailable job_state_changed :
      Code
  step_not_pending photo_limit step_state_changed : Code
  image_too_large invalid_file_type file_too_large : Code
  template_name_taken draft_exists version_not_draft version_not_published template_has_history
        template_in_use :
      Code
  -- an error that the handler does not catch: the error middleware answers 500
  internal_error : Code

-- A thrown code, or the value that the handler returns.
pub data Result {ℓ} (A : Type ℓ) : Type ℓ where
  err : Code → Result A
  ok : A → Result A

-- `if (!test) throw code`
abbrev pub require : (test : Bool) (code : Code) → Result (Unit {0})
require false code = err code
require true code = ok tt

-- `if (!row) throw code`
abbrev pub present {ℓ} : {Row : Type ℓ} → Option Row → Code → Result Row
present none code = err code
present (some row) code = ok row

module _ {ℓ κ} {A : Type ℓ} {B : Type κ} where
  infixl 5 ◌>>=◌
  -- What follows a call that may throw.
  abbrev pub ◌>>=◌ : (first : Result A) (next : A → Result B) → Result B
  err code >>= next = err code
  ok value >>= next = next value

  -- Where the whole succeeds, so did the first call.
  pub >>=-eq-ok :
      (first : Result A) (next : A → Result B) {result : B}
      → (first >>= next) ≡ ok result
      → (value : A) × (first ≡ ok value) × (next value ≡ ok result)
  >>=-eq-ok (err code) next done = ground arith
  >>=-eq-ok (ok value) next done = (value, refl, done)

  pub present-ok :
      (row : Option A) (code : Code) (next : A → Result B) {result : B}
      → (present row code >>= next) ≡ ok result
      → (value : A) × (row ≡ some value) × (next value ≡ ok result)
  present-ok none code next done = ground arith
  present-ok (some value) code next done = (value, refl, done)

module _ {ℓ} {B : Type ℓ} where
  infixl 5 ◌>>◌
  -- What follows a check.
  abbrev pub ◌>>◌ : (check : Result (Unit {0})) (rest : Result B) → Result B
  check >> rest = check >>= (λ _. rest)

  pub require-ok :
      (test : Bool) (code : Code) (rest : Result B) {result : B}
      → (require test code >> rest) ≡ ok result
      → (test ≡ true) × (rest ≡ ok result)
  require-ok false code rest done = ground arith
  require-ok true code rest done = (refl, done)

  pub ok-injective : {a b : B} → ok a ≡ ok b → a ≡ b
  ok-injective same = cc
