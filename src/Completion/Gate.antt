-- ===== src/Completion/Gate.antt =====
-- The completion gate against an independent description of a job that is ready to be closed.
use easygas_guide_server.Common.{
  ℕ, true, false, some, List, ◌≡◌, refl, arith, find, any, All, Option-cases, inl, inr,
}
use easygas_guide_server.RiskEvents.{is_open_blocking}
use easygas_guide_server.Store.{Db, StepStatus, is_done, Signature, Checklist, find_checklist}
use easygas_guide_server.Completion.{
  Joined, join_steps, in_status, reason_if, step_reasons, stop_reasons, photo_reasons,
  measurement_reasons, current_cycle, is_active_signature, risk_reasons, signature_reasons,
  readiness_of, validate_job_completion,
}
use easygas_guide_server.Completion.Reasons.{
  Photographed, Measured, is_nil-append, append-is_nil, reason_if-nil, settled-done, done-settled,
  photo_reasons-nil, nil-photo_reasons, measurement_reasons-nil, nil-measurement_reasons,
  risk_reasons-nil, nil-risk_reasons, signature_reasons-nil,
}

-- A job that is ready to be closed.
pub record Ready (job_id : ℕ) (db : Db) : Type 0 where
  pub checklist : Checklist
  pub assigned : find_checklist job_id db ≡ some checklist
  pub done : All (λ s. is_done s.step.status ≡ true) (join_steps checklist.id db db.steps)
  pub photographed : All (Photographed db) (join_steps checklist.id db db.steps)
  pub measured :
      All (λ s. All (Measured db s) db.measurement_defs) (join_steps checklist.id db db.steps)
  pub safe : All (λ r. is_open_blocking job_id (current_cycle job_id db) r ≡ false) db.risks
  pub signature : Signature
  pub signed :
      find (is_active_signature job_id (current_cycle job_id db)) db.signatures ≡ some signature

-- The reasons of the steps of a checklist are empty.
record Clear (job_id : ℕ) (db : Db) (steps : List Joined) : Type 0 where
  pub done : All (λ s. is_done s.step.status ≡ true) steps
  pub photographed : All (Photographed db) steps
  pub measured : All (λ s. All (Measured db s) db.measurement_defs) steps
  pub safe : All (λ r. is_open_blocking job_id (current_cycle job_id db) r ≡ false) db.risks
  pub signed :
      (g : Signature) × (find (is_active_signature job_id (current_cycle job_id db)) db.signatures
        ≡ some g)

readiness_of-Clear :
    (job_id : ℕ) (db : Db) (steps : List Joined)
    → (readiness_of job_id db steps).can_complete ≡ true
    → Clear job_id db steps
unfolding readiness_of step_reasons stop_reasons
readiness_of-Clear job_id db steps h =
    let (pending, h1) = is_nil-append (step_reasons steps) _ h in
    let (stops, h2) = is_nil-append (stop_reasons steps) _ h1 in
    let (photos, h3) = is_nil-append (photo_reasons db steps) _ h2 in
    let (values, h4) = is_nil-append (measurement_reasons db steps) _ h3 in
    let (risks, signs) = is_nil-append (risk_reasons job_id db) _ h4 in
    let (waits, refused) =
      is_nil-append (reason_if (any (in_status StepStatus.waiting_approval) steps) _) _ stops in
    record {
      done =
          settled-done steps (reason_if-nil _ _ pending) (reason_if-nil _ _ waits)
            (reason_if-nil _ _ refused);
      photographed = photo_reasons-nil db steps photos;
      measured = measurement_reasons-nil db steps values;
      safe = risk_reasons-nil job_id db risks;
      signed = signature_reasons-nil job_id db signs;
    }

-- The gate of `validateJobCompletion` opens only for a job whose assigned checklist has every step
-- done, with the required READY photos and in-range measurements at the attempt under
-- examination, no open blocking risk in the cycle, and an active READY signature.
pub gate_sound :
    (job_id : ℕ) (db : Db)
    → (validate_job_completion job_id db).can_complete ≡ true
    → Ready job_id db
unfolding validate_job_completion
gate_sound job_id db h = elim (Option-cases (find_checklist job_id db)) [
  | inl unassigned ↦ absurd (ground arith)
  | inr (c, assigned) ↦
      let clear =
        readiness_of-Clear job_id db (join_steps c.id db db.steps)
          (rw (validate_job_completion, assigned) at h) in
      record {
        checklist = c;
        assigned = assigned;
        done = clear.done;
        photographed = clear.photographed;
        measured = clear.measured;
        safe = clear.safe;
        signature = clear.signed.0;
        signed = clear.signed.1;
      }
]

Clear-readiness_of :
    (job_id : ℕ) (db : Db) (steps : List Joined)
    → Clear job_id db steps
    → (readiness_of job_id db steps).can_complete ≡ true
unfolding readiness_of step_reasons stop_reasons signature_reasons
Clear-readiness_of job_id db steps c =
    append-is_nil (step_reasons steps) _ (rw (settled StepStatus.pending refl) refl) (
      append-is_nil (stop_reasons steps) _
        (rw (settled StepStatus.waiting_approval refl, settled StepStatus.rejected refl) refl)
        (append-is_nil (photo_reasons db steps) _ (nil-photo_reasons db steps c.photographed) (
          append-is_nil (measurement_reasons db steps) _
            (nil-measurement_reasons db steps c.measured)
            (append-is_nil (risk_reasons job_id db) _ (nil-risk_reasons job_id db c.safe)
              (rw c.signed.1 refl)))))
  where
    settled : (status : StepStatus) → is_done status ≡ false → any (in_status status) steps ≡ false
    settled status k = done-settled steps status k c.done

-- A job with all of that passes the gate of `validateJobCompletion`.
pub gate_complete :
    (job_id : ℕ) (db : Db)
    → Ready job_id db
    → (validate_job_completion job_id db).can_complete ≡ true
unfolding validate_job_completion
gate_complete job_id db ready =
    rw (validate_job_completion, ready.assigned)
      (Clear-readiness_of job_id db (join_steps ready.checklist.id db db.steps) (record {
        done = ready.done;
        photographed = ready.photographed;
        measured = ready.measured;
        safe = ready.safe;
        signed = (ready.signature, ready.signed);
      }))
