-- ===== src/Completion/Reasons.antt =====
-- When each kind of reason is given, against what a finished step is.
use easygas_guide_server.Common.{
  ℕ, ◌≤◌, Bool, true, false, Option, none, some, List, [], ◌∷◌, ◌++◌, ◌==◌, ltb, ◌≡◌, refl, arith,
  find, count, any, All, count-zero-All, All-count-zero, Option-cases, Bool-cases, inl, inr, ==-eq,
}
use easygas_guide_server.Risk.{is_nil}
use easygas_guide_server.RiskEvents.{count_open_blocking_risks, is_open_blocking}
use easygas_guide_server.Checklist.{ready_photo_count, within_range}
use easygas_guide_server.Store.{Db, StepStatus, is_done, MeasurementDef, Measurement, Signature}
use easygas_guide_server.Completion.{
  Reason, Joined, in_status, reason_if, relevant_attempt, photos_missing, photo_reasons,
  stored_value, value_fails, measurement_fails, def_reasons, measurement_reasons, current_cycle,
  is_active_signature, risk_reasons, signature_reasons,
}

-- The photos that a step requires are READY at the attempt under examination.
abbrev pub Photographed : Db → Joined → Type 0
Photographed db s =
    s.template.required_photos ≤ ready_photo_count s.step.id (relevant_attempt s.step.id db) db

-- A definition that the step requires has a stored value in its range.
abbrev pub Measured : Db → Joined → MeasurementDef → Type 0
Measured db s d =
    (d.step_id ≡ s.step.step_id)
    → (d.required ≡ true)
    → (m : Measurement) × (stored_value s.step.id d.id (relevant_attempt s.step.id db)
          db.measurements
        ≡ some m)
      × (within_range d m.value ≡ true)

pub is_nil-append :
    {A : Type 0} (xs ys : List A)
    → is_nil (xs ++ ys) ≡ true
    → (is_nil xs ≡ true) × (is_nil ys ≡ true)
is_nil-append [] ys h = (refl, h)
is_nil-append (x ∷ xs) ys h = absurd (ground arith)

pub append-is_nil :
    {A : Type 0} (xs ys : List A) → is_nil xs ≡ true → is_nil ys ≡ true → is_nil (xs ++ ys) ≡ true
append-is_nil [] ys h k = k
append-is_nil (x ∷ xs) ys h k = absurd (ground arith)

pub reason_if-nil : (b : Bool) (r : Reason) → is_nil (reason_if b r) ≡ true → b ≡ false
reason_if-nil b r h = ground arith

nil-reason_if : (b : Bool) (r : Reason) → b ≡ false → is_nil (reason_if b r) ≡ true
nil-reason_if b r h = ground arith

pub settled-done :
    (steps : List Joined)
    → any (in_status StepStatus.pending) steps ≡ false
    → any (in_status StepStatus.waiting_approval) steps ≡ false
    → any (in_status StepStatus.rejected) steps ≡ false
    → All (λ s. is_done s.step.status ≡ true) steps
unfolding any
settled-done [] a b c = tt
settled-done (s ∷ ss) a b c = ground (arith, settled-done ss)

pub done-settled :
    (steps : List Joined) (status : StepStatus)
    → is_done status ≡ false
    → All (λ s. is_done s.step.status ≡ true) steps
    → any (in_status status) steps ≡ false
unfolding any
done-settled [] status k h = refl
done-settled (s ∷ ss) status k h = ground (arith, done-settled ss status k h.1)

pub photo_reasons-nil :
    (db : Db) (steps : List Joined)
    → is_nil (photo_reasons db steps) ≡ true
    → All (Photographed db) steps
unfolding photo_reasons photos_missing
photo_reasons-nil db [] h = tt
photo_reasons-nil db (s ∷ ss) h =
    let (a, b) =
      is_nil-append (reason_if (photos_missing db s) Reason.required_photos_missing) _ h in
    (ground arith, photo_reasons-nil db ss b)

pub nil-photo_reasons :
    (db : Db) (steps : List Joined)
    → All (Photographed db) steps
    → is_nil (photo_reasons db steps) ≡ true
unfolding photo_reasons photos_missing
nil-photo_reasons db [] h = refl
nil-photo_reasons db (s ∷ ss) h =
    let enough : photos_missing db s ≡ false = ground arith in
    append-is_nil (reason_if (photos_missing db s) Reason.required_photos_missing) _
      (nil-reason_if _ _ enough) (nil-photo_reasons db ss h.1)

value_fails-none :
    (d : MeasurementDef) (o : Option Measurement)
    → value_fails d o ≡ false
    → (m : Measurement) × (o ≡ some m) × (within_range d m.value ≡ true)
value_fails-none d none h = absurd (ground arith)
value_fails-none d (some m) h = (m, refl, ground arith)

fits-value_fails :
    (d : MeasurementDef) (o : Option Measurement)
    → (m : Measurement) × (o ≡ some m) × (within_range d m.value ≡ true)
    → value_fails d o ≡ false
fits-value_fails d o (m, seen, fits) = rw (seen, fits) refl

measurement_fails-Measured :
    (db : Db) (s : Joined) (d : MeasurementDef)
    → measurement_fails db s.step.id s.step.step_id (relevant_attempt s.step.id db) d ≡ false
    → Measured db s d
unfolding measurement_fails
measurement_fails-Measured db s d h same needed =
    value_fails-none d (stored_value s.step.id d.id (relevant_attempt s.step.id db) db.measurements)
      (ground arith)

Measured-measurement_fails :
    (db : Db) (s : Joined) (d : MeasurementDef)
    → Measured db s d
    → measurement_fails db s.step.id s.step.step_id (relevant_attempt s.step.id db) d ≡ false
unfolding measurement_fails within_range
Measured-measurement_fails db s d h = elim (Bool-cases (d.step_id == s.step.step_id)) [
  | inr other ↦ rw other refl
  | inl same ↦ elim (Bool-cases d.required) [
    | inr free ↦ ground arith
    | inl needed ↦
        rw (same, needed) (fits-value_fails d _ (h (==-eq d.step_id s.step.step_id same) needed))
  ]
]

def_reasons-nil :
    (db : Db) (s : Joined) (ds : List MeasurementDef)
    → is_nil (def_reasons db s.step.id s.step.step_id (relevant_attempt s.step.id db) ds) ≡ true
    → All (Measured db s) ds
unfolding def_reasons
def_reasons-nil db s [] h = tt
def_reasons-nil db s (d ∷ ds) h =
    let (a, b) = is_nil-append (reason_if _ Reason.invalid_measurement) _ h in
    (measurement_fails-Measured db s d (reason_if-nil _ _ a), def_reasons-nil db s ds b)

nil-def_reasons :
    (db : Db) (s : Joined) (ds : List MeasurementDef)
    → All (Measured db s) ds
    → is_nil (def_reasons db s.step.id s.step.step_id (relevant_attempt s.step.id db) ds) ≡ true
unfolding def_reasons
nil-def_reasons db s [] h = refl
nil-def_reasons db s (d ∷ ds) h =
    append-is_nil (reason_if _ Reason.invalid_measurement) _
      (nil-reason_if _ _ (Measured-measurement_fails db s d h.0)) (nil-def_reasons db s ds h.1)

pub measurement_reasons-nil :
    (db : Db) (steps : List Joined)
    → is_nil (measurement_reasons db steps) ≡ true
    → All (λ s. All (Measured db s) db.measurement_defs) steps
unfolding measurement_reasons
measurement_reasons-nil db [] h = tt
measurement_reasons-nil db (s ∷ ss) h =
    let (a, b) =
      is_nil-append
        (def_reasons db s.step.id s.step.step_id (relevant_attempt s.step.id db)
          db.measurement_defs)
        _ h in
    (def_reasons-nil db s db.measurement_defs a, measurement_reasons-nil db ss b)

pub nil-measurement_reasons :
    (db : Db) (steps : List Joined)
    → All (λ s. All (Measured db s) db.measurement_defs) steps
    → is_nil (measurement_reasons db steps) ≡ true
unfolding measurement_reasons
nil-measurement_reasons db [] h = refl
nil-measurement_reasons db (s ∷ ss) h =
    append-is_nil
      (def_reasons db s.step.id s.step.step_id (relevant_attempt s.step.id db) db.measurement_defs)
      _ (nil-def_reasons db s db.measurement_defs h.0) (nil-measurement_reasons db ss h.1)

pub risk_reasons-nil :
    (job_id : ℕ) (db : Db)
    → is_nil (risk_reasons job_id db) ≡ true
    → All (λ r. is_open_blocking job_id (current_cycle job_id db) r ≡ false) db.risks
unfolding risk_reasons count_open_blocking_risks
risk_reasons-nil job_id db h =
    let none_open =
      reason_if-nil (ltb 0 (count (is_open_blocking job_id (current_cycle job_id db)) db.risks)) _
        h in
    count-zero-All (is_open_blocking job_id (current_cycle job_id db)) db.risks (ground arith)

pub nil-risk_reasons :
    (job_id : ℕ) (db : Db)
    → All (λ r. is_open_blocking job_id (current_cycle job_id db) r ≡ false) db.risks
    → is_nil (risk_reasons job_id db) ≡ true
unfolding risk_reasons count_open_blocking_risks
nil-risk_reasons job_id db h =
    let zero_open = All-count-zero (is_open_blocking job_id (current_cycle job_id db)) db.risks h in
    rw zero_open refl

pub signature_reasons-nil :
    (job_id : ℕ) (db : Db)
    → is_nil (signature_reasons job_id db) ≡ true
    → (g : Signature) × (find (is_active_signature job_id (current_cycle job_id db)) db.signatures
        ≡ some g)
unfolding signature_reasons
signature_reasons-nil job_id db h =
    elim (Option-cases
      (find (is_active_signature job_id (current_cycle job_id db)) db.signatures)) [
        | inl unsigned ↦ absurd (ground arith)
        | inr found ↦ found
      ]
