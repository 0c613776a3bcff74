-- ===== src/Completion/Corrections.antt =====
-- The gate after a reopening, and after the correction of a normal step.
use easygas_guide_server.Common.{
  ℕ, ◌+◌, ◌≤◌, false, none, some, List, [], ◌∷◌, ◌++◌, ◌==◌, ◌≡◌, ◌≢◌, refl, ◌∙◌, arith, find,
  count, All, All-update, Bool-cases, inl, inr, ap, ltb, some-eq, Text, count-append, update,
  find-update, find-true, if◌then◌else◌,
}
use easygas_guide_server.Api.{Code, ok, require-ok, >>=-eq-ok, ok-injective}
use easygas_guide_server.Rbac.{Actor}
use easygas_guide_server.Jobs.{load_scoped_job}
use easygas_guide_server.Jobs.Diagram.{load_scoped_job-found}
use easygas_guide_server.Store.{Db, Job, JobStatus, job_status_eq, find_job, Signature, Photo}
use easygas_guide_server.Checklist.{ready_photo_count}
use easygas_guide_server.Completion.{
  Joined, validate_job_completion, is_active_signature, current_cycle, latest_attempt,
  relevant_attempt, photos_missing,
}
use easygas_guide_server.Completion.Gate.{gate_sound}
use easygas_guide_server.Completion.Close.{reopen_job, is_ready_of}

-- No signature of the job belongs to a later cycle.
abbrev pub SignedUpTo : ℕ → ℕ → List Signature → Type 0
SignedUpTo job_id cycle = All (λ g. g.job_id ≡ job_id → g.cycle ≤ cycle)

reopen_job-signatures :
    (actor : Actor) (job_id : ℕ) (reason : Text) (now : ℕ) (job : Job) (db : Db) {r : Db}
    → find_job job_id db ≡ some job
    → reopen_job actor job_id reason now db ≡ ok r
    → (r.signatures
        ≡ update
            (is_ready_of job_id job.cycle)
            (λ g. record g { superseded_at = some now })
            db.signatures)
      × (r.jobs
          ≡ update
              (λ j. j.id == job_id)
              (λ j. record j {
                status = JobStatus.reopened;
                cycle = job.cycle + 1;
                reopen_reason = some reason;
                reopened_by = some actor.id;
                reopened_at = some now;
              })
              db.jobs)
unfolding reopen_job
reopen_job-signatures actor job_id reason now job db found h =
    let (j, loaded, h1) = >>=-eq-ok (load_scoped_job actor job_id db) _ h in
    let same : j ≡ job = some-eq _ j job (load_scoped_job-found actor job_id db loaded) found in
    let (_, h2) =
      require-ok (job_status_eq j.status JobStatus.completed) Code.job_not_completed _ h1 in
    rw (← same) (elim (Bool-cases (ltb 0 (count (is_ready_of job_id j.cycle) db.signatures))) [
      | inl some_left ↦ (rw (← ok-injective h2, some_left), rw (← ok-injective h2, some_left))
      | inr none_left ↦ (rw (← ok-injective h2, none_left), rw (← ok-injective h2, none_left))
    ])

found_after :
    (job_id : ℕ) (job : Job) (f : Job → Job) (db r : Db)
    → find_job job_id db ≡ some job
    → ((j : Job) → (f j).id ≡ j.id)
    → r.jobs ≡ update (λ j. j.id == job_id) f db.jobs
    → find_job job_id r ≡ some (f job)
unfolding find_job
found_after job_id job f db r found keeps jobs =
    ap (find (λ j. j.id == job_id)) jobs
    ∙ find-update (λ j. j.id == job_id) (λ j. j.id == job_id) f db.jobs (λ j. rw (keeps j))
    ∙ ap (mathlib.Core.Option.map (λ j. if j.id == job_id then f j else j)) found
    ∙ rw (find-true (λ j. j.id == job_id) db.jobs job found)

next_cycle :
    (job_id : ℕ) (job : Job) (f : Job → Job) (db r : Db)
    → find_job job_id db ≡ some job
    → ((j : Job) → (f j).id ≡ j.id)
    → r.jobs ≡ update (λ j. j.id == job_id) f db.jobs
    → current_cycle job_id r ≡ (f job).cycle
unfolding current_cycle
next_cycle job_id job f db r found keeps jobs =
    rw (current_cycle, found_after job_id job f db r found keeps jobs)

no_active_later :
    (job_id cycle : ℕ) (gs : List Signature)
    → SignedUpTo job_id cycle gs
    → find (is_active_signature job_id (cycle + 1)) gs ≡ none
unfolding find is_active_signature
no_active_later job_id cycle [] h = refl
no_active_later job_id cycle (g ∷ gs) h = ground (arith, h.0, no_active_later job_id cycle gs h.1)

-- After a reopening the job cannot be closed with the signatures it had: the gate is shut, where
-- no signature of the job was of a later cycle before.
pub reopen_shuts_gate :
    (actor : Actor) (job_id : ℕ) (reason : Text) (now : ℕ) (job : Job) (db r : Db)
    → find_job job_id db ≡ some job
    → SignedUpTo job_id job.cycle db.signatures
    → reopen_job actor job_id reason now db ≡ ok r
    → (validate_job_completion job_id r).can_complete ≡ false
reopen_shuts_gate actor job_id reason now job db r found upto h =
    elim (Bool-cases (validate_job_completion job_id r).can_complete) [
      | inr shut ↦ shut
      | inl passes ↦
          let (signatures, jobs) = reopen_job-signatures actor job_id reason now job db found h in
          let ready = gate_sound job_id r passes in
          let active = find (is_active_signature job_id (job.cycle + 1)) r.signatures in
          let later : active ≡ none = rw signatures (
            no_active_later job_id job.cycle _ (
              All-update _ (is_ready_of job_id job.cycle) _ db.signatures (λ g upto. upto) upto)) in
          let signed : active ≡ some ready.signature =
            rw (next_cycle job_id job _ db r found (λ j. refl) jobs) at ready.signed in
          absurd (ground arith)
    ]

other_attempt_uncounted :
    (step_id attempt : ℕ) (db : Db) (p : Photo)
    → p.attempt ≢ attempt
    → ready_photo_count step_id attempt (record db { photos = db.photos ++ p ∷ [] })
      ≡ ready_photo_count step_id attempt db
unfolding ready_photo_count count
other_attempt_uncounted step_id attempt db p other =
    count-append _ db.photos (p ∷ []) ∙ ground arith

-- For a step that no STOP approval names, a photo of an attempt other than 1 changes nothing in
-- the gate's verdict on the photos of the step, although `redo_step` raises the attempt of a step
-- and its new photos carry the raised attempt.
pub correction_photo_ignored :
    (db : Db) (s : Joined) (p : Photo)
    → latest_attempt s.step.id db.approvals ≡ none
    → p.attempt ≢ 1
    → photos_missing (record db { photos = db.photos ++ p ∷ [] }) s ≡ photos_missing db s
unfolding photos_missing relevant_attempt
correction_photo_ignored db s p fresh other =
    rw (fresh, other_attempt_uncounted s.step.id 1 db p other) refl
