-- ===== src/Completion/Closing.antt =====
-- What a close and a quality confirmation have checked when they succeed.
use easygas_guide_server.Common.{ℕ, true, some, List, [], ◌∷◌, ◌≡◌, refl, arith, All, ap, ==-eq}
use easygas_guide_server.Api.{Code, ok, require-ok, >>=-eq-ok}
use easygas_guide_server.Rbac.{Actor}
use easygas_guide_server.RiskPolicy.{risk_policy_active, assert_risk_policy_approved}
use easygas_guide_server.Jobs.{load_scoped_job}
use easygas_guide_server.Jobs.Diagram.{load_scoped_job-found}
use easygas_guide_server.Store.{Db, Job, JobStatus, job_status_eq, find_job}
use easygas_guide_server.Completion.{
  Stat, missing, unavailable, size, Target, verify_targets, has_size, evidence_targets,
  validate_job_completion, assert_ready_evidence_objects,
}
use easygas_guide_server.Completion.Gate.{Ready, gate_sound}
use easygas_guide_server.Completion.Summary.{Digests, current_summary_digest, accepted_signature}
use easygas_guide_server.Completion.Close.{
  fresh, assert_signature_fresh, gate_under_lock, is_closable, close_checks, close_locked,
  close_job, confirm_checks, confirm_locked, confirm_quality,
}

-- Every object that is evidence of the job answers with its recorded size.
abbrev pub Stored : (ℕ → Stat) → List Target → Type 0
Stored stat = All (λ t. stat t.storage_key ≡ size t.size)

has_size-size : (o : Stat) (n : ℕ) → has_size o n ≡ true → o ≡ size n
has_size-size unavailable n h = absurd (ground arith)
has_size-size missing n h = absurd (ground arith)
has_size-size (size m) n h = ap size (==-eq m n h)

verify_targets-Stored :
    (stat : ℕ → Stat) (ts : List Target) → verify_targets stat ts ≡ ok tt → Stored stat ts
unfolding verify_targets
verify_targets-Stored stat [] h = tt
verify_targets-Stored stat (t ∷ ts) h =
    let (same, rest) =
      require-ok (has_size (stat t.storage_key) t.size) Code.evidence_unverifiable _ h in
    (has_size-size (stat t.storage_key) t.size same, verify_targets-Stored stat ts rest)

Stored-verify_targets :
    (stat : ℕ → Stat) (ts : List Target) → Stored stat ts → verify_targets stat ts ≡ ok tt
unfolding verify_targets
Stored-verify_targets stat [] h = refl
Stored-verify_targets stat (t ∷ ts) h = rw (h.0, Stored-verify_targets stat ts h.1) (ground arith)

-- What holds of the locked store, and held of the objects before, when a job is closed.
pub record Gated (d : Digests) (stat : ℕ → Stat) (job_id : ℕ) (before db : Db) : Type 0 where
  pub job : Job
  pub found : find_job job_id db ≡ some job
  pub ready : Ready job_id db
  pub policy : risk_policy_active db ≡ true
  pub unchanged :
      fresh (accepted_signature job_id job.cycle db) (current_summary_digest d job_id db) ≡ true
  pub ready_before : Ready job_id before
  pub stored : Stored stat (evidence_targets job_id before)

gate_under_lock-ok :
    (d : Digests) (job_id : ℕ) (job : Job) (db : Db)
    → gate_under_lock d job_id job db ≡ ok tt
    → ((validate_job_completion job_id db).can_complete ≡ true)
      × (risk_policy_active db ≡ true)
      × (fresh (accepted_signature job_id job.cycle db) (current_summary_digest d job_id db) ≡ true)
unfolding gate_under_lock assert_signature_fresh assert_risk_policy_approved
gate_under_lock-ok d job_id job db h = ground arith

-- The unlocked half: the gate and the storage.
checks-ok :
    (stat : ℕ → Stat) (job_id : ℕ) (before : Db)
    → (assert_ready_evidence_objects stat job_id before) ≡ ok tt
    → Stored stat (evidence_targets job_id before)
unfolding assert_ready_evidence_objects
checks-ok stat job_id before h = verify_targets-Stored stat (evidence_targets job_id before) h

close_checks-ok :
    (stat : ℕ → Stat) (actor : Actor) (job_id : ℕ) (before : Db)
    → close_checks stat actor job_id before ≡ ok tt
    → Ready job_id before × Stored stat (evidence_targets job_id before)
unfolding close_checks
close_checks-ok stat actor job_id before h =
    let (pre, _, h1) = >>=-eq-ok (load_scoped_job actor job_id before) _ h in
    let (_, h2) = require-ok (is_closable pre.status) Code.job_not_closable _ h1 in
    let (passes, h3) =
      require-ok (validate_job_completion job_id before).can_complete Code.completion_blocked _
        h2 in
    (gate_sound job_id before passes, checks-ok stat job_id before h3)

confirm_checks-ok :
    (stat : ℕ → Stat) (actor : Actor) (job_id : ℕ) (before : Db)
    → confirm_checks stat actor job_id before ≡ ok tt
    → Ready job_id before × Stored stat (evidence_targets job_id before)
unfolding confirm_checks
confirm_checks-ok stat actor job_id before h =
    let (pre, _, h1) = >>=-eq-ok (load_scoped_job actor job_id before) _ h in
    let (_, h2) =
      require-ok (job_status_eq pre.status JobStatus.quality_review) Code.job_not_in_quality_review
        _ h1 in
    let (passes, h3) =
      require-ok (validate_job_completion job_id before).can_complete Code.completion_blocked _
        h2 in
    (gate_sound job_id before passes, checks-ok stat job_id before h3)

close_locked-gate :
    (d : Digests) (actor : Actor) (job_id now : ℕ) (db : Db) {r : Db}
    → close_locked d actor job_id now db ≡ ok r
    → (job : Job) × (find_job job_id db ≡ some job) × (gate_under_lock d job_id job db ≡ ok tt)
unfolding close_locked
close_locked-gate d actor job_id now db h =
    let (job, loaded, h1) = >>=-eq-ok (load_scoped_job actor job_id db) _ h in
    let (_, h2) = require-ok (is_closable job.status) Code.job_not_closable _ h1 in
    let (_, gate, _) = >>=-eq-ok (gate_under_lock d job_id job db) _ h2 in
    (job, load_scoped_job-found actor job_id db loaded, gate)

confirm_locked-gate :
    (d : Digests) (actor : Actor) (job_id now : ℕ) (db : Db) {r : Db}
    → confirm_locked d actor job_id now db ≡ ok r
    → (job : Job) × (find_job job_id db ≡ some job) × (gate_under_lock d job_id job db ≡ ok tt)
unfolding confirm_locked
confirm_locked-gate d actor job_id now db h =
    let (job, loaded, h1) = >>=-eq-ok (load_scoped_job actor job_id db) _ h in
    let (_, h2) =
      require-ok (job_status_eq job.status JobStatus.quality_review) Code.job_not_in_quality_review
        _ h1 in
    let (_, gate, _) = >>=-eq-ok (gate_under_lock d job_id job db) _ h2 in
    (job, load_scoped_job-found actor job_id db loaded, gate)

Gated-from :
    (d : Digests) (stat : ℕ → Stat) (job_id : ℕ) (before db : Db)
    → Ready job_id before × Stored stat (evidence_targets job_id before)
    → (job : Job) × (find_job job_id db ≡ some job) × (gate_under_lock d job_id job db ≡ ok tt)
    → Gated d stat job_id before db
Gated-from d stat job_id before db (ready_before, stored) (job, found, gate) =
    let (passes, policy, unchanged) = gate_under_lock-ok d job_id job db gate in
    record {
      job = job;
      found = found;
      ready = gate_sound job_id db passes;
      policy = policy;
      unchanged = unchanged;
      ready_before = ready_before;
      stored = stored;
    }

-- A close that succeeds was gated: the job was ready in the locked store (checklist, photos,
-- measurements, risks, signature), a risk matrix was active, the signature was not out of date,
-- and every evidence object of the store read before the locks answered with its recorded size.
pub close_job-Gated :
    (d : Digests) (stat : ℕ → Stat) (actor : Actor) (job_id now : ℕ) (before db r : Db)
    → close_job d stat actor job_id now before db ≡ ok r
    → Gated d stat job_id before db
unfolding close_job
close_job-Gated d stat actor job_id now before db r h =
    let (_, checks, locked) = >>=-eq-ok (close_checks stat actor job_id before) _ h in
    Gated-from d stat job_id before db (close_checks-ok stat actor job_id before checks)
      (close_locked-gate d actor job_id now db locked)

-- A quality confirmation that succeeds was gated in the same way: the confirmation of a corrected
-- job repeats the whole gate.
pub confirm_quality-Gated :
    (d : Digests) (stat : ℕ → Stat) (actor : Actor) (job_id now : ℕ) (before db r : Db)
    → confirm_quality d stat actor job_id now before db ≡ ok r
    → Gated d stat job_id before db
unfolding confirm_quality
confirm_quality-Gated d stat actor job_id now before db r h =
    let (_, checks, locked) = >>=-eq-ok (confirm_checks stat actor job_id before) _ h in
    Gated-from d stat job_id before db (confirm_checks-ok stat actor job_id before checks)
      (confirm_locked-gate d actor job_id now db locked)
