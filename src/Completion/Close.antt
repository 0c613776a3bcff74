-- ===== src/Completion/Close.antt =====
-- src/modules/jobs/completion.service.ts: the freshness of the signature, the completion snapshot,
-- the Master's close, the reopening and the quality confirmation. Each close first checks the
-- store `before` without locks, and the storage, and then the locked store `db`.
use easygas_guide_server.Common.{
  ℕ, ◌+◌, Bool, true, false, not, ◌&&◌, ◌||◌, Option, none, some, [], ◌∷◌, ◌++◌, ◌==◌, ltb, Text,
  find, count, update, if◌then◌else◌,
}
use easygas_guide_server.Api.{Code, Result, ok, ◌>>=◌, ◌>>◌, require, present}
use easygas_guide_server.Rbac.{Actor}
use easygas_guide_server.RiskPolicy.{assert_risk_policy_approved}
use easygas_guide_server.Jobs.{load_scoped_job}
use easygas_guide_server.Store.{
  Db, Job, JobStatus, job_status_eq, Signature, is_ready, Snapshot, find_job, update_job, log_audit,
  Entity, completion_snapshot_finalized, quality_review_requested, job_closed, job_reopened,
  signature_superseded,
}
use easygas_guide_server.Completion.{
  validate_job_completion, assert_ready_evidence_objects, Stat, find_last, is_active_signature,
}
use easygas_guide_server.Completion.Summary.{
  Summary, Digests, collect_material, current_summary_digest, snapshot_content, accepted_signature,
}

-- Two digests that are both known and differ.
abbrev pub differ : Option ℕ → Option ℕ → Bool
differ (some a) (some b) = not (a == b)
differ _ _ = false

abbrev pub fresh : Option Signature → Option ℕ → Bool
fresh none current = true
fresh (some g) current = not (differ g.summary_digest current)

unfoldable pub assert_signature_fresh : Digests → ℕ → ℕ → Db → Result (Unit {0})
unfolding find_last is_active_signature current_summary_digest
assert_signature_fresh d job_id cycle db =
    require (fresh (accepted_signature job_id cycle db) (current_summary_digest d job_id db))
      Code.signature_stale

abbrev pub signature_hash : Option Signature → Option ℕ
signature_hash none = none
signature_hash (some g) = some g.hash

-- The row of the snapshot and its audit record.
abbrev pub insert_snapshot : Digests → Job → Summary → ℕ → ℕ → ℕ → Db → Db
insert_snapshot d job m job_id cycle user db =
    log_audit user completion_snapshot_finalized (Entity.job job_id) (record db {
      snapshots =
          db.snapshots
          ++ record {
            job_id = job_id;
            cycle = cycle;
            digest = d.content (snapshot_content d job m job_id cycle user db);
            summary_digest = d.summary m;
            signature_hash = signature_hash (accepted_signature job_id cycle db);
            finalized_by = user;
          }
            ∷ [];
    })

-- One snapshot for each job and cycle: a second call changes nothing.
unfoldable pub finalize_snapshot : Digests → ℕ → ℕ → ℕ → Db → Result Db
unfolding find
finalize_snapshot d job_id cycle user db =
    let built = (do
      job ← present (find_job job_id db) Code.not_found
      m ← present (collect_material job_id db) Code.not_found
      ok (insert_snapshot d job m job_id cycle user db)) in
    elim (find (λ (s : Snapshot). s.job_id == job_id && s.cycle == cycle) db.snapshots) [
      | some existing ↦ ok db
      | none ↦ built
    ]

abbrev pub is_closable : JobStatus → Bool
is_closable s = job_status_eq s JobStatus.in_progress || job_status_eq s JobStatus.reopened

unfoldable pub close_checks : (ℕ → Stat) → Actor → ℕ → Db → Result (Unit {0})
close_checks stat actor job_id before = do
  pre ← load_scoped_job actor job_id before
  require (is_closable pre.status) Code.job_not_closable
  require (validate_job_completion job_id before).can_complete Code.completion_blocked
  assert_ready_evidence_objects stat job_id before

abbrev pub set_closed : ℕ → ℕ → ℕ → Db → Db
set_closed job_id user now =
    update_job job_id
      (λ j. record j { status = JobStatus.completed; closed_by = some user; closed_at = some now })

-- The guards under the lock that a close and a quality confirmation share.
unfoldable pub gate_under_lock : Digests → ℕ → Job → Db → Result (Unit {0})
unfolding assert_signature_fresh
gate_under_lock d job_id job db = do
  require (validate_job_completion job_id db).can_complete Code.completion_blocked
  assert_risk_policy_approved db
  assert_signature_fresh d job_id job.cycle db

unfoldable pub close_locked : Digests → Actor → ℕ → ℕ → Db → Result Db
unfolding gate_under_lock finalize_snapshot
close_locked d actor job_id now db = do
  job ← load_scoped_job actor job_id db
  require (is_closable job.status) Code.job_not_closable
  gate_under_lock d job_id job db
  let review =
      log_audit actor.id quality_review_requested (Entity.job job_id)
        (update_job job_id (λ j. record j { status = JobStatus.quality_review }) db)
  let closed = log_audit actor.id job_closed (Entity.job job_id) (set_closed job_id actor.id now db)
  elim (job_status_eq job.status JobStatus.reopened) [
    | true ↦ ok review
    | false ↦ finalize_snapshot d job_id job.cycle actor.id closed
  ]

unfoldable pub close_job : Digests → (ℕ → Stat) → Actor → ℕ → ℕ → Db → Db → Result Db
unfolding close_checks close_locked
close_job d stat actor job_id now before db =
    close_checks stat actor job_id before >> close_locked d actor job_id now db

abbrev pub is_ready_of : ℕ → ℕ → Signature → Bool
is_ready_of job_id cycle g = g.job_id == job_id && (g.cycle == cycle && is_ready g.status)

unfoldable pub reopen_job : Actor → ℕ → Text → ℕ → Db → Result Db
unfolding load_scoped_job update count
reopen_job actor job_id reason now db = do
  job ← load_scoped_job actor job_id db
  require (job_status_eq job.status JobStatus.completed) Code.job_not_completed
  let new_cycle = job.cycle + 1
  let moved =
      update_job job_id
        (λ j. record j {
          status = JobStatus.reopened;
          cycle = new_cycle;
          reopen_reason = some reason;
          reopened_by = some actor.id;
          reopened_at = some now;
        })
        db
  let superseded = count (is_ready_of job_id job.cycle) moved.signatures
  let marked = record moved {
    signatures =
        update (is_ready_of job_id job.cycle) (λ g. record g { superseded_at = some now })
          moved.signatures;
  }
  let logged = log_audit actor.id job_reopened (Entity.job job_id) marked
  ok (
      if ltb 0 superseded
      then log_audit actor.id signature_superseded (Entity.job job_id) logged
      else logged)

unfoldable pub confirm_checks : (ℕ → Stat) → Actor → ℕ → Db → Result (Unit {0})
confirm_checks stat actor job_id before = do
  pre ← load_scoped_job actor job_id before
  require (job_status_eq pre.status JobStatus.quality_review) Code.job_not_in_quality_review
  require (validate_job_completion job_id before).can_complete Code.completion_blocked
  assert_ready_evidence_objects stat job_id before

unfoldable pub confirm_locked : Digests → Actor → ℕ → ℕ → Db → Result Db
unfolding gate_under_lock finalize_snapshot
confirm_locked d actor job_id now db = do
  job ← load_scoped_job actor job_id db
  require (job_status_eq job.status JobStatus.quality_review) Code.job_not_in_quality_review
  gate_under_lock d job_id job db
  finalize_snapshot d job_id job.cycle actor.id
      (log_audit actor.id job_closed (Entity.job job_id) (set_closed job_id actor.id now db))

unfoldable pub confirm_quality : Digests → (ℕ → Stat) → Actor → ℕ → ℕ → Db → Db → Result Db
unfolding confirm_checks confirm_locked
confirm_quality d stat actor job_id now before db =
    confirm_checks stat actor job_id before >> confirm_locked d actor job_id now db
