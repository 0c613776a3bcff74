-- ===== src/System/Audit/Requests.antt =====
-- The audit records of closing, reopening and confirming, and of every request.
use easygas_guide_server.Common.{
  ℕ, List, [], ◌∷◌, ◌++◌, ◌≡◌, refl, sym, ap, Text, subst, ◌⊎◌, inl, inr, ◌&&◌, Bool-cases, find,
  count, ltb, Option-cases, ◌==◌,
}
use easygas_guide_server.Api.{Code, ok, present-ok, require-ok, >>=-eq-ok, ok-injective}
use easygas_guide_server.Rbac.{Actor}
use easygas_guide_server.Store.{
  Db, JobStatus, job_status_eq, find_job, Action, Entity, AuditRecord, Snapshot,
}
use easygas_guide_server.Jobs.{load_scoped_job, create_job}
use easygas_guide_server.Completion.Summary.{Digests, collect_material}
use easygas_guide_server.Completion.Close.{
  close_locked, confirm_locked, reopen_job, finalize_snapshot, gate_under_lock, is_closable,
  is_ready_of,
}
use easygas_guide_server.System.Audit.{
  entry, kept, more, Recorded, one_record, create_job-Recorded, start_job-Recorded,
  cancel_job-Recorded, reassign-Recorded, unassign-Recorded, update_installation-Recorded,
}
use easygas_guide_server.System.Audit.Steps.{
  approve_stop-Recorded, reject_stop-Recorded, rework_stop-Recorded, redo_step-Recorded,
  complete_step-Recorded, assign_checklist-Recorded,
}
use easygas_guide_server.Completion.Moves.{close_job-locked, confirm_quality-locked}
use easygas_guide_server.System.Life.{second-ok}
use easygas_guide_server.System.{
  Request, create, start, cancel, install, reassign_to, unassign_from, assign_template, complete,
  redo, approve, reject, rework, close, reopen, confirm, serve,
}

finalize_snapshot-Grows :
    (d : Digests) (job_id cycle user : ℕ) (xs : List AuditRecord) (db : Db) {r : Db}
    → finalize_snapshot d job_id cycle user db ≡ ok r
    → Recorded user xs db.audit
    → Recorded user xs r.audit
unfolding finalize_snapshot
finalize_snapshot-Grows d job_id cycle user xs db {r} h rec =
    elim (Option-cases
      (find (λ (s : Snapshot). s.job_id == job_id && s.cycle == cycle) db.snapshots)) [
        | inr (s, seen) ↦
            let same : db ≡ r = ok-injective (rw (finalize_snapshot, seen) at h) in
            subst (λ x. Recorded user xs x.audit) same rec
        | inl fresh ↦
            let h0 = rw (finalize_snapshot, fresh) at h in
            let (job, _, h1) = present-ok (find_job job_id db) Code.not_found _ h0 in
            let (m, _, h2) = present-ok (collect_material job_id db) Code.not_found _ h1 in
            record {
              ys = db.audit;
              action = Action.completion_snapshot_finalized;
              entity = Entity.job job_id;
              grows = rw rec.last (more rec.ys rec.action rec.entity rec.grows);
              last = ap (λ x. x.audit) (sym (ok-injective h2));
            }
      ]

close_locked-Recorded :
    (d : Digests) (actor : Actor) (job_id now : ℕ) (db : Db) {r : Db}
    → close_locked d actor job_id now db ≡ ok r
    → Recorded actor.id db.audit r.audit
unfolding close_locked
close_locked-Recorded d actor job_id now db {r} h =
    let (job, _, h1) = >>=-eq-ok (load_scoped_job actor job_id db) _ h in
    let (_, h2) = require-ok (is_closable job.status) Code.job_not_closable _ h1 in
    let (_, _, h3) = >>=-eq-ok (gate_under_lock d job_id job db) _ h2 in
    elim (Bool-cases (job_status_eq job.status JobStatus.reopened)) [
      | inl again ↦
          one_record actor.id db.audit r.audit Action.quality_review_requested (Entity.job job_id)
            (ap (λ x. x.audit) (sym (ok-injective (rw again at h3))))
      | inr first ↦
          finalize_snapshot-Grows d job_id job.cycle actor.id db.audit _ (rw first at h3)
            (one_record actor.id db.audit _ Action.job_closed (Entity.job job_id) refl)
    ]

confirm_locked-Recorded :
    (d : Digests) (actor : Actor) (job_id now : ℕ) (db : Db) {r : Db}
    → confirm_locked d actor job_id now db ≡ ok r
    → Recorded actor.id db.audit r.audit
unfolding confirm_locked
confirm_locked-Recorded d actor job_id now db h =
    let (job, _, h1) = >>=-eq-ok (load_scoped_job actor job_id db) _ h in
    let (_, h2) =
      require-ok (job_status_eq job.status JobStatus.quality_review) Code.job_not_in_quality_review
        _ h1 in
    let (_, _, h3) = >>=-eq-ok (gate_under_lock d job_id job db) _ h2 in
    finalize_snapshot-Grows d job_id job.cycle actor.id db.audit _ h3
      (one_record actor.id db.audit _ Action.job_closed (Entity.job job_id) refl)

reopen_job-Recorded :
    (actor : Actor) (job_id : ℕ) (reason : Text) (now : ℕ) (db : Db) {r : Db}
    → reopen_job actor job_id reason now db ≡ ok r
    → Recorded actor.id db.audit r.audit
unfolding reopen_job
reopen_job-Recorded actor job_id reason now db {r} h =
    let (job, _, h1) = >>=-eq-ok (load_scoped_job actor job_id db) _ h in
    let (_, h2) =
      require-ok (job_status_eq job.status JobStatus.completed) Code.job_not_completed _ h1 in
    elim (Bool-cases (ltb 0 (count (is_ready_of job_id job.cycle) db.signatures))) [
      | inr none_left ↦
          one_record actor.id db.audit r.audit Action.job_reopened (Entity.job job_id)
            (ap (λ x. x.audit) (sym (ok-injective (rw none_left at h2))))
      | inl some_left ↦ record {
        ys = db.audit ++ entry actor.id Action.job_reopened (Entity.job job_id) ∷ [];
        action = Action.signature_superseded;
        entity = Entity.job job_id;
        grows = more db.audit Action.job_reopened (Entity.job job_id) kept;
        last = ap (λ x. x.audit) (sym (ok-injective (rw some_left at h2)));
      }
    ]

-- Every request that succeeds leaves the store as it was, or appends to the audit log at least one
-- record: only records that name the actor, with nothing changed or removed.
pub serve-Recorded :
    (d : Digests) (actor : Actor) (now : ℕ) (q : Request) (db r : Db)
    → serve d actor now q db ≡ ok r
    → (r ≡ db) ⊎ Recorded actor.id db.audit r.audit
unfolding serve
serve-Recorded d actor now (create customer vehicle) db r h = inr (
    create_job-Recorded actor customer vehicle db
      (second-ok (create_job actor customer vehicle db) r h).1)
serve-Recorded d actor now (start job) db r h = inr (start_job-Recorded actor job now db h)
serve-Recorded d actor now (cancel job reason) db r h =
    inr (cancel_job-Recorded actor job reason now db h)
serve-Recorded d actor now (install job input) db r h =
    update_installation-Recorded actor job input db h
serve-Recorded d actor now (reassign_to job technician reason) db r h =
    inr (reassign-Recorded actor job technician reason db h)
serve-Recorded d actor now (unassign_from job reason) db r h =
    inr (unassign-Recorded actor job reason db h)
serve-Recorded d actor now (assign_template job template before) db r h =
    inr (assign_checklist-Recorded actor job template before db h)
serve-Recorded d actor now (complete job step remark ms before) db r h =
    inr (complete_step-Recorded actor job step remark ms now before db h)
serve-Recorded d actor now (redo job step before) db r h =
    inr (redo_step-Recorded actor job step before db h)
serve-Recorded d actor now (approve job) db r h = inr (approve_stop-Recorded actor job now db h)
serve-Recorded d actor now (reject job reason) db r h =
    inr (reject_stop-Recorded actor job reason now db h)
serve-Recorded d actor now (rework job) db r h = inr (rework_stop-Recorded actor job db h)
serve-Recorded d actor now (close job stat before) db r h =
    inr
      (close_locked-Recorded d actor job now db (close_job-locked d stat actor job now before db h))
serve-Recorded d actor now (reopen job reason) db r h =
    inr (reopen_job-Recorded actor job reason now db h)
serve-Recorded d actor now (confirm job stat before) db r h = inr (
    confirm_locked-Recorded d actor job now db
      (confirm_quality-locked d stat actor job now before db h))
