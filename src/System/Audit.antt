-- ===== src/System/Audit.antt =====
-- The audit log under the requests: it only grows, and no change of the store goes unrecorded.
pub mod Steps
pub mod Requests
use easygas_guide_server.Common.{
  ℕ, suc, ◌+◌, Bool, true, false, not, Option, none, some, List, [], ◌∷◌, ◌++◌, ◌≡◌, refl, sym, ◌∙◌,
  arith, ap, Text, subst, is_some, ◌⊎◌, inl, inr, Bool-cases, filter, find, count, ltb,
  Option-cases, ◌==◌,
}
use easygas_guide_server.Api.{
  Code, Result, ok, err, present-ok, require-ok, >>=-eq-ok, ok-injective,
}
use easygas_guide_server.Rbac.{Actor, can, jobs_assign}
use easygas_guide_server.Store.{
  Db, Job, JobStatus, job_status_eq, find_job, find_checklist, Action, Entity, AuditRecord,
  RiskEvent, TemplateStep, StepStatus, is_done,
}
use easygas_guide_server.Jobs.{
  load_scoped_job, lock_job_for_transition, create_job, start_job, cancel_job, update_installation,
  has_changes, InstallationInput, reassign, unassign, assign_at_creation, truthy_id,
}
use easygas_guide_server.Risk.{whole, stop_rejected}
use easygas_guide_server.RiskPolicy.{assess_risk}
use easygas_guide_server.RiskEvents.{
  resolve_all, resolve_stop_risk, is_open_stop_risk, link_stop_rejection_risk, StopRiskArgs,
}
use easygas_guide_server.Checklist.{
  Submitted, assign_checklist, complete_step, redo_step, insert_steps, attach_checklist,
  complete_checklist_if_done, submit_stop, finish_step, published_version, steps_of_version,
  is_assignable_state, is_cons, template_of, find_step,
}
use easygas_guide_server.Checklist.Sequence.{complete_step-cleared}
use easygas_guide_server.Checklist.Stop.{
  PendingStop, lock_pending_stop, approve_writes, approve_stop, reject_stop, rework_stop,
  rejected_step,
}
use easygas_guide_server.Completion.Summary.{Digests, collect_material}
use easygas_guide_server.Completion.Close.{
  close_locked, confirm_locked, reopen_job, finalize_snapshot, gate_under_lock, is_closable,
  is_ready_of,
}

abbrev pub entry : ℕ → Action → Entity → AuditRecord
entry user action entity = record { user_id = user; action = action; entity = entity }

-- Records of one user were appended.
pub data Grows (user : ℕ) (xs : List AuditRecord) : List AuditRecord → Type 0 where
  kept : Grows user xs xs
  more :
      (ys : List AuditRecord) (action : Action) (entity : Entity)
      → Grows user xs ys
      → Grows user xs (ys ++ entry user action entity ∷ [])

-- At least one record of the user was appended, after others of the same user.
pub record Recorded (user : ℕ) (xs zs : List AuditRecord) : Type 0 where
  pub ys : List AuditRecord
  pub action : Action
  pub entity : Entity
  pub grows : Grows user xs ys
  pub last : zs ≡ ys ++ entry user action entity ∷ []

pub one_record :
    (user : ℕ) (xs zs : List AuditRecord) (action : Action) (entity : Entity)
    → zs ≡ xs ++ entry user action entity ∷ []
    → Recorded user xs zs
one_record user xs zs action entity h = record {
  ys = xs;
  action = action;
  entity = entity;
  grows = kept;
  last = h;
}

assign_at_creation-audit :
    (id : ℕ) (creator : Actor) (cycle : ℕ) (db : Db)
    → (assign_at_creation id creator cycle db).audit ≡ db.audit
unfolding assign_at_creation
assign_at_creation-audit id creator cycle db = ground arith

pub create_job-Recorded :
    (actor : Actor) (customer vehicle : ℕ) (db : Db) {r : ℕ × Db}
    → create_job actor customer vehicle db ≡ ok r
    → Recorded actor.id db.audit r.1.audit
unfolding create_job
create_job-Recorded actor customer vehicle db {r} h =
    let (branch, _, h1) = present-ok (truthy_id actor.branch_id) Code.no_branch _ h in
    let (_, _, h2) = present-ok (find _ db.customers) Code.invalid_customer _ h1 in
    let (v, _, h3) = present-ok (find _ db.vehicles) Code.invalid_vehicle _ h2 in
    let (_, h4) = require-ok (v.customer_id == customer) Code.vehicle_customer_mismatch _ h3 in
    one_record actor.id db.audit r.1.audit Action.job_created (Entity.job db.next_id) (
      ap (λ x. x.1.audit) (sym (ok-injective h4))
      ∙ ap (λ xs. xs ++ entry actor.id Action.job_created (Entity.job db.next_id) ∷ [])
          (assign_at_creation-audit db.next_id actor 1 _))

pub start_job-Recorded :
    (actor : Actor) (id now : ℕ) (db : Db) {r : Db}
    → start_job actor id now db ≡ ok r
    → Recorded actor.id db.audit r.audit
unfolding start_job
start_job-Recorded actor id now db h =
    one_record actor.id db.audit _ Action.job_started (Entity.job id) (ground arith)

pub cancel_job-Recorded :
    (actor : Actor) (id : ℕ) (reason : Text) (now : ℕ) (db : Db) {r : Db}
    → cancel_job actor id reason now db ≡ ok r
    → Recorded actor.id db.audit r.audit
unfolding cancel_job
cancel_job-Recorded actor id reason now db h =
    one_record actor.id db.audit _ Action.job_cancelled (Entity.job id) (ground arith)

pub reassign-Recorded :
    (actor : Actor) (id technician : ℕ) (reason : Option Text) (db : Db) {r : Db}
    → reassign actor id technician reason db ≡ ok r
    → Recorded actor.id db.audit r.audit
unfolding reassign
reassign-Recorded actor id technician reason db h =
    one_record actor.id db.audit _ Action.job_reassigned (Entity.job id) (ground arith)

pub unassign-Recorded :
    (actor : Actor) (id : ℕ) (reason : Option Text) (db : Db) {r : Db}
    → unassign actor id reason db ≡ ok r
    → Recorded actor.id db.audit r.audit
unfolding unassign
unassign-Recorded actor id reason db h =
    one_record actor.id db.audit _ Action.job_unassigned (Entity.job id) (ground arith)

pub update_installation-Recorded :
    (actor : Actor) (id : ℕ) (input : InstallationInput) (db : Db) {r : Db}
    → update_installation actor id input db ≡ ok r
    → (r ≡ db) ⊎ Recorded actor.id db.audit r.audit
unfolding update_installation
update_installation-Recorded actor id input db {r} h =
    let early = JobStatus.draft ∷ JobStatus.in_progress ∷ [] in
    let (job, _, e) = >>=-eq-ok (lock_job_for_transition actor id early db) _ h in
    elim (Bool-cases (has_changes input job.installation)) [
      | inr same ↦ inl (sym (ok-injective (rw same at e)))
      | inl changed ↦ inr (
          one_record actor.id db.audit _ Action.job_installation_updated (Entity.job id)
            (ap (λ x. x.audit) (sym (ok-injective (rw changed at e)))))
    ]
