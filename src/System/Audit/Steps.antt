-- ===== src/System/Audit/Steps.antt =====
-- The audit records of the checklist and of the STOP decisions.
use easygas_guide_server.Common.{
  ℕ, not, Option, List, [], ◌∷◌, ◌++◌, ◌≡◌, refl, sym, ◌∙◌, arith, ap, Text, subst, is_some, inl,
  inr, Bool-cases, filter, find, Option-cases,
}
use easygas_guide_server.Api.{Code, ok, present-ok, require-ok, >>=-eq-ok, ok-injective}
use easygas_guide_server.Rbac.{Actor}
use easygas_guide_server.Store.{
  Db, JobStatus, job_status_eq, find_job, find_checklist, Action, Entity, AuditRecord, RiskEvent,
  TemplateStep, is_done,
}
use easygas_guide_server.Jobs.{load_scoped_job}
use easygas_guide_server.Risk.{whole, stop_rejected}
use easygas_guide_server.RiskPolicy.{assess_risk}
use easygas_guide_server.RiskEvents.{
  resolve_all, resolve_stop_risk, is_open_stop_risk, link_stop_rejection_risk, StopRiskArgs,
}
use easygas_guide_server.Checklist.{
  Submitted, assign_checklist, complete_step, redo_step, insert_steps, attach_checklist,
  complete_checklist_if_done, submit_stop, finish_step, published_version, steps_of_version,
  is_assignable_state, is_cons, template_of, find_step,
}
use easygas_guide_server.Checklist.Sequence.{complete_step-cleared}
use easygas_guide_server.Checklist.Stop.{
  PendingStop, lock_pending_stop, approve_writes, approve_stop, reject_stop, rework_stop,
  rejected_step,
}
use easygas_guide_server.System.Audit.{entry, Grows, kept, more, Recorded, one_record}

complete_checklist_if_done-audit :
    (id now : ℕ) (db : Db) → (complete_checklist_if_done id now db).audit ≡ db.audit
unfolding complete_checklist_if_done
complete_checklist_if_done-audit id now db = ground arith

insert_steps-audit :
    (id : ℕ) (ts : List TemplateStep) (db : Db) → (insert_steps id ts db).audit ≡ db.audit
unfolding insert_steps
insert_steps-audit id [] db = refl
insert_steps-audit id (t ∷ ts) db = insert_steps-audit id ts _

resolve_all-Grows :
    (user approval now : ℕ) (note : Text) (rs : List RiskEvent) (xs : List AuditRecord) (db : Db)
    → Grows user xs db.audit
    → Grows user xs (resolve_all user approval now note rs db).audit
unfolding resolve_all
resolve_all-Grows user approval now note [] xs db g = g
resolve_all-Grows user approval now note (r ∷ rs) xs db g =
    resolve_all-Grows user approval now note rs xs _ (more db.audit _ _ g)

approve_writes-Recorded :
    (actor : Actor) (job_id : ℕ) (p : PendingStop) (now : ℕ) (db : Db)
    → Recorded actor.id db.audit (approve_writes actor job_id p now db).audit
unfolding approve_writes resolve_stop_risk
approve_writes-Recorded actor job_id p now db = record {
  ys = _;
  action = Action.stop_approved;
  entity = Entity.stop_approval p.approval.id;
  grows =
      resolve_all-Grows actor.id p.approval.id now _
        (filter (is_open_stop_risk job_id p.job.cycle p.step.id) db.risks) db.audit db kept;
  last =
      ap (λ xs. xs ++ entry actor.id Action.stop_approved (Entity.stop_approval p.approval.id) ∷ [])
        (complete_checklist_if_done-audit p.step.job_checklist_id now _);
}

pub approve_stop-Recorded :
    (actor : Actor) (job_id now : ℕ) (db : Db) {r : Db}
    → approve_stop actor job_id now db ≡ ok r
    → Recorded actor.id db.audit r.audit
unfolding approve_stop
approve_stop-Recorded actor job_id now db {r} h =
    let (p, _, h1) = >>=-eq-ok (lock_pending_stop actor job_id db) _ h in
    rw (← ok-injective h1) (approve_writes-Recorded actor job_id p now db)

link_stop_rejection_risk-Grows :
    (args : StopRiskArgs) (db : Db) {r : Db}
    → link_stop_rejection_risk args db ≡ ok r
    → Grows args.actor_id db.audit r.audit
unfolding link_stop_rejection_risk
link_stop_rejection_risk-Grows args db {r} h =
    elim (Option-cases
      (find (is_open_stop_risk args.job_id args.cycle args.job_step_id) db.risks)) [
        | inr (x, seen) ↦
            let same : db ≡ r = ok-injective (rw (link_stop_rejection_risk, seen) at h) in
            subst (λ x. Grows args.actor_id db.audit x.audit) same kept
        | inl fresh ↦
            let h0 = rw (link_stop_rejection_risk, fresh) at h in
            let (a, _, h1) = >>=-eq-ok (assess_risk db (whole 4) (whole 4) stop_rejected) _ h0 in
            subst (λ x. Grows args.actor_id db.audit x.audit) (ok-injective h1)
              (more db.audit _ _ kept)
      ]

pub reject_stop-Recorded :
    (actor : Actor) (job_id : ℕ) (reason : Text) (now : ℕ) (db : Db) {r : Db}
    → reject_stop actor job_id reason now db ≡ ok r
    → Recorded actor.id db.audit r.audit
unfolding reject_stop
reject_stop-Recorded actor job_id reason now db h =
    let (p, _, h1) = >>=-eq-ok (lock_pending_stop actor job_id db) _ h in
    let (linked, link, h2) = >>=-eq-ok (link_stop_rejection_risk _ _) _ h1 in
    record {
      ys = linked.audit;
      action = Action.stop_rejected;
      entity = Entity.stop_approval p.approval.id;
      grows = link_stop_rejection_risk-Grows _ _ link;
      last = ap (λ x. x.audit) (sym (ok-injective h2));
    }

pub rework_stop-Recorded :
    (actor : Actor) (job_id : ℕ) (db : Db) {r : Db}
    → rework_stop actor job_id db ≡ ok r
    → Recorded actor.id db.audit r.audit
unfolding rework_stop
rework_stop-Recorded actor job_id db {r} h =
    let (job, _, h1) = >>=-eq-ok (load_scoped_job actor job_id db) _ h in
    let (_, h2) =
      require-ok (job_status_eq job.status JobStatus.rejected) Code.job_not_rejected _ h1 in
    let (c, _, h3) = present-ok (find_checklist job_id db) Code.no_checklist _ h2 in
    let (s, _, h4) = present-ok (rejected_step c.id db) Code.no_rejected_step _ h3 in
    let (_, _, h5) = present-ok (template_of s db) Code.no_rejected_step _ h4 in
    one_record actor.id db.audit r.audit Action.stop_correction_started (Entity.job_step s.id)
      (ap (λ x. x.audit) (sym (ok-injective h5)))

pub redo_step-Recorded :
    (actor : Actor) (job_id step_id : ℕ) (before db : Db) {r : Db}
    → redo_step actor job_id step_id before db ≡ ok r
    → Recorded actor.id db.audit r.audit
unfolding redo_step
redo_step-Recorded actor job_id step_id before db {r} h =
    let (_, _, h0) = >>=-eq-ok (load_scoped_job actor job_id before) _ h in
    let (job, _, h1) = present-ok (find_job job_id db) Code.job_not_reopened _ h0 in
    let (_, h2) =
      require-ok (job_status_eq job.status JobStatus.reopened) Code.job_not_reopened _ h1 in
    let (c, _, h3) = present-ok (find_checklist job_id db) Code.not_found _ h2 in
    let (s, _, h4) = present-ok (find_step step_id c.id db) Code.not_found _ h3 in
    let (_, _, h5) = present-ok (template_of s db) Code.not_found _ h4 in
    let (_, h6) = require-ok (is_done s.status) Code.step_not_done _ h5 in
    one_record actor.id db.audit r.audit Action.step_correction_started (Entity.job_step s.id)
      (ap (λ x. x.audit) (sym (ok-injective h6)))

pub complete_step-Recorded :
    (actor : Actor) (job_id step_id : ℕ) (remark : Option Text) (ms : List Submitted) (now : ℕ)
    (before db : Db) {r : Db}
    → complete_step actor job_id step_id remark ms now before db ≡ ok r
    → Recorded actor.id db.audit r.audit
unfolding submit_stop finish_step
complete_step-Recorded actor job_id step_id remark ms now before db {r} h =
    let (c, _, e) = complete_step-cleared actor job_id step_id remark ms now before db h in
    elim (Bool-cases c.template.is_stop) [
      | inl stop ↦
          one_record actor.id db.audit r.audit Action.stop_submitted (Entity.job_step c.step.id)
            (ap (λ x. x.audit) (rw stop at e))
      | inr normal ↦
          one_record actor.id db.audit r.audit Action.step_completed (Entity.job_step c.step.id) (
            ap (λ x. x.audit) (rw normal at e)
            ∙ ap (λ xs. xs ++ entry actor.id Action.step_completed (Entity.job_step c.step.id) ∷ [])
                (complete_checklist_if_done-audit c.step.job_checklist_id now _))
    ]

attach_checklist-audit :
    (actor : Actor) (job_id version : ℕ) (steps : List TemplateStep) (db : Db)
    → (attach_checklist actor job_id version steps db).audit
      ≡ db.audit ++ entry actor.id Action.checklist_assigned (Entity.job job_id) ∷ []
unfolding attach_checklist
attach_checklist-audit actor job_id version steps db =
    ap (λ xs. xs ++ entry actor.id Action.checklist_assigned (Entity.job job_id) ∷ [])
      (insert_steps-audit db.next_id steps _)

pub assign_checklist-Recorded :
    (actor : Actor) (job_id template_id : ℕ) (before db : Db) {r : Db}
    → assign_checklist actor job_id template_id before db ≡ ok r
    → Recorded actor.id db.audit r.audit
unfolding assign_checklist
assign_checklist-Recorded actor job_id template_id before db {r} h =
    let (_, _, h1) = >>=-eq-ok (load_scoped_job actor job_id before) _ h in
    let (job, _, h2) = present-ok (find_job job_id db) Code.job_state_invalid _ h1 in
    let (_, h3) = require-ok (is_assignable_state job.status) Code.job_state_invalid _ h2 in
    let (_, h4) =
      require-ok (not (is_some (find_checklist job_id db))) Code.checklist_exists _ h3 in
    let (v, _, h5) = present-ok (published_version template_id db) Code.no_published_version _ h4 in
    let (_, h6) = require-ok (is_cons (steps_of_version v.id db)) Code.empty_version _ h5 in
    one_record actor.id db.audit r.audit _ _ (
      ap (λ x. x.audit) (sym (ok-injective h6))
      ∙ attach_checklist-audit actor job_id v.id (steps_of_version v.id db) db)
