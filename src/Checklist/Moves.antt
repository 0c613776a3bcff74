-- ===== src/Checklist/Moves.antt =====
-- What the checklist and STOP operations do to the table of jobs.
use easygas_guide_server.Common.{
  ℕ, true, false, Option, some, List, [], ◌∷◌, ◌==◌, ◌≡◌, refl, ◌∙◌, inl, inr, arith, update,
  filter, Bool-cases, Text, ap, not, is_some,
}
use easygas_guide_server.Api.{Code, ok, present-ok, require-ok, >>=-eq-ok, ok-injective}
use easygas_guide_server.Rbac.{Actor}
use easygas_guide_server.Store.{
  Db, Job, JobStatus, job_status_eq, find_job, find_checklist, StepStatus, step_status_eq,
  RiskEvent, TemplateStep,
}
use easygas_guide_server.Jobs.{load_scoped_job, is_workable, working_status, is_reopen_cycle}
use easygas_guide_server.Jobs.Diagram.{
  submits, resubmits, approves, approves_reopened, rejects, reworks, reworks_reopened, Edge, Moves,
  Moves-refl, Wrote, Wrote-Moves, load_scoped_job-found,
}
use easygas_guide_server.RiskEvents.{
  resolve_all, resolve_stop_risk, link_stop_rejection_risk, StopRiskArgs, is_open_stop_risk,
}
use easygas_guide_server.Checklist.{
  Submitted, complete_step, submit_stop, finish_step, redo_step, assign_checklist,
  is_assignable_state, published_version, steps_of_version, attach_checklist, is_cons, insert_steps,
  complete_checklist_if_done, template_of,
}
use easygas_guide_server.Checklist.Sequence.{clear_step-Passed, complete_step-cleared}
use easygas_guide_server.Checklist.Stop.{
  pending_approval, step_by_id, rejected_step, lock_pending_stop, PendingStop, approve_writes,
  approve_stop, rework_stop, reject_stop,
}

complete_checklist_if_done-jobs :
    (id now : ℕ) (db : Db) → (complete_checklist_if_done id now db).jobs ≡ db.jobs
unfolding complete_checklist_if_done
complete_checklist_if_done-jobs id now db = ground arith

insert_steps-jobs :
    (id : ℕ) (ts : List TemplateStep) (db : Db) → (insert_steps id ts db).jobs ≡ db.jobs
unfolding insert_steps
insert_steps-jobs id [] db = refl
insert_steps-jobs id (t ∷ ts) db = insert_steps-jobs id ts _

resolve_all-jobs :
    (user approval now : ℕ) (note : Text) (rs : List RiskEvent) (db : Db)
    → (resolve_all user approval now note rs db).jobs ≡ db.jobs
unfolding resolve_all
resolve_all-jobs user approval now note [] db = refl
resolve_all-jobs user approval now note (r ∷ rs) db = resolve_all-jobs user approval now note rs _

resolve_stop_risk-jobs :
    (job_id cycle step user approval now : ℕ) (note : Text) (db : Db)
    → (resolve_stop_risk job_id cycle step user approval now note db).jobs ≡ db.jobs
unfolding resolve_stop_risk
resolve_stop_risk-jobs job_id cycle step user approval now note db =
    resolve_all-jobs user approval now note (filter (is_open_stop_risk job_id cycle step) db.risks)
      db

attach_checklist-jobs :
    (actor : Actor) (job_id version : ℕ) (steps : List TemplateStep) (db : Db)
    → (attach_checklist actor job_id version steps db).jobs ≡ db.jobs
unfolding attach_checklist
attach_checklist-jobs actor job_id version steps db = insert_steps-jobs db.next_id steps _

approve_writes-jobs :
    (actor : Actor) (job_id : ℕ) (p : PendingStop) (now : ℕ) (db : Db)
    → (approve_writes actor job_id p now db).jobs
      ≡ update (λ x. x.id == job_id) (λ j. record j { status = working_status p.job }) db.jobs
unfolding approve_writes
approve_writes-jobs actor job_id p now db =
    complete_checklist_if_done-jobs p.step.job_checklist_id now _
    ∙ ap (update (λ x. x.id == job_id) (λ j. record j { status = working_status p.job }))
        (resolve_stop_risk-jobs job_id p.job.cycle p.step.id actor.id p.approval.id now _ db)

link_stop_rejection_risk-jobs :
    (args : StopRiskArgs) (db : Db) {r : Db}
    → link_stop_rejection_risk args db ≡ ok r
    → r.jobs ≡ db.jobs
unfolding link_stop_rejection_risk
link_stop_rejection_risk-jobs args db h = ground arith

workable-Edge :
    (j : Job) → is_workable j ≡ true → Edge false j.status JobStatus.waiting_stop_approval
unfolding is_workable
workable-Edge j h = go j.status refl
  where
    go : (s : JobStatus) → j.status ≡ s → Edge false j.status JobStatus.waiting_stop_approval
    go JobStatus.in_progress e = rw e submits
    go JobStatus.reopened e = rw e resubmits
    go _ e = absurd (ground arith)

-- The working status of a waiting or of a rejected job.
working-Edge :
    (j : Job) → j.status ≡ JobStatus.waiting_stop_approval → Edge false j.status (working_status j)
unfolding working_status
working-Edge j h = elim (Bool-cases (is_reopen_cycle j)) [
  | inl again ↦ rw (again, h) approves_reopened
  | inr first ↦ rw (first, h) approves
]

rework-Edge : (j : Job) → j.status ≡ JobStatus.rejected → Edge false j.status (working_status j)
unfolding working_status
rework-Edge j h = elim (Bool-cases (is_reopen_cycle j)) [
  | inl again ↦ rw (again, h) reworks_reopened
  | inr first ↦ rw (first, h) reworks
]

is_waiting :
    (s : JobStatus)
    → job_status_eq s JobStatus.waiting_stop_approval ≡ true
    → s ≡ JobStatus.waiting_stop_approval
is_waiting s h = ground arith

is_rejected : (s : JobStatus) → job_status_eq s JobStatus.rejected ≡ true → s ≡ JobStatus.rejected
is_rejected s h = ground arith

pub complete_step-Moves :
    (actor : Actor) (job_id step_id : ℕ) (remark : Option Text) (ms : List Submitted) (now : ℕ)
    (before db : Db) {r : Db}
    → complete_step actor job_id step_id remark ms now before db ≡ ok r
    → Moves false db.jobs r.jobs
unfolding submit_stop finish_step find_job
complete_step-Moves actor job_id step_id remark ms now before db {r} h =
    let (c, cleared, e) = complete_step-cleared actor job_id step_id remark ms now before db h in
    let p = clear_step-Passed actor job_id step_id ms db cleared in
    elim (Bool-cases c.template.is_stop) [
      | inl stop ↦ Wrote-Moves {id = job_id} (record {
        job = c.job;
        write = λ j. record j { status = JobStatus.waiting_stop_approval };
        found = p.job_found;
        keeps = λ j. refl;
        table = rw (e, stop);
        moved = inr (workable-Edge c.job p.workable);
      })
      | inr normal ↦
          let table : r.jobs ≡ db.jobs = rw (e, normal) (simp complete_checklist_if_done-jobs) in
          rw table (Moves-refl db.jobs)
    ]

pub redo_step-Moves :
    (actor : Actor) (job_id step_id : ℕ) (before db : Db) {r : Db}
    → redo_step actor job_id step_id before db ≡ ok r
    → Moves false db.jobs r.jobs
unfolding redo_step
redo_step-Moves actor job_id step_id before db {r} h =
    let (_, _, h1) = >>=-eq-ok (load_scoped_job actor job_id before) _ h in
    let table : r.jobs ≡ db.jobs = ground arith in rw table (Moves-refl db.jobs)

assign_checklist_jobs :
    (actor : Actor) (job_id template_id : ℕ) (before db : Db) {r : Db}
    → assign_checklist actor job_id template_id before db ≡ ok r
    → r.jobs ≡ db.jobs
unfolding assign_checklist
assign_checklist_jobs actor job_id template_id before db h =
    let (_, _, h1) = >>=-eq-ok (load_scoped_job actor job_id before) _ h in
    let (job, _, h2) = present-ok (find_job job_id db) Code.job_state_invalid _ h1 in
    let (_, h3) = require-ok (is_assignable_state job.status) Code.job_state_invalid _ h2 in
    let (_, h4) =
      require-ok (not (is_some (find_checklist job_id db))) Code.checklist_exists _ h3 in
    let (v, _, h5) = present-ok (published_version template_id db) Code.no_published_version _ h4 in
    let (_, h6) = require-ok (is_cons (steps_of_version v.id db)) Code.empty_version _ h5 in
    rw (← ok-injective h6) (attach_checklist-jobs actor job_id v.id (steps_of_version v.id db) db)

pub assign_checklist-Moves :
    (actor : Actor) (job_id template_id : ℕ) (before db : Db) {r : Db}
    → assign_checklist actor job_id template_id before db ≡ ok r
    → Moves false db.jobs r.jobs
assign_checklist-Moves actor job_id template_id before db h =
    rw (assign_checklist_jobs actor job_id template_id before db h) (Moves-refl db.jobs)

-- The job that a STOP decision is made on waits for it.
pub lock_pending_stop-found :
    (actor : Actor) (job_id : ℕ) (db : Db) {p : PendingStop}
    → lock_pending_stop actor job_id db ≡ ok p
    → (find_job job_id db ≡ some p.job) × (p.job.status ≡ JobStatus.waiting_stop_approval)
unfolding lock_pending_stop
lock_pending_stop-found actor job_id db h =
    let (job, loaded, h1) = >>=-eq-ok (load_scoped_job actor job_id db) _ h in
    let (waits, h2) =
      require-ok (job_status_eq job.status JobStatus.waiting_stop_approval)
        Code.job_not_waiting_stop _ h1 in
    let (a, _, h3) = present-ok (pending_approval job_id db) Code.no_pending_stop _ h2 in
    let (s, _, h4) = present-ok (step_by_id a.job_step_id db) Code.stop_step_state_invalid _ h3 in
    let (t, _, h5) = present-ok (template_of s db) Code.stop_step_state_invalid _ h4 in
    let (_, h6) =
      require-ok (step_status_eq s.status StepStatus.waiting_approval) Code.stop_step_state_invalid
        _ h5 in
    let e = ap (λ p. p.job) (ok-injective h6) in
    rw (← e) (load_scoped_job-found actor job_id db loaded, is_waiting job.status waits)

pub approve_stop-Wrote :
    (actor : Actor) (job_id now : ℕ) (db : Db) {r : Db}
    → approve_stop actor job_id now db ≡ ok r
    → Wrote false job_id db.jobs r.jobs
unfolding approve_stop find_job
approve_stop-Wrote actor job_id now db h =
    let (p, locked, h1) = >>=-eq-ok (lock_pending_stop actor job_id db) _ h in
    let (found, waits) = lock_pending_stop-found actor job_id db locked in
    record {
      job = p.job;
      write = λ j. record j { status = working_status p.job };
      found = found;
      keeps = λ j. refl;
      table = rw (← ok-injective h1) (approve_writes-jobs actor job_id p now db);
      moved = inr (working-Edge p.job waits);
    }

pub reject_stop-Wrote :
    (actor : Actor) (job_id : ℕ) (reason : Text) (now : ℕ) (db : Db) {r : Db}
    → reject_stop actor job_id reason now db ≡ ok r
    → Wrote false job_id db.jobs r.jobs
unfolding reject_stop find_job
reject_stop-Wrote actor job_id reason now db h =
    let (p, locked, h1) = >>=-eq-ok (lock_pending_stop actor job_id db) _ h in
    let (found, waits) = lock_pending_stop-found actor job_id db locked in
    let (linked, link, h2) = >>=-eq-ok (link_stop_rejection_risk _ _) _ h1 in
    record {
      job = p.job;
      write = λ j. record j { status = JobStatus.rejected };
      found = found;
      keeps = λ j. refl;
      table = rw (← ok-injective h2) (link_stop_rejection_risk-jobs _ _ link);
      moved = inr (rw waits rejects);
    }

pub rework_stop-Wrote :
    (actor : Actor) (job_id : ℕ) (db : Db) {r : Db}
    → rework_stop actor job_id db ≡ ok r
    → Wrote false job_id db.jobs r.jobs
unfolding rework_stop find_job
rework_stop-Wrote actor job_id db h =
    let (job, loaded, h1) = >>=-eq-ok (load_scoped_job actor job_id db) _ h in
    let (was, h2) =
      require-ok (job_status_eq job.status JobStatus.rejected) Code.job_not_rejected _ h1 in
    let (c, _, h3) = present-ok (find_checklist job_id db) Code.no_checklist _ h2 in
    let (s, _, h4) = present-ok (rejected_step c.id db) Code.no_rejected_step _ h3 in
    let (_, _, h5) = present-ok (template_of s db) Code.no_rejected_step _ h4 in
    record {
      job = job;
      write = λ j. record j { status = working_status job };
      found = load_scoped_job-found actor job_id db loaded;
      keeps = λ j. refl;
      table = rw (← ok-injective h5);
      moved = inr (rework-Edge job (is_rejected job.status was));
    }
