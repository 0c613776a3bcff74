-- ===== src/Checklist/Halting.antt =====
-- A submitted STOP step halts its job until the decision.
use easygas_guide_server.Common.{
  ℕ, true, Option, some, List, ◌++◌, ◌==◌, ◌≡◌, ◌≢◌, refl, ◌∙◌, arith, find-update, find-true,
  if◌then◌else◌, Text, ap, some-eq,
}
use easygas_guide_server.Api.{ok}
use easygas_guide_server.Rbac.{Actor}
use easygas_guide_server.Store.{Db, Job, JobStatus, JobStep, Measurement, find_job}
use easygas_guide_server.Jobs.{is_workable}
use easygas_guide_server.Checklist.{Submitted, Cleared, clear_step, complete_step, submit_stop}
use easygas_guide_server.Checklist.Sequence.{clear_step-Passed, complete_step-cleared}

-- The job waits after a STOP step is submitted.
submitted_waits :
    (actor : Actor) (job_id : ℕ) (step : JobStep) (now : ℕ) (remark : Option Text) (job : Job)
    (rows : List Measurement) (db : Db)
    → find_job job_id db ≡ some job
    → find_job job_id (
        submit_stop actor job_id step now remark
          (record db { measurements = db.measurements ++ rows }))
      ≡ some (record job { status = JobStatus.waiting_stop_approval })
unfolding submit_stop find_job
submitted_waits actor job_id step now remark job rows db found =
    find-update (λ j. j.id == job_id) (λ j. j.id == job_id)
      (λ (j : Job). record j { status = JobStatus.waiting_stop_approval }) db.jobs (λ j. refl)
    ∙ ap
        (mathlib.Core.Option.map (λ (j : Job).
          if j.id == job_id then record j { status = JobStatus.waiting_stop_approval } else j))
        found
    ∙ rw (find-true (λ j. j.id == job_id) db.jobs job found)

waiting_unworkable : (j : Job) → j.status ≡ JobStatus.waiting_stop_approval → is_workable j ≢ true
unfolding is_workable
waiting_unworkable j e h = ground arith

-- After a STOP step of a job is submitted, no request to complete a step of that job succeeds on
-- the store it left.
pub stop_halts_job :
    (actor : Actor) (job_id step_id : ℕ) (remark : Option Text) (ms : List Submitted) (now : ℕ)
    (before db r : Db) (c : Cleared)
    → clear_step actor job_id step_id ms db ≡ ok c
    → c.template.is_stop ≡ true
    → complete_step actor job_id step_id remark ms now before db ≡ ok r
    → (other : Actor) (next : ℕ) (said : Option Text) (ns : List Submitted) (later : ℕ)
      (seen s : Db)
    → complete_step other job_id next said ns later seen r ≢ ok s
stop_halts_job actor job_id step_id remark ms now before db r c cleared stop h other next said ns
      later seen s k =
    let (c1, cleared1, e) = complete_step-cleared actor job_id step_id remark ms now before db h in
    let same : c1 ≡ c = ground arith in
    let p = clear_step-Passed actor job_id step_id ms db cleared in
    let (c2, cleared2, _) = complete_step-cleared other job_id next said ns later seen r k in
    let q = clear_step-Passed other job_id next ns r cleared2 in
    let table : r
        ≡ submit_stop actor job_id c.step now remark
            (record db { measurements = db.measurements ++ c.rows }) =
      rw (same, stop) at e in
    let waits = submitted_waits actor job_id c.step now remark c.job c.rows db p.job_found in
    let job : c2.job ≡ record c.job { status = JobStatus.waiting_stop_approval } =
      some-eq _ c2.job _ q.job_found (rw table waits) in
    waiting_unworkable c2.job (ap (λ (j : Job). j.status) job) q.workable
