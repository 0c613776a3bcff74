-- ===== src/Completion/Moves.antt =====
-- What closing, reopening and confirming do to the table of jobs.
use easygas_guide_server.Common.{
  ℕ, ◌+◌, true, false, some, ◌≡◌, refl, inl, inr, arith, Bool-cases, Text, ltb, count,
}
use easygas_guide_server.Api.{Code, ok, require-ok, >>=-eq-ok, ok-injective}
use easygas_guide_server.Rbac.{Actor}
use easygas_guide_server.Store.{Db, JobStatus, job_status_eq, find_job}
use easygas_guide_server.Jobs.{load_scoped_job}
use easygas_guide_server.Jobs.Diagram.{
  closes, reviews, confirms, reopens, Wrote, load_scoped_job-found,
}
use easygas_guide_server.Completion.{Stat}
use easygas_guide_server.Completion.Summary.{Digests}
use easygas_guide_server.Completion.Close.{
  is_closable, gate_under_lock, finalize_snapshot, close_locked, close_job, close_checks,
  reopen_job, confirm_locked, confirm_quality, confirm_checks, is_ready_of,
}

pub finalize_snapshot-jobs :
    (d : Digests) (job_id cycle user : ℕ) (db : Db) {r : Db}
    → finalize_snapshot d job_id cycle user db ≡ ok r
    → r.jobs ≡ db.jobs
unfolding finalize_snapshot
finalize_snapshot-jobs d job_id cycle user db h = ground arith

is_reopened : (s : JobStatus) → job_status_eq s JobStatus.reopened ≡ true → s ≡ JobStatus.reopened
is_reopened s h = ground arith

is_in_progress :
    (s : JobStatus)
    → is_closable s ≡ true
    → job_status_eq s JobStatus.reopened ≡ false
    → s ≡ JobStatus.in_progress
is_in_progress s h k = ground arith

is_in_review :
    (s : JobStatus) → job_status_eq s JobStatus.quality_review ≡ true → s ≡ JobStatus.quality_review
is_in_review s h = ground arith

is_completed :
    (s : JobStatus) → job_status_eq s JobStatus.completed ≡ true → s ≡ JobStatus.completed
is_completed s h = ground arith

pub close_locked-Wrote :
    (d : Digests) (actor : Actor) (job_id now : ℕ) (db : Db) {r : Db}
    → close_locked d actor job_id now db ≡ ok r
    → Wrote true job_id db.jobs r.jobs
unfolding close_locked find_job
close_locked-Wrote d actor job_id now db {r} h =
    let (job, loaded, h1) = >>=-eq-ok (load_scoped_job actor job_id db) _ h in
    let (closable, h2) = require-ok (is_closable job.status) Code.job_not_closable _ h1 in
    let (_, _, h3) = >>=-eq-ok (gate_under_lock d job_id job db) _ h2 in
    elim (Bool-cases (job_status_eq job.status JobStatus.reopened)) [
      | inl again ↦ record {
        job = job;
        write = λ j. record j { status = JobStatus.quality_review };
        found = load_scoped_job-found actor job_id db loaded;
        keeps = λ j. refl;
        table = rw (← ok-injective (rw again at h3));
        moved = inr (rw (is_reopened job.status again) reviews);
      }
      | inr first ↦ record {
        job = job;
        write = λ j. record j {
          status = JobStatus.completed;
          closed_by = some actor.id;
          closed_at = some now;
        };
        found = load_scoped_job-found actor job_id db loaded;
        keeps = λ j. refl;
        table = finalize_snapshot-jobs d job_id job.cycle actor.id _ (rw first at h3);
        moved = inr (rw (is_in_progress job.status closable first) closes);
      }
    ]

pub confirm_locked-Wrote :
    (d : Digests) (actor : Actor) (job_id now : ℕ) (db : Db) {r : Db}
    → confirm_locked d actor job_id now db ≡ ok r
    → Wrote true job_id db.jobs r.jobs
unfolding confirm_locked find_job
confirm_locked-Wrote d actor job_id now db {r} h =
    let (job, loaded, h1) = >>=-eq-ok (load_scoped_job actor job_id db) _ h in
    let (review, h2) =
      require-ok (job_status_eq job.status JobStatus.quality_review) Code.job_not_in_quality_review
        _ h1 in
    let (_, _, h3) = >>=-eq-ok (gate_under_lock d job_id job db) _ h2 in
    record {
      job = job;
      write = λ j. record j {
        status = JobStatus.completed;
        closed_by = some actor.id;
        closed_at = some now;
      };
      found = load_scoped_job-found actor job_id db loaded;
      keeps = λ j. refl;
      table = finalize_snapshot-jobs d job_id job.cycle actor.id _ h3;
      moved = inr (rw (is_in_review job.status review) confirms);
    }

pub reopen_job-Wrote :
    (actor : Actor) (job_id : ℕ) (reason : Text) (now : ℕ) (db : Db) {r : Db}
    → reopen_job actor job_id reason now db ≡ ok r
    → Wrote false job_id db.jobs r.jobs
unfolding reopen_job find_job
reopen_job-Wrote actor job_id reason now db {r} h =
    let (job, loaded, h1) = >>=-eq-ok (load_scoped_job actor job_id db) _ h in
    let (done, h2) =
      require-ok (job_status_eq job.status JobStatus.completed) Code.job_not_completed _ h1 in
    record {
      job = job;
      write = λ j. record j {
        status = JobStatus.reopened;
        cycle = job.cycle + 1;
        reopen_reason = some reason;
        reopened_by = some actor.id;
        reopened_at = some now;
      };
      found = load_scoped_job-found actor job_id db loaded;
      keeps = λ j. refl;
      table = elim (Bool-cases (ltb 0 (count (is_ready_of job_id job.cycle) db.signatures))) [
        | inl some_left ↦ rw (← ok-injective h2, some_left)
        | inr none_left ↦ rw (← ok-injective h2, none_left)
      ];
      moved = inr (rw (is_completed job.status done) reopens);
    }

-- A close is the unlocked checks, then the locked part.
pub close_job-locked :
    (d : Digests) (stat : ℕ → Stat) (actor : Actor) (job_id now : ℕ) (before db : Db) {r : Db}
    → close_job d stat actor job_id now before db ≡ ok r
    → close_locked d actor job_id now db ≡ ok r
unfolding close_job
close_job-locked d stat actor job_id now before db h =
    let (_, _, k) = >>=-eq-ok (close_checks stat actor job_id before) _ h in k

pub confirm_quality-locked :
    (d : Digests) (stat : ℕ → Stat) (actor : Actor) (job_id now : ℕ) (before db : Db) {r : Db}
    → confirm_quality d stat actor job_id now before db ≡ ok r
    → confirm_locked d actor job_id now db ≡ ok r
unfolding confirm_quality
confirm_quality-locked d stat actor job_id now before db h =
    let (_, _, k) = >>=-eq-ok (confirm_checks stat actor job_id before) _ h in k
