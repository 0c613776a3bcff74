-- ===== src/Jobs/Scope.antt =====
-- What the branch scope of an actor means for the operations on jobs.
use easygas_guide_server.Common.{ℕ, true, some, List, ◌≡◌}
use easygas_guide_server.Api.{Code, ok, present-ok, require-ok, >>=-eq-ok}
use easygas_guide_server.Rbac.{Actor, in_scope, jobs_branch_scope}
use easygas_guide_server.Store.{Db, Job, JobStatus, find_job}
use easygas_guide_server.Jobs.{load_scoped_job, lock_job_for_transition}

-- The job exists and its branch is in the actor's scope.
abbrev pub Visible : Actor → ℕ → Db → Type 0
Visible actor id db =
    (j : Job) × (find_job id db ≡ some j) × (in_scope (jobs_branch_scope actor) j.branch_id ≡ true)

pub load_scoped_job-Visible :
    (actor : Actor) (id : ℕ) (db : Db) {j : Job}
    → load_scoped_job actor id db ≡ ok j
    → Visible actor id db
unfolding load_scoped_job
load_scoped_job-Visible actor id db h =
    let (j, found, h1) = present-ok (find_job id db) Code.not_found _ h in
    let (scoped, _) =
      require-ok (in_scope (jobs_branch_scope actor) j.branch_id) Code.not_found _ h1 in
    (j, found, scoped)

pub lock_job-Visible :
    (actor : Actor) (id : ℕ) (from : List JobStatus) (db : Db) {j : Job}
    → lock_job_for_transition actor id from db ≡ ok j
    → Visible actor id db
unfolding lock_job_for_transition
lock_job-Visible actor id from db h =
    let (_, loaded, _) = >>=-eq-ok (load_scoped_job actor id db) _ h in
    load_scoped_job-Visible actor id db loaded
