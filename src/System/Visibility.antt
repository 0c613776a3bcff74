-- ===== src/System/Visibility.antt =====
-- No request succeeds on a job outside the actor's branches.
use easygas_guide_server.Common.{ℕ, Option, List, [], ◌∷◌, ◌≡◌, Text}
use easygas_guide_server.Api.{Code, ok, require-ok, >>=-eq-ok}
use easygas_guide_server.Rbac.{Actor, can, jobs_assign}
use easygas_guide_server.Store.{Db, JobStatus}
use easygas_guide_server.Jobs.{
  load_scoped_job, lock_job_for_transition, start_job, cancel_job, update_installation,
  InstallationInput, reassign, unassign,
}
use easygas_guide_server.Jobs.Scope.{Visible, load_scoped_job-Visible, lock_job-Visible}
use easygas_guide_server.Checklist.{Submitted, assign_checklist, complete_step, redo_step}
use easygas_guide_server.Checklist.Stop.{
  PendingStop, lock_pending_stop, approve_stop, reject_stop, rework_stop,
}
use easygas_guide_server.Completion.Summary.{Digests}
use easygas_guide_server.Completion.Close.{close_locked, confirm_locked, reopen_job}
use easygas_guide_server.Completion.Moves.{close_job-locked, confirm_quality-locked}
use easygas_guide_server.System.{
  Request, create, start, cancel, install, reassign_to, unassign_from, assign_template, complete,
  redo, approve, reject, rework, close, reopen, confirm, serve,
}

-- The job that a request names, and the store in which its visibility is checked.
abbrev pub Checked : Actor → Request → Db → Type 0
Checked actor (create customer vehicle) db = Unit
Checked actor (start job) db = Visible actor job db
Checked actor (cancel job reason) db = Visible actor job db
Checked actor (install job input) db = Visible actor job db
Checked actor (reassign_to job technician reason) db = Visible actor job db
Checked actor (unassign_from job reason) db = Visible actor job db
Checked actor (assign_template job template before) db = Visible actor job before
Checked actor (complete job step remark ms before) db = Visible actor job before
Checked actor (redo job step before) db = Visible actor job before
Checked actor (approve job) db = Visible actor job db
Checked actor (reject job reason) db = Visible actor job db
Checked actor (rework job) db = Visible actor job db
Checked actor (close job stat before) db = Visible actor job db
Checked actor (reopen job reason) db = Visible actor job db
Checked actor (confirm job stat before) db = Visible actor job db

start_job-Visible :
    (actor : Actor) (id now : ℕ) (db : Db) {r : Db}
    → start_job actor id now db ≡ ok r
    → Visible actor id db
unfolding start_job
start_job-Visible actor id now db h =
    let (_, k, _) = >>=-eq-ok (lock_job_for_transition actor id (JobStatus.draft ∷ []) db) _ h in
    lock_job-Visible actor id (JobStatus.draft ∷ []) db k

cancel_job-Visible :
    (actor : Actor) (id : ℕ) (reason : Text) (now : ℕ) (db : Db) {r : Db}
    → cancel_job actor id reason now db ≡ ok r
    → Visible actor id db
unfolding cancel_job
cancel_job-Visible actor id reason now db h =
    let early = JobStatus.draft ∷ JobStatus.in_progress ∷ [] in
    let (_, k, _) = >>=-eq-ok (lock_job_for_transition actor id early db) _ h in
    lock_job-Visible actor id early db k

update_installation-Visible :
    (actor : Actor) (id : ℕ) (input : InstallationInput) (db : Db) {r : Db}
    → update_installation actor id input db ≡ ok r
    → Visible actor id db
unfolding update_installation
update_installation-Visible actor id input db h =
    let early = JobStatus.draft ∷ JobStatus.in_progress ∷ [] in
    let (_, k, _) = >>=-eq-ok (lock_job_for_transition actor id early db) _ h in
    lock_job-Visible actor id early db k

reassign-Visible :
    (actor : Actor) (id technician : ℕ) (reason : Option Text) (db : Db) {r : Db}
    → reassign actor id technician reason db ≡ ok r
    → Visible actor id db
unfolding reassign
reassign-Visible actor id technician reason db h =
    let (_, h1) = require-ok (can actor.role jobs_assign) Code.forbidden _ h in
    let (_, k, _) = >>=-eq-ok (load_scoped_job actor id db) _ h1 in
    load_scoped_job-Visible actor id db k

unassign-Visible :
    (actor : Actor) (id : ℕ) (reason : Option Text) (db : Db) {r : Db}
    → unassign actor id reason db ≡ ok r
    → Visible actor id db
unfolding unassign
unassign-Visible actor id reason db h =
    let (_, h1) = require-ok (can actor.role jobs_assign) Code.forbidden _ h in
    let (_, k, _) = >>=-eq-ok (load_scoped_job actor id db) _ h1 in
    load_scoped_job-Visible actor id db k

-- The handlers that load the job first.
assign_checklist-Visible :
    (actor : Actor) (id template : ℕ) (before db : Db) {r : Db}
    → assign_checklist actor id template before db ≡ ok r
    → Visible actor id before
unfolding assign_checklist
assign_checklist-Visible actor id template before db h =
    let (_, k, _) = >>=-eq-ok (load_scoped_job actor id before) _ h in
    load_scoped_job-Visible actor id before k

complete_step-Visible :
    (actor : Actor) (id step : ℕ) (remark : Option Text) (ms : List Submitted) (now : ℕ)
    (before db : Db) {r : Db}
    → complete_step actor id step remark ms now before db ≡ ok r
    → Visible actor id before
unfolding complete_step
complete_step-Visible actor id step remark ms now before db h =
    let (_, k, _) = >>=-eq-ok (load_scoped_job actor id before) _ h in
    load_scoped_job-Visible actor id before k

redo_step-Visible :
    (actor : Actor) (id step : ℕ) (before db : Db) {r : Db}
    → redo_step actor id step before db ≡ ok r
    → Visible actor id before
unfolding redo_step
redo_step-Visible actor id step before db h =
    let (_, k, _) = >>=-eq-ok (load_scoped_job actor id before) _ h in
    load_scoped_job-Visible actor id before k

lock_pending_stop-Visible :
    (actor : Actor) (id : ℕ) (db : Db) {p : PendingStop}
    → lock_pending_stop actor id db ≡ ok p
    → Visible actor id db
unfolding lock_pending_stop
lock_pending_stop-Visible actor id db h =
    let (_, k, _) = >>=-eq-ok (load_scoped_job actor id db) _ h in
    load_scoped_job-Visible actor id db k

approve_stop-Visible :
    (actor : Actor) (id now : ℕ) (db : Db) {r : Db}
    → approve_stop actor id now db ≡ ok r
    → Visible actor id db
unfolding approve_stop
approve_stop-Visible actor id now db h =
    let (_, k, _) = >>=-eq-ok (lock_pending_stop actor id db) _ h in
    lock_pending_stop-Visible actor id db k

reject_stop-Visible :
    (actor : Actor) (id : ℕ) (reason : Text) (now : ℕ) (db : Db) {r : Db}
    → reject_stop actor id reason now db ≡ ok r
    → Visible actor id db
unfolding reject_stop
reject_stop-Visible actor id reason now db h =
    let (_, k, _) = >>=-eq-ok (lock_pending_stop actor id db) _ h in
    lock_pending_stop-Visible actor id db k

rework_stop-Visible :
    (actor : Actor) (id : ℕ) (db : Db) {r : Db}
    → rework_stop actor id db ≡ ok r
    → Visible actor id db
unfolding rework_stop
rework_stop-Visible actor id db h =
    let (_, k, _) = >>=-eq-ok (load_scoped_job actor id db) _ h in
    load_scoped_job-Visible actor id db k

close_locked-Visible :
    (d : Digests) (actor : Actor) (id now : ℕ) (db : Db) {r : Db}
    → close_locked d actor id now db ≡ ok r
    → Visible actor id db
unfolding close_locked
close_locked-Visible d actor id now db h =
    let (_, k, _) = >>=-eq-ok (load_scoped_job actor id db) _ h in
    load_scoped_job-Visible actor id db k

confirm_locked-Visible :
    (d : Digests) (actor : Actor) (id now : ℕ) (db : Db) {r : Db}
    → confirm_locked d actor id now db ≡ ok r
    → Visible actor id db
unfolding confirm_locked
confirm_locked-Visible d actor id now db h =
    let (_, k, _) = >>=-eq-ok (load_scoped_job actor id db) _ h in
    load_scoped_job-Visible actor id db k

reopen_job-Visible :
    (actor : Actor) (id : ℕ) (reason : Text) (now : ℕ) (db : Db) {r : Db}
    → reopen_job actor id reason now db ≡ ok r
    → Visible actor id db
unfolding reopen_job
reopen_job-Visible actor id reason now db h =
    let (_, k, _) = >>=-eq-ok (load_scoped_job actor id db) _ h in
    load_scoped_job-Visible actor id db k

-- Whatever the request on a job, it succeeds only where the job exists and its branch is in the
-- actor's scope: in the store of the unlocked check for the checklist's requests, in the locked
-- store for all others.
pub serve_only_visible :
    (d : Digests) (actor : Actor) (now : ℕ) (q : Request) (db r : Db)
    → serve d actor now q db ≡ ok r
    → Checked actor q db
unfolding serve
serve_only_visible d actor now (create customer vehicle) db r h = tt
serve_only_visible d actor now (start job) db r h = start_job-Visible actor job now db h
serve_only_visible d actor now (cancel job reason) db r h =
    cancel_job-Visible actor job reason now db h
serve_only_visible d actor now (install job input) db r h =
    update_installation-Visible actor job input db h
serve_only_visible d actor now (reassign_to job technician reason) db r h =
    reassign-Visible actor job technician reason db h
serve_only_visible d actor now (unassign_from job reason) db r h =
    unassign-Visible actor job reason db h
serve_only_visible d actor now (assign_template job template before) db r h =
    assign_checklist-Visible actor job template before db h
serve_only_visible d actor now (complete job step remark ms before) db r h =
    complete_step-Visible actor job step remark ms now before db h
serve_only_visible d actor now (redo job step before) db r h =
    redo_step-Visible actor job step before db h
serve_only_visible d actor now (approve job) db r h = approve_stop-Visible actor job now db h
serve_only_visible d actor now (reject job reason) db r h =
    reject_stop-Visible actor job reason now db h
serve_only_visible d actor now (rework job) db r h = rework_stop-Visible actor job db h
serve_only_visible d actor now (close job stat before) db r h =
    close_locked-Visible d actor job now db (close_job-locked d stat actor job now before db h)
serve_only_visible d actor now (reopen job reason) db r h =
    reopen_job-Visible actor job reason now db h
serve_only_visible d actor now (confirm job stat before) db r h =
    confirm_locked-Visible d actor job now db
      (confirm_quality-locked d stat actor job now before db h)
