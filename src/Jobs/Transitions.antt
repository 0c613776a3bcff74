-- ===== src/Jobs/Transitions.antt =====
-- The operations of src/modules/jobs move jobs along the diagram.
use easygas_guide_server.Common.{
  ℕ, ◌+◌, true, false, Option, none, some, List, [], ◌∷◌, ◌++◌, ◌==◌, ◌≡◌, refl, sym, ◌∙◌, ◌⊎◌, inl,
  inr, arith, find, update, find-update, Bool-cases, any, if◌then◌else◌, Text, ap,
}
use easygas_guide_server.Api.{Code, ok, present-ok, require-ok, >>=-eq-ok, ok-injective}
use easygas_guide_server.Rbac.{Actor, can, jobs_assign}
use easygas_guide_server.Store.{Db, Job, JobStatus, job_status_eq, find_job}
use easygas_guide_server.Jobs.{
  load_scoped_job, lock_job_for_transition, create_job, start_job, cancel_job, update_installation,
  InstallationInput, reassign, unassign, assign_at_creation, has_changes, apply_changes,
  is_assignable, truthy_id, new_job,
}
use easygas_guide_server.Jobs.Diagram.{
  starts, cancels_draft, cancels, Edge, Moves, Moves-refl, Moves-update, load_scoped_job-found,
  lock_job-found, Wrote,
}

from_draft :
    (s : JobStatus) → any (job_status_eq s) (JobStatus.draft ∷ []) ≡ true → s ≡ JobStatus.draft
unfolding any
from_draft s h = ground arith

from_early :
    (s : JobStatus)
    → any (job_status_eq s) (JobStatus.draft ∷ JobStatus.in_progress ∷ []) ≡ true
    → (s ≡ JobStatus.draft) ⊎ (s ≡ JobStatus.in_progress)
unfolding any
from_early s h = ground arith

cancels_early :
    (s : JobStatus)
    → (s ≡ JobStatus.draft) ⊎ (s ≡ JobStatus.in_progress)
    → Edge false s JobStatus.cancelled
cancels_early s (inl e) = rw e cancels_draft
cancels_early s (inr e) = rw e cancels

pub start_job-Wrote :
    (actor : Actor) (id now : ℕ) (db : Db) {r : Db}
    → start_job actor id now db ≡ ok r
    → Wrote false id db.jobs r.jobs
unfolding start_job find_job
start_job-Wrote actor id now db h =
    let (job, locked, e) =
      >>=-eq-ok (lock_job_for_transition actor id (JobStatus.draft ∷ []) db) _ h in
    let (found, allowed) = lock_job-found actor id (JobStatus.draft ∷ []) db locked in
    record {
      job = job;
      write = λ j. record j { status = JobStatus.in_progress; started_at = some now };
      found = found;
      keeps = λ j. refl;
      table = ground arith;
      moved = inr (rw (from_draft job.status allowed) starts);
    }

pub cancel_job-Wrote :
    (actor : Actor) (id : ℕ) (reason : Text) (now : ℕ) (db : Db) {r : Db}
    → cancel_job actor id reason now db ≡ ok r
    → Wrote false id db.jobs r.jobs
unfolding cancel_job find_job
cancel_job-Wrote actor id reason now db h =
    let early = JobStatus.draft ∷ JobStatus.in_progress ∷ [] in
    let (job, locked, e) = >>=-eq-ok (lock_job_for_transition actor id early db) _ h in
    let (found, allowed) = lock_job-found actor id early db locked in
    record {
      job = job;
      write = λ j. record j {
        status = JobStatus.cancelled;
        cancel_reason = some reason;
        cancelled_by = some actor.id;
        cancelled_at = some now;
      };
      found = found;
      keeps = λ j. refl;
      table = ground arith;
      moved = inr (cancels_early job.status (from_early job.status allowed));
    }

pub update_installation-Moves :
    (actor : Actor) (id : ℕ) (input : InstallationInput) (db : Db) {r : Db}
    → update_installation actor id input db ≡ ok r
    → Moves false db.jobs r.jobs
unfolding update_installation find_job
update_installation-Moves actor id input db {r} h =
    let early = JobStatus.draft ∷ JobStatus.in_progress ∷ [] in
    let (job, locked, e) = >>=-eq-ok (lock_job_for_transition actor id early db) _ h in
    let (found, allowed) = lock_job-found actor id early db locked in
    let next = apply_changes input job.installation in
    elim (Bool-cases (has_changes input job.installation)) [
      | inl changed ↦
          let table : r.jobs
              ≡ update (λ x. x.id == id) (λ j. record j { installation = next }) db.jobs =
            ground arith in
          rw table (
            Moves-update db.jobs id job (λ j. record j { installation = next }) found (λ j. refl)
              (inl refl))
      | inr same ↦ let table : r.jobs ≡ db.jobs = ground arith in rw table (Moves-refl db.jobs)
    ]

reassign_jobs :
    (actor : Actor) (id technician : ℕ) (reason : Option Text) (db : Db) {r : Db}
    → reassign actor id technician reason db ≡ ok r
    → r.jobs
      ≡ update
          (λ x. x.id == id)
          (λ j. record j { assigned_technician_id = some technician; assigned = true })
          db.jobs
unfolding reassign
reassign_jobs actor id technician reason db h = ground arith

pub reassign-Wrote :
    (actor : Actor) (id technician : ℕ) (reason : Option Text) (db : Db) {r : Db}
    → reassign actor id technician reason db ≡ ok r
    → Wrote false id db.jobs r.jobs
unfolding reassign find_job
reassign-Wrote actor id technician reason db h =
    let (_, h1) = require-ok (can actor.role jobs_assign) Code.forbidden _ h in
    let (job, loaded, h2) = >>=-eq-ok (load_scoped_job actor id db) _ h1 in
    record {
      job = job;
      write = λ j. record j { assigned_technician_id = some technician; assigned = true };
      found = load_scoped_job-found actor id db loaded;
      keeps = λ j. refl;
      table = reassign_jobs actor id technician reason db h;
      moved = inl refl;
    }

unassign_jobs :
    (actor : Actor) (id : ℕ) (reason : Option Text) (db : Db) {r : Db}
    → unassign actor id reason db ≡ ok r
    → r.jobs
      ≡ update
          (λ x. x.id == id)
          (λ j. record j { assigned_technician_id = none; assigned = false })
          db.jobs
unfolding unassign
unassign_jobs actor id reason db h = ground arith

pub unassign-Wrote :
    (actor : Actor) (id : ℕ) (reason : Option Text) (db : Db) {r : Db}
    → unassign actor id reason db ≡ ok r
    → Wrote false id db.jobs r.jobs
unfolding unassign find_job
unassign-Wrote actor id reason db h =
    let (_, h1) = require-ok (can actor.role jobs_assign) Code.forbidden _ h in
    let (job, loaded, h2) = >>=-eq-ok (load_scoped_job actor id db) _ h1 in
    record {
      job = job;
      write = λ j. record j { assigned_technician_id = none; assigned = false };
      found = load_scoped_job-found actor id db loaded;
      keeps = λ j. refl;
      table = unassign_jobs actor id reason db h;
      moved = inl refl;
    }

append_found :
    (id : ℕ) (js ks : List Job) (j : Job)
    → find (λ x. x.id == id) js ≡ some j
    → find (λ x. x.id == id) (js ++ ks) ≡ some j
unfolding find
append_found id [] ks j h = ground arith
append_found id (x ∷ js) ks j h = ground (arith, append_found id js ks j)

Moves-append : (js ks : List Job) → Moves false js (js ++ ks)
Moves-append js ks id j h = (j, append_found id js ks j h, inl refl)

Moves-trans_kept :
    (js ks : List Job) (id : ℕ) (f : Job → Job)
    → ((j : Job) → (f j).id ≡ j.id)
    → ((j : Job) → (f j).status ≡ j.status)
    → Moves false js ks
    → Moves false js (update (λ x. x.id == id) f ks)
Moves-trans_kept js ks id f keeps same m i j h =
    let (k, seen, moved) = m i j h in
    let found =
      find-update (λ x. x.id == i) (λ x. x.id == id) f ks (λ x. rw (keeps x))
      ∙ ap (mathlib.Core.Option.map (λ x. if x.id == id then f x else x)) seen in
    elim (Bool-cases (k.id == id)) [
      | inl hit ↦ (f k, found ∙ rw hit, rw (same k) moved)
      | inr other ↦ (k, found ∙ rw other, moved)
    ]

assign_at_creation-Moves :
    (js : List Job) (id : ℕ) (creator : Actor) (cycle : ℕ) (db : Db)
    → Moves false js db.jobs
    → Moves false js (assign_at_creation id creator cycle db).jobs
unfolding assign_at_creation
assign_at_creation-Moves js id creator cycle db m = elim (Bool-cases (is_assignable creator.role)) [
  | inl self ↦ rw self (
      Moves-trans_kept js db.jobs id
        (λ j. record j { assigned_technician_id = some creator.id; assigned = true }) (λ j. refl)
        (λ j. refl) m)
  | inr other ↦ rw other m
]

pub create_job-Moves :
    (actor : Actor) (customer vehicle : ℕ) (db : Db) {r : ℕ × Db}
    → create_job actor customer vehicle db ≡ ok r
    → Moves false db.jobs r.1.jobs
unfolding create_job
create_job-Moves actor customer vehicle db {r} h =
    let (branch, _, h1) = present-ok (truthy_id actor.branch_id) Code.no_branch _ h in
    let (_, _, h2) = present-ok (find _ db.customers) Code.invalid_customer _ h1 in
    let (v, _, h3) = present-ok (find _ db.vehicles) Code.invalid_vehicle _ h2 in
    let (_, h4) = require-ok (v.customer_id == customer) Code.vehicle_customer_mismatch _ h3 in
    let made = record db {
      jobs = db.jobs ++ new_job db.next_id branch customer vehicle actor.id ∷ [];
      next_id = db.next_id + 1;
    } in
    let table : r.1.jobs ≡ (assign_at_creation db.next_id actor 1 made).jobs =
      ap (λ x. x.1.jobs) (sym (ok-injective h4)) in
    rw table (assign_at_creation-Moves db.jobs db.next_id actor 1 made (Moves-append db.jobs _))
