-- ===== src/Jobs/Diagram.antt =====
-- The life of a job as a diagram, and tables of jobs that move along it.
use easygas_guide_server.Common.{
  ℕ, Bool, true, false, some, List, ◌==◌, ◌≡◌, refl, sym, ◌∙◌, ◌⊎◌, inl, inr, arith, find, update,
  find-update, find-true, Bool-cases, some-eq, ==-eq, any, if◌then◌else◌,
}
use easygas_guide_server.Api.{ok}
use easygas_guide_server.Rbac.{Actor}
use easygas_guide_server.Store.{Db, Job, JobStatus, job_status_eq, find_job}
use easygas_guide_server.Jobs.{load_scoped_job, lock_job_for_transition}

-- The edges of the diagram, each named for the operation that takes it. Those that only the
-- completion gate opens are marked.
pub data Edge : Bool → JobStatus → JobStatus → Type 0 where
  starts : Edge false JobStatus.draft JobStatus.in_progress
  cancels_draft : Edge false JobStatus.draft JobStatus.cancelled
  cancels : Edge false JobStatus.in_progress JobStatus.cancelled
  submits : Edge false JobStatus.in_progress JobStatus.waiting_stop_approval
  resubmits : Edge false JobStatus.reopened JobStatus.waiting_stop_approval
  approves : Edge false JobStatus.waiting_stop_approval JobStatus.in_progress
  approves_reopened : Edge false JobStatus.waiting_stop_approval JobStatus.reopened
  rejects : Edge false JobStatus.waiting_stop_approval JobStatus.rejected
  reworks : Edge false JobStatus.rejected JobStatus.in_progress
  reworks_reopened : Edge false JobStatus.rejected JobStatus.reopened
  closes : Edge true JobStatus.in_progress JobStatus.completed
  reviews : Edge true JobStatus.reopened JobStatus.quality_review
  confirms : Edge true JobStatus.quality_review JobStatus.completed
  reopens : Edge false JobStatus.completed JobStatus.reopened

-- A job keeps its status, or follows one edge.
abbrev pub Moved : Bool → Job → Job → Type 0
Moved gate j k = (k.status ≡ j.status) ⊎ Edge gate j.status k.status

-- Every job of the table is still there, and kept its status or followed one edge.
abbrev pub Moves : Bool → List Job → List Job → Type 0
Moves gate js ks =
    (id : ℕ) (j : Job)
    → find (λ x. x.id == id) js ≡ some j
    → (k : Job) × (find (λ x. x.id == id) ks ≡ some k) × Moved gate j k

pub Moves-refl : {gate : Bool} (js : List Job) → Moves gate js js
Moves-refl js id j h = (j, h, inl refl)

-- Writing the found row along an edge moves the table.
pub Moves-update :
    {gate : Bool} (js : List Job) (id : ℕ) (job : Job) (f : Job → Job)
    → find (λ x. x.id == id) js ≡ some job
    → ((j : Job) → (f j).id ≡ j.id)
    → Moved gate job (f job)
    → Moves gate js (update (λ x. x.id == id) f js)
Moves-update js id job f found keeps moved i j h = elim (Bool-cases (j.id == id)) [
  | inl hit ↦
      let ji : j.id ≡ i = ==-eq j.id i (find-true (λ x. x.id == i) js j h) in
      let ii : id ≡ i = sym (==-eq j.id id hit) ∙ ji in
      let e : job ≡ j = some-eq _ job j found (rw ii h) in
      (f j, seen ∙ rw (h, hit) refl, rw e at moved)
  | inr other ↦ (j, seen ∙ rw (h, other) refl, inl refl)
]
  where
    seen :
        find (λ x. x.id == i) (update (λ x. x.id == id) f js)
        ≡ mathlib.Core.Option.map (λ x. if x.id == id then f x else x) (find (λ x. x.id == i) js)
    seen = find-update (λ x. x.id == i) (λ x. x.id == id) f js (λ x. rw (keeps x))

pub load_scoped_job-found :
    (actor : Actor) (id : ℕ) (db : Db) {j : Job}
    → load_scoped_job actor id db ≡ ok j
    → find_job id db ≡ some j
unfolding load_scoped_job
load_scoped_job-found actor id db h = ground arith

pub lock_job-found :
    (actor : Actor) (id : ℕ) (from : List JobStatus) (db : Db) {j : Job}
    → lock_job_for_transition actor id from db ≡ ok j
    → (find_job id db ≡ some j) × (any (job_status_eq j.status) from ≡ true)
unfolding lock_job_for_transition
lock_job-found actor id from db h = ground arith

-- One row of the table of jobs was written, along an edge or with its status kept.
pub record Wrote (gate : Bool) (id : ℕ) (js ks : List Job) : Type 0 where
  pub job : Job
  pub write : Job → Job
  pub found : find (λ x. x.id == id) js ≡ some job
  pub keeps : (j : Job) → (write j).id ≡ j.id
  pub table : ks ≡ update (λ x. x.id == id) write js
  pub moved : Moved gate job (write job)

pub Wrote-Moves : {gate : Bool} {id : ℕ} {js ks : List Job} → Wrote gate id js ks → Moves gate js ks
Wrote-Moves {id} {js} w = rw w.table (Moves-update js id w.job w.write w.found w.keeps w.moved)
