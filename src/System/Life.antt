-- ===== src/System/Life.antt =====
-- Every request moves jobs along the diagram, and what follows for sequences of requests.
use easygas_guide_server.Common.{
  ℕ, Bool, true, false, some, List, [], ◌∷◌, ◌==◌, ◌≡◌, refl, sym, ◌∙◌, inl, inr, arith, find,
  update, ◌≢◌, Bool-cases, some-eq, subst, ap, ==-eq,
}
use easygas_guide_server.Api.{Result, ok, err}
use easygas_guide_server.Rbac.{Actor}
use easygas_guide_server.Store.{Db, Job, JobStatus}
use easygas_guide_server.Jobs.{create_job}
use easygas_guide_server.Jobs.Transitions.{
  start_job-Wrote, cancel_job-Wrote, update_installation-Moves, reassign-Wrote, unassign-Wrote,
  create_job-Moves,
}
use easygas_guide_server.Jobs.Diagram.{
  starts, cancels_draft, cancels, submits, resubmits, approves, approves_reopened, rejects, reworks,
  reworks_reopened, closes, reviews, confirms, reopens, Edge, Moved, Moves, Wrote, Wrote-Moves,
}
use easygas_guide_server.Checklist.Moves.{
  assign_checklist-Moves, complete_step-Moves, redo_step-Moves, approve_stop-Wrote,
  reject_stop-Wrote, rework_stop-Wrote,
}
use easygas_guide_server.Completion.Summary.{Digests}
use easygas_guide_server.Completion.Closing.{Gated, close_job-Gated, confirm_quality-Gated}
use easygas_guide_server.Completion.Moves.{
  close_locked-Wrote, confirm_locked-Wrote, reopen_job-Wrote, close_job-locked,
  confirm_quality-locked,
}
use easygas_guide_server.System.{
  Request, create, start, cancel, install, reassign_to, unassign_from, assign_template, complete,
  redo, approve, reject, rework, close, reopen, confirm, second, serve,
}

pub second-ok :
    {A : Type 0} (r : Result (ℕ × A)) (a : A) → second r ≡ ok a → (n : ℕ) × (r ≡ ok (n, a))
second-ok (ok (n, b)) a h = (n, ground arith)
second-ok (err e) a h = ground arith

-- The requests that go through the completion gate.
abbrev passes_gate : Request → Bool
passes_gate (close job stat before) = true
passes_gate (confirm job stat before) = true
passes_gate _ = false

-- Whatever the request, a job of the store is still there after it succeeds, with its status kept
-- or moved along one edge of the diagram.
pub serve-Moves :
    (d : Digests) (actor : Actor) (now : ℕ) (q : Request) (db r : Db)
    → serve d actor now q db ≡ ok r
    → Moves (passes_gate q) db.jobs r.jobs
unfolding serve
serve-Moves d actor now (create customer vehicle) db r h =
    create_job-Moves actor customer vehicle db
      (second-ok (create_job actor customer vehicle db) r h).1
serve-Moves d actor now (start job) db r h = Wrote-Moves (start_job-Wrote actor job now db h)
serve-Moves d actor now (cancel job reason) db r h =
    Wrote-Moves (cancel_job-Wrote actor job reason now db h)
serve-Moves d actor now (install job input) db r h = update_installation-Moves actor job input db h
serve-Moves d actor now (reassign_to job technician reason) db r h =
    Wrote-Moves (reassign-Wrote actor job technician reason db h)
serve-Moves d actor now (unassign_from job reason) db r h =
    Wrote-Moves (unassign-Wrote actor job reason db h)
serve-Moves d actor now (assign_template job template before) db r h =
    assign_checklist-Moves actor job template before db h
serve-Moves d actor now (complete job step remark ms before) db r h =
    complete_step-Moves actor job step remark ms now before db h
serve-Moves d actor now (redo job step before) db r h = redo_step-Moves actor job step before db h
serve-Moves d actor now (approve job) db r h = Wrote-Moves (approve_stop-Wrote actor job now db h)
serve-Moves d actor now (reject job reason) db r h =
    Wrote-Moves (reject_stop-Wrote actor job reason now db h)
serve-Moves d actor now (rework job) db r h = Wrote-Moves (rework_stop-Wrote actor job db h)
serve-Moves d actor now (close job stat before) db r h =
    Wrote-Moves
      (close_locked-Wrote d actor job now db (close_job-locked d stat actor job now before db h))
serve-Moves d actor now (reopen job reason) db r h =
    Wrote-Moves (reopen_job-Wrote actor job reason now db h)
serve-Moves d actor now (confirm job stat before) db r h = Wrote-Moves (
    confirm_locked-Wrote d actor job now db
      (confirm_quality-locked d stat actor job now before db h))

-- A store reached by successful requests, of any actors at any times.
pub data Run (d : Digests) (db : Db) : Db → Type 0 where
  here : Run d db db
  then :
      {s : Db} (r : Db) (actor : Actor) (now : ℕ) (q : Request)
      → Run d db s
      → serve d actor now q s ≡ ok r
      → Run d db r

no_exit : {gate : Bool} {s t : JobStatus} → Edge gate s t → s ≢ JobStatus.cancelled
no_exit starts = λ h. ground arith
no_exit cancels_draft = λ h. ground arith
no_exit cancels = λ h. ground arith
no_exit submits = λ h. ground arith
no_exit resubmits = λ h. ground arith
no_exit approves = λ h. ground arith
no_exit approves_reopened = λ h. ground arith
no_exit rejects = λ h. ground arith
no_exit reworks = λ h. ground arith
no_exit reworks_reopened = λ h. ground arith
no_exit closes = λ h. ground arith
no_exit reviews = λ h. ground arith
no_exit confirms = λ h. ground arith
no_exit reopens = λ h. ground arith

stays_cancelled :
    {gate : Bool} (j k : Job)
    → Moved gate j k
    → j.status ≡ JobStatus.cancelled
    → k.status ≡ JobStatus.cancelled
stays_cancelled j k (inl same) h = same ∙ h
stays_cancelled j k (inr e) h = absurd (no_exit e h)

-- A cancelled job stays cancelled after any sequence of successful requests.
pub cancelled_forever :
    (d : Digests) (db r : Db) (id : ℕ) (j : Job)
    → find (λ x. x.id == id) db.jobs ≡ some j
    → j.status ≡ JobStatus.cancelled
    → Run d db r
    → (k : Job) × (find (λ x. x.id == id) r.jobs ≡ some k) × (k.status ≡ JobStatus.cancelled)
cancelled_forever d db _ id j found h here = (j, found, h)
cancelled_forever d db _ id j found h (then {s} r actor now q run step) =
    let (k, seen, still) = cancelled_forever d db s id j found h run in
    let (l, seen', moved) = serve-Moves d actor now q s r step id k seen in
    (l, seen', stays_cancelled k l moved still)

into_completed :
    {gate : Bool} {s t : JobStatus} → Edge gate s t → t ≡ JobStatus.completed → gate ≡ true
into_completed starts h = absurd (ground arith)
into_completed cancels_draft h = absurd (ground arith)
into_completed cancels h = absurd (ground arith)
into_completed submits h = absurd (ground arith)
into_completed resubmits h = absurd (ground arith)
into_completed approves h = absurd (ground arith)
into_completed approves_reopened h = absurd (ground arith)
into_completed rejects h = absurd (ground arith)
into_completed reworks h = absurd (ground arith)
into_completed reworks_reopened h = absurd (ground arith)
into_completed closes h = refl
into_completed reviews h = refl
into_completed confirms h = refl
into_completed reopens h = absurd (ground arith)

-- A job that a request completes was moved along a marked edge.
completion_gated :
    (gate : Bool) (js ks : List Job) (id : ℕ) (j k : Job)
    → Moves gate js ks
    → find (λ x. x.id == id) js ≡ some j
    → j.status ≢ JobStatus.completed
    → find (λ x. x.id == id) ks ≡ some k
    → k.status ≡ JobStatus.completed
    → gate ≡ true
completion_gated gate js ks id j k moves found unfinished seen done =
    let (l, seen', moved) = moves id j found in
    let same : l ≡ k = some-eq _ l k seen' seen in
    elim (subst (Moved gate j) same moved) [
      | inl kept ↦ absurd (unfinished (sym kept ∙ done))
      | inr e ↦ into_completed e done
    ]

find_other :
    (i id : ℕ) (f : Job → Job) (js : List Job)
    → ((j : Job) → (f j).id ≡ j.id)
    → (id == i) ≡ false
    → find (λ x. x.id == i) (update (λ x. x.id == id) f js) ≡ find (λ x. x.id == i) js
unfolding find update
find_other i id f [] keeps other = refl
find_other i id f (j ∷ js) keeps other = ground (arith, keeps j, find_other i id f js keeps other)

-- The one row that was written is the one that changed.
Wrote-changed :
    {gate : Bool} (id i : ℕ) (js ks : List Job) (j k : Job)
    → Wrote gate id js ks
    → find (λ x. x.id == i) js ≡ some j
    → j.status ≢ JobStatus.completed
    → find (λ x. x.id == i) ks ≡ some k
    → k.status ≡ JobStatus.completed
    → id ≡ i
Wrote-changed id i js ks j k w found unfinished seen done = elim (Bool-cases (id == i)) [
  | inl hit ↦ ==-eq id i hit
  | inr other ↦
      let before = ap (find (λ x. x.id == i)) w.table ∙ find_other i id w.write js w.keeps other in
      absurd (
        unfinished
          (subst (λ x. x.status ≡ JobStatus.completed) (some-eq _ k j seen (before ∙ found)) done))
]

-- The request closes or confirms the job, and the gate held.
abbrev pub GateHeld : Digests → ℕ → Db → Request → Type 0
GateHeld d id db (close job stat before) = (job ≡ id) × Gated d stat job before db
GateHeld d id db (confirm job stat before) = (job ≡ id) × Gated d stat job before db
GateHeld d id db _ = ⊥

-- A job becomes COMPLETED only by a request that closes or confirms that very job, and then the
-- whole gate held: whatever the request, the actor and the store.
pub completed_only_gated :
    (d : Digests) (actor : Actor) (now : ℕ) (q : Request) (db r : Db) (id : ℕ) (j k : Job)
    → serve d actor now q db ≡ ok r
    → find (λ x. x.id == id) db.jobs ≡ some j
    → j.status ≢ JobStatus.completed
    → find (λ x. x.id == id) r.jobs ≡ some k
    → k.status ≡ JobStatus.completed
    → GateHeld d id db q
unfolding serve
completed_only_gated d actor now q db r id j k h found unfinished seen done = held q h (
    completion_gated (passes_gate q) db.jobs r.jobs id j k (serve-Moves d actor now q db r h) found
      unfinished seen done)
  where
    held : (q : Request) → serve d actor now q db ≡ ok r → passes_gate q ≡ true → GateHeld d id db q
    held (close job stat before) h gate = (
      Wrote-changed job id db.jobs r.jobs j k
          (close_locked-Wrote d actor job now db
            (close_job-locked d stat actor job now before db h))
          found unfinished seen done,
      close_job-Gated d stat actor job now before db r h,
    )
    held (confirm job stat before) h gate = (
      Wrote-changed job id db.jobs r.jobs j k
          (confirm_locked-Wrote d actor job now db
            (confirm_quality-locked d stat actor job now before db h))
          found unfinished seen done,
      confirm_quality-Gated d stat actor job now before db r h,
    )
    held _ h gate = absurd (ground arith)
