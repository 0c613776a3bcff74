-- ===== src/Completion/Recorded.antt =====
-- What a completed step leaves for the gate: its measurements, its photos and its place in the
-- sequence.
use easygas_guide_server.Common.{
  ℕ, ◌≤◌, ◌<◌, Bool, true, false, not, Option, some, List, [], ◌∷◌, ◌++◌, ◌≡◌, ◌∙◌, arith, any, All,
  ap, Text, if◌then◌else◌,
}
use easygas_guide_server.Api.{ok}
use easygas_guide_server.Rbac.{Actor}
use easygas_guide_server.Store.{Db, JobStep, is_done, TemplateStep}
use easygas_guide_server.Checklist.{
  Submitted, check_all, store_rows, complete_step, Cleared, submit_stop, finish_step,
  complete_checklist_if_done, blocks_before, template_of, ready_photo_count, find_step,
}
use easygas_guide_server.Checklist.Sequence.{clear_step-Passed, complete_step-cleared, defs_of}
use easygas_guide_server.Completion.Values.{Stored, check_all-Stored}

-- Every step of the checklist that stands before the order is done.
abbrev pub DoneBefore : Db → ℕ → ℕ → JobStep → Type 0
DoneBefore db checklist order s =
    (s.job_checklist_id ≡ checklist)
    → (t : TemplateStep) → (template_of s db ≡ some t)
    → (t.sort_order < order)
    → is_done s.status ≡ true

any-none :
    {A : Type 0} (p : A → Bool) (xs : List A) → not (any p xs) ≡ true → All (λ x. p x ≡ false) xs
unfolding any
any-none p [] h = tt
any-none p (x ∷ xs) h = (ground arith, any-none p xs (ground arith))

unblocked-DoneBefore :
    (db : Db) (checklist order : ℕ) (ss : List JobStep)
    → All (λ s. blocks_before db checklist order s ≡ false) ss
    → All (DoneBefore db checklist order) ss
unfolding blocks_before
unblocked-DoneBefore db checklist order [] h = tt
unblocked-DoneBefore db checklist order (s ∷ ss) h =
    (λ same t seen early. ground (arith, h.0), unblocked-DoneBefore db checklist order ss h.1)

kept_measurements :
    (actor : Actor) (job_id : ℕ) (c : Cleared) (remark : Option Text) (now : ℕ) (db : Db)
    → (if c.template.is_stop
        then submit_stop actor job_id c.step now remark
            (record db { measurements = db.measurements ++ c.rows })
        else finish_step actor c.step now remark
            (record db { measurements = db.measurements ++ c.rows })).measurements
      ≡ db.measurements ++ c.rows
unfolding submit_stop finish_step complete_checklist_if_done
kept_measurements actor job_id c remark now db = ground arith

-- What a completed step leaves behind.
pub record Left (job_id step_id : ℕ) (ms : List Submitted) (db r : Db) : Type 0 where
  pub step : JobStep
  pub template : TemplateStep
  pub checklist : ℕ
  pub joined : template_of step db ≡ some template
  pub found : find_step step_id checklist db ≡ some step
  pub photographed : template.required_photos ≤ ready_photo_count step.id step.attempt db
  pub in_order : All (DoneBefore db checklist template.sort_order) db.steps
  pub recorded :
      All
        (λ d. d.required ≡ true → Stored ms step.id step.attempt r.measurements d)
        (defs_of step db)

-- A step that is completed has enough READY photos at its attempt, every earlier step of its
-- checklist is done, and for each of its required measurements a value in the defined range was
-- submitted and is stored for the attempt, rounded as the DECIMAL(12, 3) column rounds it.
pub complete_step_leaves :
    (actor : Actor) (job_id step_id : ℕ) (remark : Option Text) (ms : List Submitted) (now : ℕ)
    (before db r : Db)
    → complete_step actor job_id step_id remark ms now before db ≡ ok r
    → Left job_id step_id ms db r
complete_step_leaves actor job_id step_id remark ms now before db r h =
    let (c, cleared, e) = complete_step-cleared actor job_id step_id remark ms now before db h in
    let p = clear_step-Passed actor job_id step_id ms db cleared in
    let rows = (check_all c.step.id c.step.attempt ms (defs_of c.step db)).rows in
    let table : r.measurements ≡ db.measurements ++ store_rows rows =
      ap (λ x. x.measurements) e
      ∙ kept_measurements actor job_id c remark now db
      ∙ ap (λ xs. db.measurements ++ xs) p.rows in
    record {
      step = c.step;
      template = c.template;
      checklist = p.checklist.id;
      joined = p.template_found;
      found = p.step_found;
      photographed = ground (arith, p.photos);
      in_order =
          unblocked-DoneBefore db p.checklist.id c.template.sort_order db.steps
            (any-none (blocks_before db p.checklist.id c.template.sort_order) db.steps p.in_order);
      recorded = rw table (
          check_all-Stored ms c.step.id c.step.attempt db.measurements (defs_of c.step db) p.valid);
    }
