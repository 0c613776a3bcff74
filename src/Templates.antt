-- ===== src/Templates.antt =====
-- src/modules/checklist/templates.service.ts: checklist templates, their versions and the steps of a
-- draft. One counter stands for the tables' automatic ids. `lower` is the database's LOWER. Every
-- change appends one record to the audit log, and publishing archives the previous version with
-- another. The listings are left out.
pub mod Versions
pub mod Runs
pub mod Frozen
use easygas_guide_server.Common.{
  ℕ, zero, suc, ◌+◌, ◌-◌, max, Bool, true, false, not, ◌&&◌, Option, none, some, List, [], ◌∷◌,
  ◌++◌, ◌==◌, leb, find, filter, update, count, any, sort_on, is_some, Text, text_eq, if◌then◌else◌,
}
use easygas_guide_server.Api.{Code, Result, ok, err, present, require, ◌>>=◌, ◌>>◌}

pub data VersionStatus : Type 0 where
  draft published archived : VersionStatus

abbrev pub is_draft : VersionStatus → Bool
is_draft VersionStatus.draft = true
is_draft _ = false

abbrev pub is_published : VersionStatus → Bool
is_published VersionStatus.published = true
is_published _ = false

pub record Template : Type 0 where
  pub id : ℕ
  pub name : Text
  pub description : Option Text
  pub created_by : ℕ

pub record Version : Type 0 where
  pub id : ℕ
  pub template_id : ℕ
  pub version : ℕ
  pub status : VersionStatus
  pub published_at : Option ℕ
  pub created_by : ℕ

-- What an admin writes of a step.
pub record StepBody : Type 0 where
  pub name : Text
  pub description : Option Text
  pub requirements : Option Text
  pub is_stop : Bool
  pub risk_weight : ℕ
  pub required_photos : ℕ

pub record Step : Type 0 where
  pub id : ℕ
  pub version_id : ℕ
  pub sort_order : ℕ
  pub body : StepBody

-- Bounds are the decimals of the request, as text.
pub record DefBody : Type 0 where
  pub name : Text
  pub unit : Text
  pub min_value : Option Text
  pub max_value : Option Text
  pub expected_value : Option Text
  pub required : Bool

pub record Def : Type 0 where
  pub id : ℕ
  pub step_id : ℕ
  pub body : DefBody

pub record StepInput : Type 0 where
  pub body : StepBody
  pub measurements : List DefBody

pub data TemplateEvent : Type 0 where
  template_created template_deleted : ℕ → TemplateEvent
  version_created version_published version_archived step_changed : ℕ → TemplateEvent

pub record TemplateDb : Type 0 where
  pub templates : List Template
  pub versions : List Version
  pub steps : List Step
  pub defs : List Def
  -- the version of each job's checklist, and the template step of each job's step
  pub used_versions : List ℕ
  pub used_steps : List ℕ
  pub audit : List TemplateEvent
  pub next_id : ℕ

abbrev pub record_template_event : TemplateEvent → TemplateDb → TemplateDb
record_template_event e db = record db { audit = db.audit ++ e ∷ [] }

abbrev pub set_version : ℕ → (Version → Version) → TemplateDb → TemplateDb
set_version id f db = record db { versions = update (λ v. v.id == id) f db.versions }

abbrev pub set_step : ℕ → (Step → Step) → TemplateDb → TemplateDb
set_step id f db = record db { steps = update (λ s. s.id == id) f db.steps }

unfoldable pub find_template : ℕ → TemplateDb → Option Template
find_template id db = find (λ t. t.id == id) db.templates

-- `.where({ id: versionId, template_id: templateId })`
unfoldable pub find_of_template : ℕ → ℕ → TemplateDb → Option Version
find_of_template template_id version_id db =
    find (λ v. v.id == version_id && v.template_id == template_id) db.versions

-- `deletability`
unfoldable pub is_deletable : List VersionStatus → Bool
is_deletable [] = true
is_deletable (s ∷ ss) = let rest = is_deletable ss in is_draft s && rest

pub record TemplateInput : Type 0 where
  pub name : Text
  pub description : Option Text

unfoldable pub new_version : ℕ → ℕ → ℕ → ℕ → Version
new_version id template_id version actor = record {
  id = id;
  template_id = template_id;
  version = version;
  status = VersionStatus.draft;
  published_at = none;
  created_by = actor;
}

-- `createTemplate`
unfoldable pub create_template : (Text → Text) → ℕ → TemplateInput → TemplateDb → Result TemplateDb
unfolding new_version
create_template lower actor input db = do
  require (not (any (λ t. text_eq (lower t.name) (lower input.name)) db.templates))
      Code.template_name_taken
  ok (
      record_template_event (TemplateEvent.template_created db.next_id) (record db {
        templates =
            db.templates
            ++ record {
              id = db.next_id;
              name = input.name;
              description = input.description;
              created_by = actor;
            }
              ∷ [];
        versions = db.versions ++ new_version (suc db.next_id) db.next_id 1 actor ∷ [];
        next_id = suc (suc db.next_id);
      }))

-- `.orderBy('version', 'desc').first()`
unfoldable pub latest : List Version → Option Version
latest [] = none
latest (v ∷ vs) = elim (latest vs) [
  | none ↦ some v
  | some w ↦ if leb w.version v.version then some v else some w
]

unfoldable pub insert_step : ℕ → ℕ → StepBody → TemplateDb → TemplateDb
insert_step version_id sort_order body db = record db {
  steps =
      db.steps
      ++ record { id = db.next_id; version_id = version_id; sort_order = sort_order; body = body }
        ∷ [];
  next_id = suc db.next_id;
}

-- `insertMeasurements`
unfoldable pub insert_measurements : ℕ → List DefBody → TemplateDb → TemplateDb
insert_measurements step_id [] db = db
insert_measurements step_id (d ∷ ds) db = insert_measurements step_id ds (record db {
  defs = db.defs ++ record { id = db.next_id; step_id = step_id; body = d } ∷ [];
  next_id = suc db.next_id;
})

abbrev pub bodies : List Def → List DefBody
bodies [] = []
bodies (d ∷ ds) = d.body ∷ bodies ds

unfoldable pub defs_of : ℕ → TemplateDb → List Def
unfolding sort_on filter
defs_of step_id db = sort_on (λ d. d.id) (filter (λ d. d.step_id == step_id) db.defs)

unfoldable pub steps_of : ℕ → TemplateDb → List Step
unfolding sort_on filter
steps_of version_id db =
    sort_on (λ s. s.sort_order) (filter (λ s. s.version_id == version_id) db.steps)

-- The loop of `createVersion` over the steps of the latest version.
unfoldable pub copy_steps : ℕ → List Step → TemplateDb → TemplateDb
unfolding insert_step insert_measurements defs_of
copy_steps version_id [] db = db
copy_steps version_id (s ∷ ss) db =
    let inserted = insert_step version_id s.sort_order s.body db in
    copy_steps version_id ss
      (insert_measurements db.next_id (bodies (defs_of s.id inserted)) inserted)

abbrev next_number : Option Version → ℕ
next_number none = 1
next_number (some v) = suc v.version

unfoldable pub copied : ℕ → Option Version → TemplateDb → TemplateDb
unfolding copy_steps steps_of
copied version_id none db = db
copied version_id (some from) db = copy_steps version_id (steps_of from.id db) db

unfoldable pub versions_of : ℕ → TemplateDb → List Version
unfolding filter
versions_of template_id db = filter (λ v. v.template_id == template_id) db.versions

-- `createVersion`
unfoldable pub create_version : ℕ → ℕ → TemplateDb → Result TemplateDb
unfolding new_version latest copied versions_of find_template
create_version actor template_id db = do
  _ ← present (find_template template_id db) Code.not_found
  require (not (any (λ v. v.template_id == template_id && is_draft v.status) db.versions))
      Code.draft_exists
  ok (
      record_template_event (TemplateEvent.version_created db.next_id) (
        copied db.next_id (latest (versions_of template_id db)) (record db {
          versions =
              db.versions
              ++ new_version db.next_id template_id
                  (next_number (latest (versions_of template_id db))) actor
                ∷ [];
          next_id = suc db.next_id;
        })))

-- `lockDraftVersion`
unfoldable pub lock_draft_version : ℕ → ℕ → TemplateDb → Result Version
unfolding find_of_template
lock_draft_version template_id version_id db = do
  v ← present (find_of_template template_id version_id db) Code.not_found
  require (is_draft v.status) Code.version_not_draft
  ok v

unfoldable pub max_order : ℕ → List Step → ℕ
max_order version_id [] = 0
max_order version_id (s ∷ ss) =
    let rest = max_order version_id ss in
    if s.version_id == version_id then max s.sort_order rest else rest

-- `addStep`
unfoldable pub add_step : ℕ → ℕ → StepInput → TemplateDb → Result TemplateDb
unfolding lock_draft_version max_order insert_step insert_measurements
add_step template_id version_id input db = do
  _ ← lock_draft_version template_id version_id db
  ok (
      record_template_event (TemplateEvent.step_changed version_id) (
        insert_measurements db.next_id input.measurements
          (insert_step version_id (suc (max_order version_id db.steps)) input.body db)))

-- `.where({ id: stepId, version_id: versionId }).first()`
unfoldable pub find_draft_step : ℕ → ℕ → TemplateDb → Option Step
find_draft_step version_id step_id db =
    find (λ s. s.id == step_id && s.version_id == version_id) db.steps

abbrev pub delete_defs : ℕ → TemplateDb → TemplateDb
delete_defs step_id db = record db { defs = filter (λ d. not (d.step_id == step_id)) db.defs }

-- `updateStep`
unfoldable pub update_draft_step : ℕ → ℕ → ℕ → StepInput → TemplateDb → Result TemplateDb
unfolding lock_draft_version find_draft_step insert_measurements
update_draft_step template_id version_id step_id input db = do
  _ ← lock_draft_version template_id version_id db
  _ ← present (find_draft_step version_id step_id db) Code.not_found
  ok (
      record_template_event (TemplateEvent.step_changed version_id) (
        insert_measurements step_id input.measurements
          (delete_defs step_id (set_step step_id (λ s. record s { body = input.body }) db))))

-- The loop of `deleteStep` over the steps that remain, from a position on.
unfoldable pub renumber : ℕ → List Step → List Step → List Step
renumber i [] steps = steps
renumber i (r ∷ rs) steps = renumber (suc i) rs (
    if r.sort_order == suc i
    then steps
    else update (λ s. s.id == r.id) (λ s. record s { sort_order = suc i }) steps)

abbrev pub remove_step : ℕ → TemplateDb → TemplateDb
remove_step step_id db =
    delete_defs step_id (record db { steps = filter (λ s. not (s.id == step_id)) db.steps })

-- `deleteStep`; the step's measurements are deleted with it.
unfoldable pub delete_step : ℕ → ℕ → ℕ → TemplateDb → Result TemplateDb
unfolding lock_draft_version find_draft_step renumber steps_of filter
delete_step template_id version_id step_id db = do
  _ ← lock_draft_version template_id version_id db
  _ ← present (find_draft_step version_id step_id db) Code.not_found
  ok (
      record_template_event (TemplateEvent.step_changed version_id)
        (record (remove_step step_id db) {
          steps =
              renumber 0 (steps_of version_id (remove_step step_id db))
                (remove_step step_id db).steps;
        }))

pub data Direction : Type 0 where
  up down : Direction

-- The place beside a step; above the first one there is none.
unfoldable pub neighbor_order : Direction → ℕ → Option ℕ
neighbor_order Direction.up zero = none
neighbor_order Direction.up (suc n) = some n
neighbor_order Direction.down n = some (suc n)

-- `.where({ version_id, sort_order: neighborOrder }).first()`
unfoldable pub find_neighbor : ℕ → Option ℕ → TemplateDb → Option Step
find_neighbor version_id none db = none
find_neighbor version_id (some order) db =
    find (λ s. s.version_id == version_id && s.sort_order == order) db.steps

-- The exchange of two places; without a neighbour nothing happens.
unfoldable pub exchange : ℕ → Step → Option Step → TemplateDb → TemplateDb
exchange version_id step none db = db
exchange version_id step (some neighbor) db =
    record_template_event (TemplateEvent.step_changed version_id) (
      set_step neighbor.id (λ s. record s { sort_order = step.sort_order })
        (set_step step.id (λ s. record s { sort_order = neighbor.sort_order }) db))

-- `moveStep`
unfoldable pub move_step : ℕ → ℕ → ℕ → Direction → TemplateDb → Result TemplateDb
unfolding lock_draft_version find_draft_step exchange find_neighbor neighbor_order
move_step template_id version_id step_id direction db = do
  _ ← lock_draft_version template_id version_id db
  step ← present (find_draft_step version_id step_id db) Code.not_found
  ok (
      exchange version_id step
        (find_neighbor version_id (neighbor_order direction step.sort_order) db) db)

abbrev pub archive : Version → Version
archive v = record v { status = VersionStatus.archived }

-- The published version gives way to its successor.
unfoldable pub archive_previous : Option Version → TemplateDb → TemplateDb
archive_previous none db = db
archive_previous (some v) db =
    record_template_event (TemplateEvent.version_archived v.id) (set_version v.id archive db)

unfoldable pub find_published : ℕ → TemplateDb → Option Version
find_published template_id db =
    find (λ v. v.template_id == template_id && is_published v.status) db.versions

-- `publishVersion`
unfoldable pub publish_version : ℕ → ℕ → ℕ → TemplateDb → Result TemplateDb
unfolding find_template find_of_template archive_previous find_published
publish_version template_id version_id now db = do
  _ ← present (find_template template_id db) Code.not_found
  v ← present (find_of_template template_id version_id db) Code.not_found
  require (is_draft v.status) Code.version_not_draft
  require (not (count (λ s. s.version_id == version_id) db.steps == 0)) Code.empty_version
  ok (
      record_template_event (TemplateEvent.version_published version_id) (
        set_version version_id
          (λ w. record w { status = VersionStatus.published; published_at = some now })
          (archive_previous (find_published template_id db) db)))

-- `archiveVersion`
unfoldable pub archive_version : ℕ → ℕ → TemplateDb → Result TemplateDb
unfolding find_template find_of_template
archive_version template_id version_id db = do
  _ ← present (find_template template_id db) Code.not_found
  v ← present (find_of_template template_id version_id db) Code.not_found
  require (is_published v.status) Code.version_not_published
  ok (
      record_template_event (TemplateEvent.version_archived version_id)
        (set_version version_id archive db))

-- `whereIn('version_id', versionIds)`
unfoldable pub has_version : List Version → ℕ → Bool
has_version vs id = any (λ v. v.id == id) vs

unfoldable pub has_step : List Step → ℕ → Bool
has_step ss id = any (λ s. s.id == id) ss

-- `deleteTemplate`
unfoldable pub delete_template : ℕ → TemplateDb → Result TemplateDb
unfolding find_template versions_of has_version has_step filter
delete_template template_id db = do
  _ ← present (find_template template_id db) Code.not_found
  let vs = versions_of template_id db
  require (not (any (λ v. not (is_draft v.status)) vs)) Code.template_has_history
  let ss = filter (λ s. has_version vs s.version_id) db.steps
  require (not (any (has_version vs) db.used_versions)) Code.template_in_use
  require (not (any (has_step ss) db.used_steps)) Code.template_in_use
  ok (
      record_template_event (TemplateEvent.template_deleted template_id) (record db {
        templates = filter (λ t. not (t.id == template_id)) db.templates;
        versions = filter (λ v. not (has_version vs v.id)) db.versions;
        steps = filter (λ s. not (has_step ss s.id)) db.steps;
        defs = filter (λ d. not (has_step ss d.step_id)) db.defs;
      }))
