-- ===== src/Templates/Runs.antt =====
-- The handlers of templates.service.ts as requests to one store, and sequences of them.
use easygas_guide_server.Common.{
  ℕ, suc, ◌≤◌, ◌<◌, Bool, not, ◌&&◌, Option, none, some, List, [], ◌∷◌, ◌++◌, ◌≡◌, refl, arith,
  ◌==◌, filter, count, any, All-find, find-none-count, any-false-count, find-true, find-count,
  count-update_drop, count-update_same, ==-refl, ==-eq, subst, sym, ◌∙◌, Text, text_eq,
}
use easygas_guide_server.Api.{Code, Result, ok, present-ok, require-ok, >>=-eq-ok, ok-injective}
use easygas_guide_server.Templates.{
  Template, Version, Step, StepBody, DefBody, StepInput, TemplateInput, Direction, TemplateDb,
  is_draft, is_published, archive, new_version, create_template, create_version, add_step,
  update_draft_step, delete_step, move_step, publish_version, archive_version, delete_template,
  insert_step, insert_measurements, copy_steps, copied, latest, versions_of, lock_draft_version,
  exchange, archive_previous, find_published, find_template, find_of_template, find_draft_step,
  has_version, has_step, defs_of, bodies, steps_of, next_number, set_step, delete_defs, max_order,
}
use easygas_guide_server.Templates.Versions.{
  Sound, Sound-later, add_draft, add_template, archive-Sound, publish-Sound, filter-Sound, draft_of,
  published_of,
}

pub data Request : Type 0 where
  creates : TemplateInput → Request
  creates_version : (template : ℕ) → Request
  adds_step : (template version : ℕ) → StepInput → Request
  updates_step : (template version step : ℕ) → StepInput → Request
  deletes_step : (template version step : ℕ) → Request
  moves_step : (template version step : ℕ) → Direction → Request
  publishes archives : (template version : ℕ) → Request
  deletes : (template : ℕ) → Request

unfoldable pub serve : (Text → Text) → (actor now : ℕ) → Request → TemplateDb → Result TemplateDb
serve lower actor now (Request.creates input) db = create_template lower actor input db
serve lower actor now (Request.creates_version t) db = create_version actor t db
serve lower actor now (Request.adds_step t v input) db = add_step t v input db
serve lower actor now (Request.updates_step t v s input) db = update_draft_step t v s input db
serve lower actor now (Request.deletes_step t v s) db = delete_step t v s db
serve lower actor now (Request.moves_step t v s d) db = move_step t v s d db
serve lower actor now (Request.publishes t v) db = publish_version t v now db
serve lower actor now (Request.archives t v) db = archive_version t v db
serve lower actor now (Request.deletes t) db = delete_template t db

-- A request that fails leaves the store as it was, so only those that succeed count.
pub data Run (lower : Text → Text) (start : TemplateDb) : TemplateDb → Type 0 where
  begins : Run lower start start
  serves :
      {db : TemplateDb} (actor now : ℕ) (r : Request) (after : TemplateDb)
      → serve lower actor now r db ≡ ok after
      → Run lower start db
      → Run lower start after

unfoldable pub IsSound : TemplateDb → Type 0
IsSound db = Sound db.templates db.versions db.next_id

-- The templates and versions are untouched, and ids are only used up.
record Untouched (db after : TemplateDb) : Type 0 where
  templates : after.templates ≡ db.templates
  versions : after.versions ≡ db.versions
  next_id : db.next_id ≤ after.next_id

Untouched-IsSound : (db after : TemplateDb) → Untouched db after → IsSound db → IsSound after
unfolding IsSound
Untouched-IsSound db after u s =
    subst (λ ts. Sound ts after.versions after.next_id) (sym u.templates)
      (subst (λ vs. Sound db.templates vs after.next_id) (sym u.versions)
        (Sound-later db.templates db.versions db.next_id after.next_id u.next_id s))

Untouched-chain : (a b c : TemplateDb) → Untouched a b → Untouched b c → Untouched a c
Untouched-chain a b c u w = record {
  templates = w.templates ∙ u.templates;
  versions = w.versions ∙ u.versions;
  next_id = ground (arith, u.next_id, w.next_id);
}

insert_step-Untouched :
    (v o : ℕ) (body : StepBody) (db : TemplateDb) → Untouched db (insert_step v o body db)
unfolding insert_step
insert_step-Untouched v o body db = record {
  templates = refl;
  versions = refl;
  next_id = omega arith;
}

insert_measurements-Untouched :
    (s : ℕ) (ds : List DefBody) (db : TemplateDb) → Untouched db (insert_measurements s ds db)
unfolding insert_measurements
insert_measurements-Untouched s [] db = record {
  templates = refl;
  versions = refl;
  next_id = omega arith;
}
insert_measurements-Untouched s (d ∷ ds) db =
    let rest = insert_measurements-Untouched s ds _ in
    record {
      templates = rest.templates;
      versions = rest.versions;
      next_id = ground (arith, rest.next_id);
    }

copy_steps-Untouched :
    (v : ℕ) (ss : List Step) (db : TemplateDb) → Untouched db (copy_steps v ss db)
unfolding copy_steps
copy_steps-Untouched v [] db = record { templates = refl; versions = refl; next_id = omega arith }
copy_steps-Untouched v (s ∷ ss) db =
    let one = insert_step v s.sort_order s.body db in
    let ds = bodies (defs_of s.id one) in
    Untouched-chain db one (copy_steps v (s ∷ ss) db)
      (insert_step-Untouched v s.sort_order s.body db)
      (Untouched-chain one (insert_measurements db.next_id ds one) (copy_steps v (s ∷ ss) db)
        (insert_measurements-Untouched db.next_id ds one)
        (copy_steps-Untouched v ss (insert_measurements db.next_id ds one)))

copied-Untouched :
    (v : ℕ) (from : Option Version) (db : TemplateDb) → Untouched db (copied v from db)
unfolding copied
copied-Untouched v none db = record { templates = refl; versions = refl; next_id = omega arith }
copied-Untouched v (some w) db = copy_steps-Untouched v (steps_of w.id db) db

exchange-Untouched :
    (v : ℕ) (s : Step) (n : Option Step) (db : TemplateDb) → Untouched db (exchange v s n db)
unfolding exchange
exchange-Untouched v s none db = record { templates = refl; versions = refl; next_id = omega arith }
exchange-Untouched v s (some n) db = record {
  templates = refl;
  versions = refl;
  next_id = omega arith;
}

create_template-IsSound :
    (lower : Text → Text) (actor : ℕ) (input : TemplateInput) (db after : TemplateDb)
    → create_template lower actor input db ≡ ok after
    → IsSound db
    → IsSound after
unfolding create_template IsSound
create_template-IsSound lower actor input db after h s =
    let (_, e) =
      require-ok (not (any (λ t. text_eq (lower t.name) (lower input.name)) db.templates))
        Code.template_name_taken _ h in
    subst IsSound (ok-injective e) (
      add_template db.templates db.versions db.next_id actor
        (record {
          id = db.next_id;
          name = input.name;
          description = input.description;
          created_by = actor;
        })
        refl s)

create_version-IsSound :
    (actor t : ℕ) (db after : TemplateDb)
    → create_version actor t db ≡ ok after
    → IsSound db
    → IsSound after
unfolding create_version find_template IsSound draft_of
create_version-IsSound actor t db after h s =
    let (row, found, h1) = present-ok (find_template t db) Code.not_found _ h in
    let (free, h2) =
      require-ok (not (any (λ v. v.template_id == t && is_draft v.status) db.versions))
        Code.draft_exists _ h1 in
    let vs = db.versions in
    let number = next_number (latest (versions_of t db)) in
    let base : TemplateDb = record db {
      versions = vs ++ new_version db.next_id t number actor ∷ [];
      next_id = suc db.next_id;
    } in
    let known =
      All-find (λ (x : Template). x.id < db.next_id) (λ x. x.id == t) db.templates row s.known
        found in
    let id = ==-eq row.id t (find-true (λ x. x.id == t) db.templates row found) in
    let sound =
      add_draft db.templates vs db.next_id db.next_id t number actor s
        (any-false-count (λ v. v.template_id == t && is_draft v.status) vs (ground (arith, free)))
        (omega arith) (ground (arith, known, id)) in
    subst IsSound (ok-injective h2) (
      Untouched-IsSound base _ (copied-Untouched db.next_id (latest (versions_of t db)) base) sound)

add_step-IsSound :
    (t v : ℕ) (input : StepInput) (db after : TemplateDb)
    → add_step t v input db ≡ ok after
    → IsSound db
    → IsSound after
unfolding add_step IsSound
add_step-IsSound t v input db after h s =
    let (_, _, e) = >>=-eq-ok (lock_draft_version t v db) _ h in
    let one = insert_step v (suc (max_order v db.steps)) input.body db in
    subst IsSound (ok-injective e) (
      Untouched-IsSound db _
        (Untouched-chain db one (insert_measurements db.next_id input.measurements one)
          (insert_step-Untouched v (suc (max_order v db.steps)) input.body db)
          (insert_measurements-Untouched db.next_id input.measurements one))
        s)

update_draft_step-IsSound :
    (t v i : ℕ) (input : StepInput) (db after : TemplateDb)
    → update_draft_step t v i input db ≡ ok after
    → IsSound db
    → IsSound after
unfolding update_draft_step IsSound
update_draft_step-IsSound t v i input db after h s =
    let (_, _, h1) = >>=-eq-ok (lock_draft_version t v db) _ h in
    let (_, _, e) = present-ok (find_draft_step v i db) Code.not_found _ h1 in
    let base = delete_defs i (set_step i (λ x. record x { body = input.body }) db) in
    subst IsSound (ok-injective e) (
      Untouched-IsSound base (insert_measurements i input.measurements base)
        (insert_measurements-Untouched i input.measurements base) s)

delete_step-IsSound :
    (t v i : ℕ) (db after : TemplateDb)
    → delete_step t v i db ≡ ok after
    → IsSound db
    → IsSound after
unfolding delete_step IsSound
delete_step-IsSound t v i db after h s =
    let (_, _, h1) = >>=-eq-ok (lock_draft_version t v db) _ h in
    let (_, _, e) = present-ok (find_draft_step v i db) Code.not_found _ h1 in
    subst IsSound (ok-injective e) s

move_step-IsSound :
    (t v i : ℕ) (d : Direction) (db after : TemplateDb)
    → move_step t v i d db ≡ ok after
    → IsSound db
    → IsSound after
unfolding move_step
move_step-IsSound t v i d db after h s =
    let (_, _, h1) = >>=-eq-ok (lock_draft_version t v db) _ h in
    let (step, _, e) = present-ok (find_draft_step v i db) Code.not_found _ h1 in
    subst IsSound (ok-injective e) (Untouched-IsSound db _ (exchange-Untouched v step _ db) s)

archive_previous-IsSound :
    (t : ℕ) (previous : Option Version) (db : TemplateDb)
    → find_published t db ≡ previous
    → IsSound db
    → IsSound (archive_previous previous db)
      × (count (published_of t) (archive_previous previous db).versions ≡ 0)
unfolding IsSound archive_previous find_published published_of
archive_previous-IsSound t none db e s = (s, find-none-count (published_of t) db.versions e)
archive_previous-IsSound t (some w) db e s = (
  archive-Sound db.templates db.versions db.next_id w.id s,
  ground (
    arith,
    s.published t,
    count-update_drop (published_of t) (λ v. v.id == w.id) archive db.versions w (λ v. ground arith)
        e (==-refl w.id),
  ),
)

count-archive_previous :
    (t v : ℕ) (previous : Option Version) (db : TemplateDb)
    → count (λ x. x.id == v && x.template_id == t) (archive_previous previous db).versions
      ≡ count (λ x. x.id == v && x.template_id == t) db.versions
unfolding archive_previous
count-archive_previous t v none db = refl
count-archive_previous t v (some w) db =
    count-update_same (λ x. x.id == v && x.template_id == t) (λ x. x.id == w.id) archive db.versions
      (λ x. refl)

publish_version-IsSound :
    (t v now : ℕ) (db after : TemplateDb)
    → publish_version t v now db ≡ ok after
    → IsSound db
    → IsSound after
unfolding publish_version find_of_template IsSound
publish_version-IsSound t v now db after h s =
    let (_, _, h1) = present-ok (find_template t db) Code.not_found _ h in
    let (row, found, h2) = present-ok (find_of_template t v db) Code.not_found _ h1 in
    let (_, h3) = require-ok (is_draft row.status) Code.version_not_draft _ h2 in
    let (_, e) =
      require-ok (not (count (λ x. x.version_id == v) db.steps == 0)) Code.empty_version _ h3 in
    let previous = archive_previous (find_published t db) db in
    let (sound, free) = archive_previous-IsSound t (find_published t db) db refl s in
    let p : Version → Bool = λ x. x.id == v && x.template_id == t in
    let one = find-count p p db.versions row found (find-true p db.versions row found) in
    subst IsSound (ok-injective e) (
      publish-Sound previous.templates previous.versions previous.next_id v t now sound
        (rw (count-archive_previous t v (find_published t db) db) one) free)

archive_version-IsSound :
    (t v : ℕ) (db after : TemplateDb)
    → archive_version t v db ≡ ok after
    → IsSound db
    → IsSound after
unfolding archive_version IsSound
archive_version-IsSound t v db after h s =
    let (_, _, h1) = present-ok (find_template t db) Code.not_found _ h in
    let (row, _, h2) = present-ok (find_of_template t v db) Code.not_found _ h1 in
    let (_, e) = require-ok (is_published row.status) Code.version_not_published _ h2 in
    subst IsSound (ok-injective e) (archive-Sound db.templates db.versions db.next_id v s)

delete_template-IsSound :
    (t : ℕ) (db after : TemplateDb) → delete_template t db ≡ ok after → IsSound db → IsSound after
unfolding delete_template IsSound
delete_template-IsSound t db after h s =
    let (_, _, h1) = present-ok (find_template t db) Code.not_found _ h in
    let vs = versions_of t db in
    let (_, h2) =
      require-ok (not (any (λ v. not (is_draft v.status)) vs)) Code.template_has_history _ h1 in
    let (_, h3) =
      require-ok (not (any (has_version vs) db.used_versions)) Code.template_in_use _ h2 in
    let (_, e) =
      require-ok
        (not (any (has_step (filter (λ x. has_version vs x.version_id) db.steps)) db.used_steps))
        Code.template_in_use _ h3 in
    subst IsSound (ok-injective e) (
      filter-Sound db.templates db.versions db.next_id (λ v. not (has_version vs v.id))
        (λ x. not (x.id == t)) s)

serve-IsSound :
    (lower : Text → Text) (actor now : ℕ) (r : Request) (db after : TemplateDb)
    → serve lower actor now r db ≡ ok after
    → IsSound db
    → IsSound after
unfolding serve
serve-IsSound lower actor now (Request.creates input) db after h s =
    create_template-IsSound lower actor input db after h s
serve-IsSound lower actor now (Request.creates_version t) db after h s =
    create_version-IsSound actor t db after h s
serve-IsSound lower actor now (Request.adds_step t v input) db after h s =
    add_step-IsSound t v input db after h s
serve-IsSound lower actor now (Request.updates_step t v i input) db after h s =
    update_draft_step-IsSound t v i input db after h s
serve-IsSound lower actor now (Request.deletes_step t v i) db after h s =
    delete_step-IsSound t v i db after h s
serve-IsSound lower actor now (Request.moves_step t v i d) db after h s =
    move_step-IsSound t v i d db after h s
serve-IsSound lower actor now (Request.publishes t v) db after h s =
    publish_version-IsSound t v now db after h s
serve-IsSound lower actor now (Request.archives t v) db after h s =
    archive_version-IsSound t v db after h s
serve-IsSound lower actor now (Request.deletes t) db after h s =
    delete_template-IsSound t db after h s

-- In every course of template requests each template has at most one draft and at most one published
-- version: a draft is created only where there is none, and publishing archives the version that was
-- published before. The ids of versions stay a key.
pub Run-IsSound :
    (lower : Text → Text) (start db : TemplateDb) → IsSound start → Run lower start db → IsSound db
Run-IsSound lower start db h begins = h
Run-IsSound lower start db h (serves actor now r after e run) =
    serve-IsSound lower actor now r _ db e (Run-IsSound lower start _ h run)
