-- ===== src/Templates/Frozen.antt =====
-- A version that is not a draft keeps its steps under templates.service.ts.
use easygas_guide_server.Common.{
  ℕ, suc, ◌≤◌, Bool, true, false, not, ◌&&◌, Option, none, some, List, [], ◌∷◌, ◌++◌, ◌≡◌, refl,
  arith, inl, inr, ◌==◌, find, filter, update, count, sort_on-All, All, All-imp, All-find,
  All-update, find-true, find-count, count-eq-All, count-filter-le, Bool-cases, ==-refl, &&-true,
  sym, ap, ◌∙◌, Text,
}
use easygas_guide_server.Api.{Code, ok, present-ok, require-ok, >>=-eq-ok, ok-injective}
use easygas_guide_server.Templates.Runs.{Request, serve}
use easygas_guide_server.Templates.{
  Version, Step, StepBody, DefBody, StepInput, Direction, TemplateDb, is_draft, add_step,
  update_draft_step, delete_step, move_step, insert_step, insert_measurements, lock_draft_version,
  find_of_template, find_draft_step, exchange, find_neighbor, neighbor_order, renumber, steps_of,
  remove_step, max_order, delete_defs, set_step,
}

unfoldable pub in_version : ℕ → Step → Bool
in_version v s = s.version_id == v

-- The steps of a version, as they are stored.
unfoldable pub version_steps : ℕ → TemplateDb → List Step
version_steps v db = filter (in_version v) db.steps

-- The version is published or archived.
unfoldable pub IsFrozen : ℕ → TemplateDb → Type 0
IsFrozen v db = All (λ x. (x.id == v) ≡ true → is_draft x.status ≡ false) db.versions

-- `id` is the primary key of the steps.
unfoldable pub IsKeyed : List Step → Type 0
IsKeyed steps = (id : ℕ) → count (λ s. s.id == id) steps ≤ 1

-- Another version than a frozen one is locked.
locked_other :
    (t v w : ℕ) (db : TemplateDb) (x : Version)
    → lock_draft_version t v db ≡ ok x
    → IsFrozen w db
    → (v == w) ≡ false
unfolding lock_draft_version find_of_template IsFrozen
locked_other t v w db x h frozen =
    let p : Version → Bool = λ y. y.id == v && y.template_id == t in
    let (row, found, h1) = present-ok (find p db.versions) Code.not_found _ h in
    let (draft, _) = require-ok (is_draft row.status) Code.version_not_draft _ h1 in
    let hit = find-true p db.versions row found in
    let late =
      All-find (λ y. (y.id == w) ≡ true → is_draft y.status ≡ false) p db.versions row frozen
        found in
    elim (Bool-cases (v == w)) [
      | inr differs ↦ differs
      | inl same ↦ absurd (ground (arith, late, hit, same, draft))
    ]

-- All rows of an id lie outside a version.
abbrev Outside : ℕ → ℕ → List Step → Type 0
Outside w id = All (λ x. (x.id == id) ≡ true → in_version w x ≡ false)

Outside-row :
    (v w id : ℕ) (steps : List Step)
    → (v == w) ≡ false
    → IsKeyed steps
    → 1 ≤ count (λ x. x.id == id && x.version_id == v) steps
    → Outside w id steps
unfolding in_version IsKeyed
Outside-row v w id steps differs key one =
    All-imp (λ x. (x.id == id) ≡ true → (x.id == id && x.version_id == v) ≡ true) _ steps
      (λ x h e. ground (arith, h e, differs))
      (count-eq-All (λ x. x.id == id && x.version_id == v) (λ x. x.id == id) steps
        (λ x e. (&&-true _ _ e).0) (ground (arith, one, key id)))

-- A write to rows outside a version that keeps their version.
update-Outside :
    (w id : ℕ) (f : Step → Step) (steps : List Step)
    → ((x : Step) → in_version w (f x) ≡ in_version w x)
    → Outside w id steps
    → filter (in_version w) (update (λ x. x.id == id) f steps) ≡ filter (in_version w) steps
unfolding filter update
update-Outside w id f [] keep h = refl
update-Outside w id f (x ∷ xs) keep (h, hs) =
    ground (arith, h, keep x, update-Outside w id f xs keep hs)

filter-Outside :
    (w id : ℕ) (steps : List Step)
    → Outside w id steps
    → filter (in_version w) (filter (λ x. not (x.id == id)) steps) ≡ filter (in_version w) steps
unfolding filter
filter-Outside w id [] h = refl
filter-Outside w id (x ∷ xs) (h, hs) = ground (arith, h, filter-Outside w id xs hs)

insert_measurements-steps :
    (s : ℕ) (ds : List DefBody) (db : TemplateDb) → (insert_measurements s ds db).steps ≡ db.steps
unfolding insert_measurements
insert_measurements-steps s [] db = refl
insert_measurements-steps s (d ∷ ds) db = insert_measurements-steps s ds _

Outside-update :
    (w id i : ℕ) (f : Step → Step) (steps : List Step)
    → ((x : Step) → in_version w (f x) ≡ in_version w x)
    → ((x : Step) → (f x).id ≡ x.id)
    → Outside w id steps
    → Outside w id (update (λ x. x.id == i) f steps)
Outside-update w id i f steps keep same h =
    All-update (λ x. (x.id == id) ≡ true → in_version w x ≡ false) (λ x. x.id == i) f steps
      (λ x k e. rw (keep x) (k (rw (same x) at e))) h

renumber-Outside :
    (w i : ℕ) (rs steps : List Step)
    → All (λ r. Outside w r.id steps) rs
    → filter (in_version w) (renumber i rs steps) ≡ filter (in_version w) steps
unfolding renumber in_version
renumber-Outside w i [] steps h = refl
renumber-Outside w i (r ∷ rs) steps (h, hs) = elim (Bool-cases (r.sort_order == suc i)) [
  | inl right ↦ rw (renumber, right) (renumber-Outside w (suc i) rs steps hs)
  | inr wrong ↦
      let f : Step → Step = λ s. record s { sort_order = suc i } in
      let next = update (λ s. s.id == r.id) f steps in
      rw (renumber, wrong)
        (renumber-Outside w (suc i) rs next (
            All-imp (λ x. Outside w x.id steps) (λ x. Outside w x.id next) rs
              (λ x k. Outside-update w x.id r.id f steps (λ y. refl) (λ y. refl) k) hs)
          ∙ update-Outside w r.id f steps (λ y. refl) h)
]

rows_count :
    (v : ℕ) (xs ys : List Step)
    → ((q : Step → Bool) → count q xs ≤ count q ys)
    → All
        (λ r. 1 ≤ count (λ x. x.id == r.id && x.version_id == v) ys)
        (filter (λ s. s.version_id == v) xs)
unfolding filter count
rows_count v [] ys le = tt
rows_count v (x ∷ xs) ys le =
    let rest = rows_count v xs ys (λ q. ground (arith, le q)) in
    elim (Bool-cases (x.version_id == v)) [
      | inl hit ↦
          rw hit
            (ground (arith, le (λ y. y.id == x.id && y.version_id == v), hit, ==-refl x.id), rest)
      | inr miss ↦ rw miss rest
    ]

filter-skip :
    (p : Step → Bool) (xs : List Step) (y : Step)
    → p y ≡ false
    → filter p (xs ++ y ∷ []) ≡ filter p xs
unfolding filter
filter-skip p [] y h = ground arith
filter-skip p (x ∷ xs) y h = ground (arith, filter-skip p xs y h)

kept_key : (i : ℕ) (xs : List Step) → IsKeyed xs → IsKeyed (filter (λ y. not (y.id == i)) xs)
unfolding IsKeyed
kept_key i xs key j =
    ground (arith, key j, count-filter-le (λ s. s.id == j) (λ y. not (y.id == i)) xs)

module _ (w : ℕ) where
  insert_step-kept :
      (v o : ℕ) (body : StepBody) (db : TemplateDb)
      → (v == w) ≡ false
      → version_steps w (insert_step v o body db) ≡ version_steps w db
  unfolding version_steps insert_step in_version
  insert_step-kept v o body db differs = filter-skip (in_version w) db.steps _ differs

  found-Outside :
      (v i : ℕ) (db : TemplateDb) (s : Step)
      → (v == w) ≡ false
      → IsKeyed db.steps
      → find_draft_step v i db ≡ some s
      → Outside w i db.steps
  unfolding find_draft_step
  found-Outside v i db s differs key found =
      let p : Step → Bool = λ x. x.id == i && x.version_id == v in
      Outside-row v w i db.steps differs key
        (find-count p p db.steps s found (find-true p db.steps s found))

  add_step-kept :
      (t v : ℕ) (input : StepInput) (db after : TemplateDb)
      → add_step t v input db ≡ ok after
      → IsFrozen w db
      → version_steps w after ≡ version_steps w db
  unfolding add_step version_steps
  add_step-kept t v input db after h frozen =
      let (x, locked, e) = >>=-eq-ok (lock_draft_version t v db) _ h in
      let one = insert_step v (suc (max_order v db.steps)) input.body db in
      ap (version_steps w) (sym (ok-injective e))
      ∙ ap (filter (in_version w)) (insert_measurements-steps db.next_id input.measurements one)
      ∙ insert_step-kept v (suc (max_order v db.steps)) input.body db
          (locked_other t v w db x locked frozen)

  update_draft_step-kept :
      (t v i : ℕ) (input : StepInput) (db after : TemplateDb)
      → update_draft_step t v i input db ≡ ok after
      → IsFrozen w db
      → IsKeyed db.steps
      → version_steps w after ≡ version_steps w db
  unfolding update_draft_step version_steps in_version
  update_draft_step-kept t v i input db after h frozen key =
      let (x, locked, h1) = >>=-eq-ok (lock_draft_version t v db) _ h in
      let (s, found, e) = present-ok (find_draft_step v i db) Code.not_found _ h1 in
      let f : Step → Step = λ y. record y { body = input.body } in
      ap (version_steps w) (sym (ok-injective e))
      ∙ ap (filter (in_version w))
          (insert_measurements-steps i input.measurements (delete_defs i (set_step i f db)))
      ∙ update-Outside w i f db.steps (λ y. refl)
          (found-Outside v i db s (locked_other t v w db x locked frozen) key found)

  delete_step-kept :
      (t v i : ℕ) (db after : TemplateDb)
      → delete_step t v i db ≡ ok after
      → IsFrozen w db
      → IsKeyed db.steps
      → version_steps w after ≡ version_steps w db
  unfolding delete_step version_steps steps_of
  delete_step-kept t v i db after h frozen key =
      let (x, locked, h1) = >>=-eq-ok (lock_draft_version t v db) _ h in
      let (s, found, e) = present-ok (find_draft_step v i db) Code.not_found _ h1 in
      let differs = locked_other t v w db x locked frozen in
      let left = filter (λ y. not (y.id == i)) db.steps in
      let left_key : IsKeyed left = kept_key i db.steps key in
      let rows =
        sort_on-All (λ y. y.sort_order)
          (λ r. 1 ≤ count (λ y. y.id == r.id && y.version_id == v) left)
          (filter (λ y. y.version_id == v) left) (rows_count v left left (λ q. omega arith)) in
      ap (version_steps w) (sym (ok-injective e))
      ∙ renumber-Outside w 0 (steps_of v (remove_step i db)) left (
          All-imp (λ r. 1 ≤ count (λ y. y.id == r.id && y.version_id == v) left)
            (λ r. Outside w r.id left) _ (λ r one. Outside-row v w r.id left differs left_key one)
            rows)
      ∙ filter-Outside w i db.steps (found-Outside v i db s differs key found)

  exchange-kept :
      (v : ℕ) (step : Step) (neighbor : Option Step) (db : TemplateDb)
      → ((i : ℕ) → 1 ≤ count (λ x. x.id == i && x.version_id == v) db.steps → Outside w i db.steps)
      → 1 ≤ count (λ x. x.id == step.id && x.version_id == v) db.steps
      → ((n : Step)
          → neighbor ≡ some n
          → 1 ≤ count (λ x. x.id == n.id && x.version_id == v) db.steps)
      → version_steps w (exchange v step neighbor db) ≡ version_steps w db
  unfolding exchange version_steps in_version
  exchange-kept v step none db outside one other = refl
  exchange-kept v step (some n) db outside one other =
      let f : Step → Step = λ s. record s { sort_order = n.sort_order } in
      let g : Step → Step = λ s. record s { sort_order = step.sort_order } in
      update-Outside w n.id g (update (λ s. s.id == step.id) f db.steps) (λ y. refl)
        (Outside-update w n.id step.id f db.steps (λ y. refl) (λ y. refl)
          (outside n.id (other n refl)))
      ∙ update-Outside w step.id f db.steps (λ y. refl) (outside step.id one)

  neighbor_count :
      (v : ℕ) (order : Option ℕ) (db : TemplateDb) (n : Step)
      → find_neighbor v order db ≡ some n
      → 1 ≤ count (λ x. x.id == n.id && x.version_id == v) db.steps
  unfolding find_neighbor
  neighbor_count v none db n e = absurd (ground arith)
  neighbor_count v (some o) db n e =
      let p : Step → Bool = λ s. s.version_id == v && s.sort_order == o in
      find-count p (λ x. x.id == n.id && x.version_id == v) db.steps n e
        (ground (arith, find-true p db.steps n e, ==-refl n.id))

  move_step-kept :
      (t v i : ℕ) (d : Direction) (db after : TemplateDb)
      → move_step t v i d db ≡ ok after
      → IsFrozen w db
      → IsKeyed db.steps
      → version_steps w after ≡ version_steps w db
  unfolding move_step find_draft_step
  move_step-kept t v i d db after h frozen key =
      let (x, locked, h1) = >>=-eq-ok (lock_draft_version t v db) _ h in
      let (s, found, e) = present-ok (find_draft_step v i db) Code.not_found _ h1 in
      let differs = locked_other t v w db x locked frozen in
      let p : Step → Bool = λ y. y.id == i && y.version_id == v in
      ap (version_steps w) (sym (ok-injective e))
      ∙ exchange-kept v s (find_neighbor v (neighbor_order d s.sort_order) db) db
          (λ j one. Outside-row v w j db.steps differs key one)
          (find-count p (λ y. y.id == s.id && y.version_id == v) db.steps s found
            (ground (arith, find-true p db.steps s found, ==-refl s.id)))
          (λ n k. neighbor_count v (neighbor_order d s.sort_order) db n k)

-- A request that edits the steps of a version.
abbrev pub is_edit : Request → Bool
is_edit (Request.adds_step t v input) = true
is_edit (Request.updates_step t v i input) = true
is_edit (Request.deletes_step t v i) = true
is_edit (Request.moves_step t v i d) = true
is_edit _ = false

-- A published or archived version is immutable: no addition, update, deletion or move of a step that
-- succeeds, whatever template and version it names, changes a step of it. The ids of steps are a key.
pub serve-frozen :
    (lower : Text → Text) (actor now : ℕ) (r : Request) (w : ℕ) (db after : TemplateDb)
    → is_edit r ≡ true
    → serve lower actor now r db ≡ ok after
    → IsFrozen w db
    → IsKeyed db.steps
    → version_steps w after ≡ version_steps w db
unfolding serve
serve-frozen lower actor now (Request.adds_step t v input) w db after edit h frozen key =
    add_step-kept w t v input db after h frozen
serve-frozen lower actor now (Request.updates_step t v i input) w db after edit h frozen key =
    update_draft_step-kept w t v i input db after h frozen key
serve-frozen lower actor now (Request.deletes_step t v i) w db after edit h frozen key =
    delete_step-kept w t v i db after h frozen key
serve-frozen lower actor now (Request.moves_step t v i d) w db after edit h frozen key =
    move_step-kept w t v i d db after h frozen key
serve-frozen lower actor now (Request.creates x) w db after edit h frozen key =
    absurd (ground arith)
serve-frozen lower actor now (Request.creates_version x) w db after edit h frozen key =
    absurd (ground arith)
serve-frozen lower actor now (Request.publishes t v) w db after edit h frozen key =
    absurd (ground arith)
serve-frozen lower actor now (Request.archives t v) w db after edit h frozen key =
    absurd (ground arith)
serve-frozen lower actor now (Request.deletes t) w db after edit h frozen key =
    absurd (ground arith)
