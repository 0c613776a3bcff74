-- ===== src/Completion/Values.antt =====
-- The measurements that the check of a step's values stores, as the gate finds them.
use easygas_guide_server.Common.{
  ℕ, true, Option, none, some, List, [], ◌∷◌, ◌++◌, ◌==◌, ◌≡◌, ◌≢◌, refl, ◌∙◌, arith, All,
  Option-cases, Bool-cases, ◌&&◌, inl, inr, ap, ==-eq, ==-refl, some-eq, subst,
}
use easygas_guide_server.Risk.{Dyadic}
use easygas_guide_server.Store.{MeasurementDef, Measurement}
use easygas_guide_server.Checklist.{
  Submitted, submitted_value, Check, stored, problem, skipped, check_value, Checked, check_all,
  within_range, add_check, column_value, store_row, store_rows,
}
use easygas_guide_server.Completion.{stored_value}

-- A definition that is required has an in-range value among the rows.
abbrev pub Recorded : ℕ → ℕ → List Measurement → MeasurementDef → Type 0
Recorded step_id attempt rows d =
    (d.required ≡ true)
    → (m : Measurement) × (stored_value step_id d.id attempt rows ≡ some m)
      × (within_range d m.value ≡ true)

stored_value-append :
    (step_id def_id attempt : ℕ) (xs ys : List Measurement) (m : Measurement)
    → stored_value step_id def_id attempt ys ≡ some m
    → stored_value step_id def_id attempt (xs ++ ys) ≡ some m
unfolding stored_value
stored_value-append step_id def_id attempt [] ys m h = h
stored_value-append step_id def_id attempt (x ∷ xs) ys m h =
    rw (stored_value-append step_id def_id attempt xs ys m h) refl

stored_value-head :
    (m : Measurement) (xs : List Measurement)
    → stored_value m.job_step_id m.measurement_id m.attempt xs ≡ none
    → stored_value m.job_step_id m.measurement_id m.attempt (m ∷ xs) ≡ some m
unfolding stored_value
stored_value-head m xs nothing =
    rw (nothing, ==-refl m.job_step_id, ==-refl m.measurement_id, ==-refl m.attempt) refl

check_value-stored :
    (d : MeasurementDef) (o : Option Dyadic) (v : Dyadic)
    → check_value d o ≡ stored v
    → (o ≡ some v) × (within_range d v ≡ true)
unfolding check_value
check_value-stored d none v h = absurd (ground arith)
check_value-stored d (some w) v h = elim (Bool-cases (within_range d w)) [
  | inl fits ↦ (ground arith, ground arith)
  | inr off ↦ absurd (ground arith)
]

-- A row that the loop stores holds the submitted value of its definition.
add_check-value :
    (step_id attempt id : ℕ) (ms : List Submitted) (d : MeasurementDef) (k : Check) (rest : Checked)
    (m : Measurement)
    → check_value d (submitted_value d.id ms) ≡ k
    → ((n : Measurement)
        → stored_value step_id id attempt rest.rows ≡ some n
        → submitted_value id ms ≡ some n.value)
    → stored_value step_id id attempt (add_check step_id attempt d.id k rest).rows ≡ some m
    → submitted_value id ms ≡ some m.value
unfolding stored_value
add_check-value step_id attempt id ms d problem rest m e later h = later m h
add_check-value step_id attempt id ms d skipped rest m e later h = later m h
add_check-value step_id attempt id ms d (stored v) rest m e later h =
    elim (Option-cases (stored_value step_id id attempt rest.rows)) [
      | inr (n, seen) ↦ later m (seen ∙ (rw seen at h))
      | inl nothing ↦ elim (Bool-cases (d.id == id)) [
        | inl same ↦
            let (seen, _) = check_value-stored d (submitted_value d.id ms) v e in
            let put : some v ≡ some m.value =
              ap (mathlib.Core.Option.map (λ n. n.value))
                (rw (nothing, same, ==-refl step_id, ==-refl attempt) at h) in
            subst (λ i. submitted_value i ms ≡ some v) (==-eq d.id id same) seen ∙ put
        | inr other ↦ absurd (ground arith)
      ]
    ]

check_all-value :
    (step_id attempt id : ℕ) (ms : List Submitted) (ds : List MeasurementDef) (m : Measurement)
    → stored_value step_id id attempt (check_all step_id attempt ms ds).rows ≡ some m
    → submitted_value id ms ≡ some m.value
unfolding check_all stored_value
check_all-value step_id attempt id ms [] m h = absurd (ground arith)
check_all-value step_id attempt id ms (d ∷ ds) m h =
    add_check-value step_id attempt id ms d (check_value d (submitted_value d.id ms))
      (check_all step_id attempt ms ds) m refl (check_all-value step_id attempt id ms ds) h

-- What the loop stored for later definitions is still found after a further row.
Recorded-add :
    (step_id attempt id : ℕ) (k : Check) (rest : Checked) (ds : List MeasurementDef)
    → All (Recorded step_id attempt rest.rows) ds
    → All (Recorded step_id attempt (add_check step_id attempt id k rest).rows) ds
unfolding stored_value
Recorded-add step_id attempt id k rest [] h = tt
Recorded-add step_id attempt id problem rest (d ∷ ds) h = h
Recorded-add step_id attempt id skipped rest (d ∷ ds) h = h
Recorded-add step_id attempt id (stored v) rest (d ∷ ds) h = (
  λ needed. let (m, seen, fits) = h.0 needed in (m, rw seen refl, fits),
  Recorded-add step_id attempt id (stored v) rest ds h.1,
)

check_value-unskipped :
    (d : MeasurementDef) (o : Option Dyadic) → d.required ≡ true → check_value d o ≢ skipped
unfolding check_value
check_value-unskipped d none needed e = ground arith
check_value-unskipped d (some v) needed e = elim (Bool-cases (within_range d v)) [
  | inl fits ↦ ground arith
  | inr off ↦ ground arith
]

abbrev row_of : ℕ → ℕ → ℕ → Dyadic → Measurement
row_of step_id def_id attempt v = record {
  job_step_id = step_id;
  measurement_id = def_id;
  value = v;
  is_within_range = true;
  attempt = attempt;
}

-- The definition that the loop has just passed is recorded.
Recorded-head :
    (step_id attempt : ℕ) (ms : List Submitted) (d : MeasurementDef) (ds : List MeasurementDef)
    → (check_all step_id attempt ms (d ∷ ds)).valid ≡ true
    → Recorded step_id attempt (check_all step_id attempt ms (d ∷ ds)).rows d
unfolding check_all stored_value
Recorded-head step_id attempt ms d ds valid needed =
    by_check (check_value d (submitted_value d.id ms)) refl valid
  where
    by_check :
        (k : Check)
        → check_value d (submitted_value d.id ms) ≡ k
        → (add_check step_id attempt d.id k (check_all step_id attempt ms ds)).valid ≡ true
        → (m : Measurement) × (stored_value step_id d.id attempt
              (add_check step_id attempt d.id k (check_all step_id attempt ms ds)).rows
            ≡ some m)
          × (within_range d m.value ≡ true)
    by_check problem e valid = absurd (ground arith)
    by_check skipped e valid = absurd (check_value-unskipped d (submitted_value d.id ms) needed e)
    by_check (stored v) e valid =
        let (given, fits) = check_value-stored d (submitted_value d.id ms) v e in
        elim (Option-cases
          (stored_value step_id d.id attempt (check_all step_id attempt ms ds).rows)) [
            | inl nothing ↦ (
              row_of step_id d.id attempt v,
              stored_value-head _ (check_all step_id attempt ms ds).rows nothing,
              fits,
            )
            | inr (n, seen) ↦
                let put : v ≡ n.value =
                  some-eq _ v n.value given (check_all-value step_id attempt d.id ms ds n seen) in
                (
                  n,
                  stored_value-append step_id d.id attempt (row_of step_id d.id attempt v ∷ [])
                      (check_all step_id attempt ms ds).rows n seen,
                  subst (λ w. within_range d w ≡ true) put fits,
                )
          ]

add_check-valid :
    (step_id attempt id : ℕ) (k : Check) (rest : Checked)
    → (add_check step_id attempt id k rest).valid ≡ true
    → rest.valid ≡ true
add_check-valid step_id attempt id problem rest h = absurd (ground arith)
add_check-valid step_id attempt id skipped rest h = h
add_check-valid step_id attempt id (stored v) rest h = h

pub check_all-Recorded :
    (step_id attempt : ℕ) (ms : List Submitted) (ds : List MeasurementDef)
    → (check_all step_id attempt ms ds).valid ≡ true
    → All (Recorded step_id attempt (check_all step_id attempt ms ds).rows) ds
unfolding check_all
check_all-Recorded step_id attempt ms [] h = tt
check_all-Recorded step_id attempt ms (d ∷ ds) h = (
  Recorded-head step_id attempt ms d ds h,
  Recorded-add step_id attempt d.id (check_value d (submitted_value d.id ms))
      (check_all step_id attempt ms ds) ds
      (check_all-Recorded step_id attempt ms ds
        (add_check-valid step_id attempt d.id (check_value d (submitted_value d.id ms)) _ h)),
)

-- A definition that is required has a submitted value in its range, and a row with what the column
-- makes of that value.
pub record Stored (ms : List Submitted) (step_id attempt : ℕ) (rows : List Measurement)
    (d : MeasurementDef) : Type 0 where
  pub value : Dyadic
  pub row : Measurement
  pub submitted : submitted_value d.id ms ≡ some value
  pub in_range : within_range d value ≡ true
  pub found : stored_value step_id d.id attempt rows ≡ some row
  pub holds : row.value ≡ column_value value

stored_value-store_rows :
    (step_id def_id attempt : ℕ) (rows : List Measurement)
    → stored_value step_id def_id attempt (store_rows rows)
      ≡ mathlib.Core.Option.map store_row (stored_value step_id def_id attempt rows)
unfolding stored_value store_rows
stored_value-store_rows step_id def_id attempt [] = refl
stored_value-store_rows step_id def_id attempt (x ∷ rows) =
    let later = stored_value-store_rows step_id def_id attempt rows in
    elim (Option-cases (stored_value step_id def_id attempt rows)) [
      | inr (n, seen) ↦ rw (later, seen) refl
      | inl nothing ↦
          elim (Bool-cases
            (x.job_step_id == step_id && (x.measurement_id == def_id && x.attempt == attempt))) [
              | inl hit ↦ rw (later, nothing, hit) refl
              | inr miss ↦ rw (later, nothing, miss) refl
            ]
    ]

each-Stored :
    (ms : List Submitted) (step_id attempt : ℕ) (old : List Measurement)
    (all ds : List MeasurementDef)
    → All (Recorded step_id attempt (check_all step_id attempt ms all).rows) ds
    → All
        (λ d.
          d.required ≡ true
          → Stored ms step_id attempt (old ++ store_rows (check_all step_id attempt ms all).rows) d)
        ds
each-Stored ms step_id attempt old all [] h = tt
each-Stored ms step_id attempt old all (d ∷ ds) (h, hs) = (
  λ needed.
      let (m, seen, fits) = h needed in
      record {
        value = m.value;
        row = store_row m;
        submitted = check_all-value step_id attempt d.id ms all m seen;
        in_range = fits;
        found = stored_value-append step_id d.id attempt old _ (store_row m) (
            stored_value-store_rows step_id d.id attempt _
            ∙ ap (mathlib.Core.Option.map store_row) seen);
        holds = refl;
      },
  each-Stored ms step_id attempt old all ds hs,
)

-- What the check of a step's values leaves in the table.
pub check_all-Stored :
    (ms : List Submitted) (step_id attempt : ℕ) (old : List Measurement) (ds : List MeasurementDef)
    → (check_all step_id attempt ms ds).valid ≡ true
    → All
        (λ d.
          d.required ≡ true
          → Stored ms step_id attempt (old ++ store_rows (check_all step_id attempt ms ds).rows) d)
        ds
check_all-Stored ms step_id attempt old ds h =
    each-Stored ms step_id attempt old ds ds (check_all-Recorded step_id attempt ms ds h)
