-- ===== src/RiskPolicy/Governance.antt =====
-- The activation of a matrix version leaves one policy in force.
use easygas_guide_server.Common.{
  ℕ, Bool, true, false, not, some, List, [], ◌∷◌, ◌==◌, ◌≡◌, refl, sym, ◌∙◌, arith, find, filter,
  update, All, All-update, Option-cases, Bool-cases, inl, inr, ap, is_some, Text, text_eq, is_blank,
  find-true, ==-eq, ==-refl, Listed, Listed-update, Listed-none, Listed-filter, All-find, some-eq,
  trim,
}
use easygas_guide_server.Api.{Code, ok, present-ok, require-ok, ok-injective}
use easygas_guide_server.Rbac.{Actor, can, risk_matrix_approve}
use easygas_guide_server.Risk.{is_nil, validate_definition, parsed_definition}
use easygas_guide_server.Store.{Db, Matrix, MatrixStatus, is_active, is_retired}
use easygas_guide_server.RiskPolicy.{
  get_active_matrix, find_version, is_other_active, retire_all, activate_matrix,
}

retired_row : ℕ → Matrix → Matrix
retired_row target m = record m { status = MatrixStatus.retired; superseded_by = some target }

-- Retiring the listed rows leaves no other ACTIVE row.
retire_all-clears :
    (version : Text) (user target : ℕ) (rs : List Matrix) (db : Db)
    → Listed (λ (m : Matrix). m.id) (is_other_active version) rs db.matrices
    → All (λ m. is_other_active version m ≡ false) (retire_all user target rs db).matrices
unfolding retire_all is_other_active
retire_all-clears version user target [] db h = Listed-none _ _ db.matrices h
retire_all-clears version user target (r ∷ rs) db h =
    retire_all-clears version user target rs _
      (Listed-update _ (is_other_active version) _ r rs db.matrices (λ m. refl) h)

-- Writing a status keeps the ids.
has_id : ℕ → List Matrix → Bool
has_id id ms = is_some (find (λ m. m.id == id) ms)

has_id-update :
    (id : ℕ) (q : Matrix → Bool) (f : Matrix → Matrix) (ms : List Matrix)
    → ((m : Matrix) → (f m).id ≡ m.id)
    → has_id id ms ≡ true
    → has_id id (update q f ms) ≡ true
unfolding has_id find update
has_id-update id q f [] keeps h = h
has_id-update id q f (m ∷ ms) keeps h = ground (arith, keeps m, has_id-update id q f ms keeps)

retire_all-has_id :
    (id user target : ℕ) (rs : List Matrix) (db : Db)
    → has_id id db.matrices ≡ true
    → has_id id (retire_all user target rs db).matrices ≡ true
unfolding retire_all
retire_all-has_id id user target [] db h = h
retire_all-has_id id user target (r ∷ rs) db h =
    retire_all-has_id id user target rs _
      (has_id-update id (λ m. m.id == r.id) _ db.matrices (λ m. refl) h)

find_version-has_id :
    (version : Text) (ms : List Matrix) (m : Matrix)
    → find_version version ms ≡ some m
    → has_id m.id ms ≡ true
unfolding has_id find
find_version-has_id version [] m h = absurd (ground arith)
find_version-has_id version (x ∷ ms) m h =
    ground (arith, ==-refl m.id, find_version-has_id version ms m)

-- The row with an id becomes ACTIVE.
activated_found :
    (id : ℕ) (f : Matrix → Matrix) (ms : List Matrix)
    → ((m : Matrix) → is_active (f m).status ≡ true)
    → has_id id ms ≡ true
    → is_some (find (λ m. is_active m.status) (update (λ m. m.id == id) f ms)) ≡ true
unfolding has_id find update
activated_found id f [] acts h = h
activated_found id f (m ∷ ms) acts h = ground (arith, acts m, activated_found id f ms acts)

-- The primary key and the unique version agree on the target.
abbrev pub Keyed : Text → ℕ → List Matrix → Type 0
Keyed version id = All (λ m. (m.id == id) ≡ text_eq m.version version)

retire_all-Keyed :
    (version : Text) (id user target : ℕ) (rs : List Matrix) (db : Db)
    → Keyed version id db.matrices
    → Keyed version id (retire_all user target rs db).matrices
unfolding retire_all
retire_all-Keyed version id user target [] db h = h
retire_all-Keyed version id user target (r ∷ rs) db h =
    retire_all-Keyed version id user target rs _
      (All-update (λ m. (m.id == id) ≡ text_eq m.version version) _ _ db.matrices (λ m k. k) h)

only_target :
    (version : Text) (id : ℕ) (f : Matrix → Matrix) (ms : List Matrix)
    → ((m : Matrix) → (f m).id ≡ m.id)
    → Keyed version id ms
    → All (λ m. is_other_active version m ≡ false) ms
    → All (λ m. is_active m.status ≡ true → m.id ≡ id) (update (λ m. m.id == id) f ms)
unfolding update is_other_active
only_target version id f [] keeps keyed h = tt
only_target version id f (m ∷ ms) keeps keyed h = (
  elim (Bool-cases (m.id == id)) [
    | inl hit ↦ rw hit (λ k. keeps m ∙ ==-eq m.id id hit)
    | inr miss ↦ rw miss (λ k. absurd (ground (arith, keyed.0, h.0)))
  ],
  only_target version id f ms keeps keyed.1 h.1,
)

-- What an activation writes: the others retired, then the target activated.
activate_matrix-writes :
    (actor : Actor) (version rationale : Text) (now : ℕ) (target : Matrix) (db : Db) {r : Db}
    → find_version version db.matrices ≡ some target
    → activate_matrix actor version rationale now db ≡ ok r
    → r.matrices
      ≡ update
          (λ m. m.id == target.id)
          (λ m. record m {
            status = MatrixStatus.active;
            approved_by = some actor.id;
            approved_at = some now;
            rationale = some (trim rationale);
          })
          (retire_all actor.id target.id (filter (is_other_active version) db.matrices) db).matrices
unfolding activate_matrix
activate_matrix-writes actor version rationale now target db found h =
    let (_, h1) = require-ok (can actor.role risk_matrix_approve) Code.forbidden _ h in
    let (_, h2) = require-ok (not (is_blank rationale)) Code.rationale_required _ h1 in
    let (t, seen, h3) = present-ok (find_version version db.matrices) Code.not_found _ h2 in
    let (_, h4) = require-ok (not (is_retired t.status)) Code.matrix_retired _ h3 in
    let (problems, _, h5) =
      present-ok (validate_definition (some (parsed_definition t.definition))) Code.internal_error _
        h4 in
    let (_, h6) = require-ok (is_nil problems) Code.invalid_matrix _ h5 in
    let same : t ≡ target = some-eq _ t target seen found in
    rw (← same) (ap (λ x. x.matrices) (sym (ok-injective h6)))

-- After an activation the active policy is the target version, and no other row is ACTIVE, where
-- the primary key and the unique version agree on the target.
pub activate_one_policy :
    (actor : Actor) (version rationale : Text) (now : ℕ) (target : Matrix) (db r : Db)
    → find_version version db.matrices ≡ some target
    → Keyed version target.id db.matrices
    → activate_matrix actor version rationale now db ≡ ok r
    → All (λ m. is_active m.status ≡ true → m.id ≡ target.id) r.matrices
      × ((m : Matrix) × (get_active_matrix r ≡ some m) × (m.id ≡ target.id))
unfolding get_active_matrix
activate_one_policy actor version rationale now target db r found keyed h =
    let others = filter (is_other_active version) db.matrices in
    let retired_rows = (retire_all actor.id target.id others db).matrices in
    let table = activate_matrix-writes actor version rationale now target db found h in
    let only : All (λ m. is_active m.status ≡ true → m.id ≡ target.id) r.matrices = rw table (
      only_target version target.id _ retired_rows (λ m. refl)
        (retire_all-Keyed version target.id actor.id target.id others db keyed)
        (retire_all-clears version actor.id target.id others db
          (Listed-filter _ (is_other_active version) db.matrices))) in
    let exists : is_some (find (λ m. is_active m.status) r.matrices) ≡ true = rw table (
      activated_found target.id _ retired_rows (λ m. refl)
        (retire_all-has_id target.id actor.id target.id others db
          (find_version-has_id version db.matrices target found))) in
    elim (Option-cases (find (λ m. is_active m.status) r.matrices)) [
      | inl nothing ↦ absurd (ground arith)
      | inr (m, seen) ↦
          let active = find-true (λ m. is_active m.status) r.matrices m seen in
          (only, (m, seen, All-find _ (λ m. is_active m.status) r.matrices m only seen active))
    ]
