-- ===== src/RiskPolicy.antt =====
-- src/modules/risk/risk-policy.service.ts: the governed matrix versions. A definition is
-- stored as what `JSON.parse` gives back of it; the pattern of version names is a parameter of `create_matrix_version`.
pub mod Governance
use easygas_guide_server.Common.{
  ℕ, ◌+◌, Bool, true, false, not, ◌&&◌, ◌||◌, Option, none, some, List, [], ◌∷◌, ◌++◌, ◌==◌, Text,
  trim, is_blank, text_eq, find, filter, update, any, is_some, if◌then◌else◌,
}
use easygas_guide_server.Api.{Code, Result, ok, err, ◌>>=◌, ◌>>◌, require, present}
use easygas_guide_server.Rbac.{Actor, can, risk_matrix_approve, services_view_all}
use easygas_guide_server.Risk.{
  Level, Source, manual, Num, Assessed, MatrixDefinition, DefinitionInput, is_nil, is_number,
  classify, validate_definition, stored_definition, parsed_definition,
}
use easygas_guide_server.Store.{
  Db, Matrix, MatrixStatus, is_active, is_retired, log_audit, risk_matrix_created,
  risk_matrix_activated, risk_matrix_retired, Entity,
}

-- The current ACTIVE matrix.
unfoldable pub get_active_matrix : Db → Option Matrix
unfolding find
get_active_matrix db = find (λ m. is_active m.status) db.matrices

unfoldable pub risk_policy_active : Db → Bool
unfolding get_active_matrix
risk_policy_active db = is_some (get_active_matrix db)

pub record Assessment : Type 0 where
  pub matrix_version : Text
  pub assessed : Assessed

-- Fails closed where no matrix is active.
unfoldable pub assess_risk : Db → Num → Num → Source → Result Assessment
unfolding get_active_matrix
assess_risk db severity likelihood source = do
  active ← present (get_active_matrix db) Code.risk_policy_not_approved
  ok (record {
    matrix_version = active.version;
    assessed = classify active.definition severity likelihood source;
  })

unfoldable pub assert_risk_policy_approved : Db → Result (Unit {0})
unfolding risk_policy_active
assert_risk_policy_approved db = require (risk_policy_active db) Code.risk_policy_not_approved

unfoldable pub can_read_matrices : Actor → Bool
can_read_matrices actor = can actor.role risk_matrix_approve || can actor.role services_view_all

abbrev pub find_version : Text → List Matrix → Option Matrix
find_version version = find (λ m. text_eq m.version version)

-- The illustrative classification: it reads a version and writes nothing.
unfoldable pub preview_classification : Actor → Text → Num → Num → Source → Db → Result Assessed
unfolding can_read_matrices any is_number
preview_classification actor version severity likelihood source db = do
  require (can_read_matrices actor) Code.forbidden
  row ← present (find_version version db.matrices) Code.not_found
  require (any (is_number severity) row.definition.allowed_severity) Code.invalid_severity
  require (any (is_number likelihood) row.definition.allowed_likelihood) Code.invalid_likelihood
  ok (classify row.definition severity likelihood source)

unfoldable pub create_matrix_version :
    (Text → Bool) → Actor → Text → Option DefinitionInput → Db → Result Db
unfolding validate_definition stored_definition
create_matrix_version version_name actor version submitted db = do
  require (can actor.role risk_matrix_approve) Code.forbidden
  require (version_name version) Code.invalid_version
  problems ← present (validate_definition submitted) Code.internal_error
  require (is_nil problems) Code.invalid_matrix
  input ← present submitted Code.invalid_matrix
  require (not (is_some (find_version version db.matrices))) Code.version_exists
  let row : Matrix = record {
    id = db.next_id;
    version = version;
    definition = stored_definition input;
    status = MatrixStatus.draft;
    superseded_by = none;
    approved_by = none;
    approved_at = none;
    rationale = none;
  }
  ok (
      log_audit actor.id risk_matrix_created (Entity.risk_matrix version)
        (record db { matrices = db.matrices ++ row ∷ []; next_id = db.next_id + 1 }))

-- The current ACTIVE rows other than the target.
unfoldable pub is_other_active : Text → Matrix → Bool
is_other_active version m = is_active m.status && not (text_eq m.version version)

-- The loop that retires them, each with its audit record.
unfoldable pub retire_all : ℕ → ℕ → List Matrix → Db → Db
retire_all user target [] db = db
retire_all user target (r ∷ rs) db = retire_all user target rs (
    log_audit user risk_matrix_retired (Entity.risk_matrix r.version) (record db {
      matrices =
          update (λ m. m.id == r.id)
            (λ m. record m { status = MatrixStatus.retired; superseded_by = some target })
            db.matrices;
    }))

unfoldable pub activate_matrix : Actor → Text → Text → ℕ → Db → Result Db
unfolding retire_all is_other_active validate_definition parsed_definition
activate_matrix actor version rationale now db = do
  require (can actor.role risk_matrix_approve) Code.forbidden
  require (not (is_blank rationale)) Code.rationale_required
  target ← present (find_version version db.matrices) Code.not_found
  require (not (is_retired target.status)) Code.matrix_retired
  problems ←
      present (validate_definition (some (parsed_definition target.definition))) Code.internal_error
  require (is_nil problems) Code.invalid_matrix
  let others = filter (is_other_active version) db.matrices
  let retired_db = retire_all actor.id target.id others db
  ok (
      log_audit actor.id risk_matrix_activated (Entity.risk_matrix version) (record retired_db {
        matrices =
            update (λ m. m.id == target.id)
              (λ m. record m {
                status = MatrixStatus.active;
                approved_by = some actor.id;
                approved_at = some now;
                rationale = some (trim rationale);
              })
              retired_db.matrices;
      }))

unfoldable pub retire_matrix : Actor → Text → Db → Result Db
retire_matrix actor version db = do
  require (can actor.role risk_matrix_approve) Code.forbidden
  row ← present (find_version version db.matrices) Code.not_found
  ok (
      if is_retired row.status
      then db
      else log_audit actor.id risk_matrix_retired (Entity.risk_matrix version) (record db {
        matrices =
            update (λ m. m.id == row.id) (λ m. record m { status = MatrixStatus.retired })
              db.matrices;
      }))
