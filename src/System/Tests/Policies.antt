-- ===== src/System/Tests/Policies.antt =====
-- The theorems of roles and of the risk policy at work on a small store.
use easygas_guide_server.Common.{
  ℕ, Bool, true, false, Option, none, some, List, [], ◌∷◌, ◌≡◌, ◌≢◌, refl, arith, Text, text, find,
  ◌==◌, count, ◌≤◌, All, ◌⊎◌, ◌&&◌, Memᴰ,
}
use easygas_guide_server.Rbac.{can}
use easygas_guide_server.Risk.{
  Level, critical, level_order, Source, manual, stop_rejected, whole, classify, compute_risk,
  MatrixDefinition, v1_definition, level_of, first_level, validate_definition, parsed_definition,
  nan, low, number, converted,
}
use easygas_guide_server.Risk.Matrix.{classify-v1-compute_risk}
use easygas_guide_server.RiskPolicy.{get_active_matrix, activate_matrix}
use easygas_guide_server.RiskPolicy.Governance.{activate_one_policy}
use easygas_guide_server.Store.{Db, JobStatus, Matrix, is_active}
use easygas_guide_server.System.Fixtures.{inspector, the_draft, finished, after}

abbrev rejected : Db
rejected = finished JobStatus.rejected

classify-v1-compute_risk_example :
    classify v1_definition (whole 4) (whole 2) manual ≡ compute_risk (whole 4) (whole 2) manual
classify-v1-compute_risk_example = classify-v1-compute_risk (whole 4) (whole 2) manual

-- A minimum is missing in the second threshold, so that no comparison finds the third out of order.
abbrev unordered : MatrixDefinition
unordered = record v1_definition {
  thresholds =
      record { min = number (whole 0); level = low }
      ∷ record { min = converted nan none; level = low }
      ∷ record { min = number (whole 12); level = critical }
      ∷ [];
}

unordered_accepted : validate_definition (some (parsed_definition unordered)) ≡ some []
unfolding validate_definition parsed_definition
unordered_accepted = refl

unordered_low : (classify unordered (whole 3) (whole 4) manual).level ≡ low
unfolding classify easygas_guide_server.Risk.clamp_int
unordered_low = refl

abbrev switched : Db
switched = after (activate_matrix inspector (text "v2") (text "y") 70 rejected) rejected

activate_one_policy_example :
    All (λ m. is_active m.status ≡ true → m.id ≡ 61) switched.matrices
    × ((m : Matrix) × (get_active_matrix switched ≡ some m) × (m.id ≡ 61))
unfolding find easygas_guide_server.Common.text_eq text activate_matrix can
    easygas_guide_server.Common.is_blank validate_definition parsed_definition
activate_one_policy_example =
    activate_one_policy inspector (text "v2") (text "y") 70 the_draft rejected switched refl
      (refl, (refl, tt)) refl
