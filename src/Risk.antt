-- ===== src/Risk.antt =====
-- src/modules/risk: the fixed matrix (risk-matrix.ts) and the governed matrix definitions
-- (classify and validateDefinition of risk-policy.service.ts). A severity or likelihood is a
-- double: finite, that is a signed dyadic fraction, or not.
pub mod Matrix
mod Doubles
unfoldable pub use Doubles.*
use easygas_guide_server.Common.{
  ℕ, zero, suc, ◌+◌, ◌*◌, ◌/◌, ◌^◌, min, max, Bool, true, false, not, ◌&&◌, ◌||◌, Option, none,
  some, List, [], ◌∷◌, ◌++◌, ◌==◌, leb, ltb, if◌then◌else◌, any,
}

pub data Level : Type 0 where
  low medium high critical : Level

pub data Source : Type 0 where
  manual stop_rejected measurement_out_of_range checklist_flag : Source

abbrev pub level_order : Level → ℕ
level_order low = 0
level_order medium = 1
level_order high = 2
level_order critical = 3

abbrev pub level_eq : Level → Level → Bool
level_eq a b = level_order a == level_order b

abbrev source_code : Source → ℕ
source_code manual = 0
source_code stop_rejected = 1
source_code measurement_out_of_range = 2
source_code checklist_flag = 3

abbrev pub source_eq : Source → Source → Bool
source_eq a b = source_code a == source_code b

-- `Math.round` of a number that is not negative: half up.
unfoldable pub round_half_up : ℕ → ℕ → ℕ
round_half_up m k = (2 * m + 2 ^ k) / (2 * 2 ^ k)

-- A negative number rounds to 0 or below, which `Math.max` lifts to 1.
unfoldable pub clamp_int : Num → ℕ
unfolding round_half_up
clamp_int (finite d) = if d.negative then 1 else min 4 (max 1 (round_half_up d.mantissa d.exponent))
clamp_int _ = 1

pub record Assessed : Type 0 where
  pub score : ℕ
  pub level : Level
  pub blocking : Bool

-- `computeRisk` of risk-matrix.ts; the version it adds is the constant 'v1'.
unfoldable pub compute_risk : Num → Num → Source → Assessed
compute_risk severity_in likelihood_in source =
    let severity = clamp_int severity_in in
    let score = severity * clamp_int likelihood_in in
    let base =
      if leb 12 score
      then critical
      else if leb 8 score
      then high
      else if leb 4 score
      then medium
      else low in
    let level =
      if source_eq source stop_rejected
      then critical
      else if severity == 4 && not (level_eq base critical)
      then high
      else base in
    record { score = score; level = level; blocking = level_eq level critical }

pub data Algorithm : Type 0 where
  severity_x_likelihood other_algorithm : Algorithm

pub record Threshold : Type 0 where
  pub min : Leaf
  pub level : Level

-- A definition that was accepted, as it is stored. The leaves are what the stored JSON holds there: the
-- type of the source is not checked.
pub record MatrixDefinition : Type 0 where
  pub algorithm : Algorithm
  pub allowed_severity : List Leaf
  pub allowed_likelihood : List Leaf
  pub thresholds : List Threshold
  pub blocking_levels : List Level
  pub source_overrides : Source → Option Level
  pub severity4_min_level : Option Level

abbrev v1_override : Source → Option Level
v1_override stop_rejected = some critical
v1_override _ = none

abbrev pub v1_definition : MatrixDefinition
v1_definition = record {
  algorithm = severity_x_likelihood;
  allowed_severity = number (whole 1) ∷ number (whole 2) ∷ number (whole 3) ∷ number (whole 4) ∷ [];
  allowed_likelihood =
      number (whole 1) ∷ number (whole 2) ∷ number (whole 3) ∷ number (whole 4) ∷ [];
  thresholds =
      record { min = number (whole 12); level = critical }
      ∷ record { min = number (whole 8); level = high }
      ∷ record { min = number (whole 4); level = medium }
      ∷ record { min = number (whole 0); level = low }
      ∷ [];
  blocking_levels = critical ∷ [];
  source_overrides = v1_override;
  severity4_min_level = some high;
}

-- The loop over the thresholds: the first that the score reaches, else the initial 'LOW'.
unfoldable pub first_level : Num → List Threshold → Level
unfolding num_le
first_level score [] = low
first_level score (t ∷ ts) =
    if num_le (to_number t.min) score then t.level else first_level score ts

abbrev raise : Option Level → ℕ → Level → Level
raise none s level = level
raise (some floor) s level =
    if s == 4 && ltb (level_order level) (level_order floor) then floor else level

abbrev overridden : Option Level → Option Level → ℕ → Level → Level
overridden (some o) floor s level = o
overridden none floor s level = raise floor s level

-- The level of a rounded and clamped severity and likelihood.
unfoldable pub level_of : MatrixDefinition → ℕ → ℕ → Source → Level
unfolding first_level
level_of def s l source =
    overridden (def.source_overrides source) def.severity4_min_level s
      (first_level (whole (s * l)) def.thresholds)

unfoldable pub classify : MatrixDefinition → Num → Num → Source → Assessed
unfolding level_of any
classify def severity likelihood source =
    let s = clamp_int severity in
    let l = clamp_int likelihood in
    let level = level_of def s l source in
    record { score = s * l; level = level; blocking = any (level_eq level) def.blocking_levels }

pub data Problem : Type 0 where
  not_an_object unsupported_algorithm severity_required likelihood_required : Problem
  thresholds_required no_catch_all invalid_level not_descending : Problem
  blocking_required critical_must_block : Problem
  no_classification : Num → Problem

-- What is submitted as a definition: an object whose members may be anything. An array is none where
-- the member is no array, and a level is none where it is not one of RISK_LEVELS.
pub record ThresholdInput : Type 0 where
  pub min : Leaf
  pub level : Option Level

-- null has no members: reading one throws.
pub data ThresholdItem : Type 0 where
  null_item : ThresholdItem
  item : ThresholdInput → ThresholdItem

-- An override or a `severity4MinLevel` is not validated; here it is a level or missing.
pub record DefinitionInput : Type 0 where
  pub algorithm : Algorithm
  pub allowed_severity : Option (List Leaf)
  pub allowed_likelihood : Option (List Leaf)
  pub thresholds : Option (List ThresholdItem)
  pub blocking_levels : Option (List (Option Level))
  pub source_overrides : Source → Option Level
  pub severity4_min_level : Option Level

abbrev pub is_nil {ℓ} : {A : Type ℓ} → List A → Bool
is_nil [] = true
is_nil (x ∷ xs) = false

-- `!Array.isArray(a) || a.length === 0`
abbrev has_none {ℓ} : {A : Type ℓ} → Option (List A) → Bool
has_none none = true
has_none (some xs) = is_nil xs

abbrev when : Bool → Problem → List Problem
when true p = p ∷ []
when false p = []

unfoldable pub level_problems : List ThresholdInput → List Problem
level_problems [] = []
level_problems (t ∷ ts) =
    let rest = level_problems ts in elim t.level [ none ↦ invalid_level ∷ rest | some l ↦ rest ]

-- The comparison of each threshold with the one before it.
unfoldable pub descending_problems : List ThresholdInput → List Problem
unfolding leaf_lt
descending_problems [] = []
descending_problems (t ∷ []) = []
descending_problems (t ∷ u ∷ ts) =
    when (leaf_lt t.min u.min) not_descending ++ descending_problems (u ∷ ts)

unfoldable pub threshold_problems : Option (List ThresholdInput) → List Problem
unfolding level_problems descending_problems any num_le
threshold_problems none = thresholds_required ∷ []
threshold_problems (some []) = thresholds_required ∷ []
threshold_problems (some (t ∷ ts)) =
    when (not (any (λ u. num_le (to_number u.min) (whole 1)) (t ∷ ts))) no_catch_all
    ++ (level_problems (t ∷ ts) ++ descending_problems (t ∷ ts))

abbrev is_critical : Option Level → Bool
is_critical none = false
is_critical (some l) = level_eq critical l

unfoldable pub blocking_problems : Option (List (Option Level)) → List Problem
unfolding any
blocking_problems none = blocking_required ∷ []
blocking_problems (some []) = blocking_required ∷ []
blocking_problems (some (b ∷ bs)) = when (not (any is_critical (b ∷ bs))) critical_must_block

unfoldable pub row_problems : List ThresholdInput → Num → List Leaf → List Problem
unfolding any num_le times
row_problems ts s [] = []
row_problems ts s (l ∷ ls) =
    let score = times s (to_number l) in
    when (not (any (λ t. num_le (to_number t.min) score) ts)) (no_classification score)
    ++ row_problems ts s ls

unfoldable pub coverage_of : List ThresholdInput → List Leaf → List Leaf → List Problem
unfolding row_problems
coverage_of ts [] ls = []
coverage_of ts (s ∷ ss) ls = row_problems ts (to_number s) ls ++ coverage_of ts ss ls

-- Only where all three are arrays.
unfoldable pub coverage_problems :
    Option (List ThresholdInput) → Option (List Leaf) → Option (List Leaf) → List Problem
unfolding coverage_of
coverage_problems (some ts) (some ss) (some ls) = coverage_of ts ss ls
coverage_problems (some ts) (some ss) none = []
coverage_problems (some ts) none ls = []
coverage_problems none ss ls = []

is_other : Algorithm → Bool
is_other severity_x_likelihood = false
is_other other_algorithm = true

-- The checks in their order, for thresholds none of which is null.
unfoldable pub problems_of : DefinitionInput → Option (List ThresholdInput) → List Problem
unfolding is_other threshold_problems blocking_problems coverage_problems
problems_of d ts =
    when (is_other d.algorithm) unsupported_algorithm
    ++ (when (has_none d.allowed_severity) severity_required
        ++ (when (has_none d.allowed_likelihood) likelihood_required
            ++ (threshold_problems ts
                ++ (blocking_problems d.blocking_levels
                    ++ coverage_problems ts d.allowed_severity d.allowed_likelihood))))

-- The elements of `thresholds`, none where one of them is null.
unfoldable pub read_items : List ThresholdItem → Option (List ThresholdInput)
read_items [] = some []
read_items (null_item ∷ ts) = none
read_items (item t ∷ ts) =
    let rest = read_items ts in elim rest [ none ↦ none | some us ↦ some (t ∷ us) ]

abbrev problems_of_items : DefinitionInput → Option (List ThresholdInput) → Option (List Problem)
problems_of_items d none = none
problems_of_items d (some ts) = some (problems_of d (some ts))

abbrev problems_of_array : DefinitionInput → Option (List ThresholdItem) → Option (List Problem)
problems_of_array d none = some (problems_of d none)
problems_of_array d (some items) = problems_of_items d (read_items items)

-- `validateDefinition`; the argument is none where it is no object, the result none where it throws.
unfoldable pub validate_definition : Option DefinitionInput → Option (List Problem)
unfolding problems_of read_items
validate_definition none = some (not_an_object ∷ [])
validate_definition (some d) = problems_of_array d d.thresholds

abbrev reread_all : List Leaf → List Leaf
reread_all [] = []
reread_all (x ∷ xs) = reread x ∷ reread_all xs

abbrev elements {ℓ} : {A : Type ℓ} → Option (List A) → List A
elements none = []
elements (some xs) = xs

-- The entries with their levels; an accepted definition has no other.
unfoldable pub stored_thresholds : List ThresholdItem → List Threshold
stored_thresholds [] = []
stored_thresholds (null_item ∷ ts) = stored_thresholds ts
stored_thresholds (item t ∷ ts) =
    let rest = stored_thresholds ts in
    elim t.level [ none ↦ rest | some l ↦ record { min = reread t.min; level = l } ∷ rest ]

-- A blocking level that is none of RISK_LEVELS never equals a level.
unfoldable pub stored_levels : List (Option Level) → List Level
stored_levels [] = []
stored_levels (none ∷ ls) = stored_levels ls
stored_levels (some l ∷ ls) = l ∷ stored_levels ls

-- `JSON.stringify` of an accepted definition.
unfoldable pub stored_definition : DefinitionInput → MatrixDefinition
unfolding stored_thresholds stored_levels
stored_definition d = record {
  algorithm = d.algorithm;
  allowed_severity = reread_all (elements d.allowed_severity);
  allowed_likelihood = reread_all (elements d.allowed_likelihood);
  thresholds = stored_thresholds (elements d.thresholds);
  blocking_levels = stored_levels (elements d.blocking_levels);
  source_overrides = d.source_overrides;
  severity4_min_level = d.severity4_min_level;
}

unfoldable pub threshold_items : List Threshold → List ThresholdItem
threshold_items [] = []
threshold_items (t ∷ ts) = item (record { min = t.min; level = some t.level }) ∷ threshold_items ts

unfoldable pub level_items : List Level → List (Option Level)
level_items [] = []
level_items (l ∷ ls) = some l ∷ level_items ls

-- `JSON.parse` of a stored definition, as an activation validates it again.
unfoldable pub parsed_definition : MatrixDefinition → DefinitionInput
unfolding threshold_items level_items
parsed_definition d = record {
  algorithm = d.algorithm;
  allowed_severity = some d.allowed_severity;
  allowed_likelihood = some d.allowed_likelihood;
  thresholds = some (threshold_items d.thresholds);
  blocking_levels = some (level_items d.blocking_levels);
  source_overrides = d.source_overrides;
  severity4_min_level = d.severity4_min_level;
}

-- `Number.isFinite` is false of a value that is no number.
abbrev as_number : Leaf → Num
as_number (number n) = n
as_number (converted n t) = nan

-- `buildCells`: the classified grid, one row for each severity.
pub record Cell : Type 0 where
  pub severity : Leaf
  pub likelihood : Leaf
  pub assessed : Assessed

unfoldable pub build_row : MatrixDefinition → Leaf → List Leaf → List Cell
build_row def s [] = []
build_row def s (l ∷ ls) =
    record {
      severity = s;
      likelihood = l;
      assessed = classify def (as_number s) (as_number l) manual;
    }
    ∷ build_row def s ls

unfoldable pub build_cells : MatrixDefinition → List Leaf → List Cell
unfolding build_row
build_cells def [] = []
build_cells def (s ∷ ss) = build_row def s def.allowed_likelihood ++ build_cells def ss
