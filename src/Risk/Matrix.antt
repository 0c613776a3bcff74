-- ===== src/Risk/Matrix.antt =====
-- The governed classification against the fixed matrix, its bounds, and what a definition that
-- passes validation guarantees.
use easygas_guide_server.Common.{
  ℕ, ◌*◌, ◌^◌, ◌≤◌, true, not, List, [], ◌∷◌, ◌++◌, leb, any, ◌≡◌, refl, sym, ◌∙◌, ap, Option, none,
  some, some-eq, inl, inr, arith, All, false, Bool-cases,
}
use easygas_guide_server.Risk.{
  Level, critical, level_order, level_eq, Source, Num, whole, num_le, to_number, clamp_int,
  compute_risk, Assessed, Threshold, ThresholdInput, MatrixDefinition, DefinitionInput,
  v1_definition, first_level, level_of, classify, overridden, finite, infinite, nan, has_none, when,
  validate_definition, problems_of, read_items, threshold_items, level_items, parsed_definition,
  threshold_problems, blocking_problems, is_critical, is_other, unsupported_algorithm,
  severity_required, likelihood_required, no_catch_all,
}

pub clamp_bounds : (v : Num) → (1 ≤ clamp_int v) × (clamp_int v ≤ 4)
unfolding clamp_int
clamp_bounds v = ground arith

num_le-whole : (a b : ℕ) → num_le (whole a) (whole b) ≡ leb a b
unfolding num_le
num_le-whole a b = ground arith

-- The governed classification under the v1 definition is the fixed matrix: the same score, level
-- and blocking flag for every severity, likelihood and source.
pub classify-v1-compute_risk :
    (severity likelihood : Num) (source : Source)
    → classify v1_definition severity likelihood source ≡ compute_risk severity likelihood source
unfolding classify compute_risk
classify-v1-compute_risk severity likelihood source =
    ground (arith, clamp_bounds severity, clamp_bounds likelihood)

product_bounds : (s l : ℕ) → 1 ≤ s → s ≤ 4 → 1 ≤ l → l ≤ 4 → (1 ≤ s * l) × (s * l ≤ 16)
product_bounds s l a b c d = (grind arith, grind arith)

-- Whatever is submitted and whatever the definition, the score lies in 1..16.
pub classify_score_bounds :
    (def : MatrixDefinition) (severity likelihood : Num) (source : Source)
    → let r = classify def severity likelihood source in (1 ≤ r.score) × (r.score ≤ 16)
unfolding classify
classify_score_bounds def severity likelihood source =
    let (a, b) = clamp_bounds severity in
    let (c, d) = clamp_bounds likelihood in
    product_bounds (clamp_int severity) (clamp_int likelihood) a b c d

product_mono : (s s' l l' : ℕ) → s ≤ s' → l ≤ l' → s * l ≤ s' * l'
product_mono s s' l l' a b = grind arith

-- Under the v1 definition a higher severity, up to 4, and a higher likelihood never lower the
-- level.
pub level_of-v1_mono :
    (s s' l l' : ℕ) (source : Source)
    → s ≤ s'
    → l ≤ l'
    → s' ≤ 4
    → level_order (level_of v1_definition s l source)
      ≤ level_order (level_of v1_definition s' l' source)
unfolding level_of
level_of-v1_mono s s' l l' source a b c = ground (arith, product_mono s s' l l' a b)

append-nil-both : {A : Type 0} (xs ys : List A) → xs ++ ys ≡ [] → (xs ≡ []) × (ys ≡ [])
append-nil-both [] ys h = (refl, h)
append-nil-both (x ∷ xs) ys h = ground arith

-- What the thresholds of a stored definition that has no problem guarantee: one of them is at most 1,
-- and CRITICAL blocks.
record Accepted (d : MatrixDefinition) : Type 0 where
  catch_all : any (λ t. num_le (to_number t.min) (whole 1)) d.thresholds ≡ true
  blocking : any (level_eq critical) d.blocking_levels ≡ true

abbrev inputs_of : List Threshold → List ThresholdInput
inputs_of [] = []
inputs_of (t ∷ ts) = record { min = t.min; level = some t.level } ∷ inputs_of ts

read_items-threshold_items :
    (ts : List Threshold) → read_items (threshold_items ts) ≡ some (inputs_of ts)
unfolding read_items threshold_items
read_items-threshold_items [] = refl
read_items-threshold_items (t ∷ ts) = rw (read_items-threshold_items ts) refl

any-inputs_of :
    (ts : List Threshold)
    → any (λ t. num_le (to_number t.min) (whole 1)) (inputs_of ts)
      ≡ any (λ t. num_le (to_number t.min) (whole 1)) ts
unfolding any
any-inputs_of [] = refl
any-inputs_of (t ∷ ts) = rw (any-inputs_of ts) refl

catch_all_of :
    (ts : List Threshold)
    → threshold_problems (some (inputs_of ts)) ≡ []
    → any (λ t. num_le (to_number t.min) (whole 1)) ts ≡ true
unfolding threshold_problems
catch_all_of [] h = absurd (ground arith)
catch_all_of (t ∷ ts) h =
    let (a, _) =
      append-nil-both
        (when (not (any (λ u. num_le (to_number u.min) (whole 1)) (inputs_of (t ∷ ts))))
          no_catch_all)
        _ h in
    let b : any (λ u. num_le (to_number u.min) (whole 1)) (inputs_of (t ∷ ts)) ≡ true =
      ground arith in
    sym (any-inputs_of (t ∷ ts)) ∙ b

any-level_items : (ls : List Level) → any is_critical (level_items ls) ≡ any (level_eq critical) ls
unfolding any level_items
any-level_items [] = refl
any-level_items (l ∷ ls) = rw (any-level_items ls) refl

critical_blocks :
    (ls : List Level)
    → blocking_problems (some (level_items ls)) ≡ []
    → any (level_eq critical) ls ≡ true
unfolding blocking_problems level_items
critical_blocks [] h = absurd (ground arith)
critical_blocks (l ∷ ls) h =
    let b : any is_critical (level_items (l ∷ ls)) ≡ true = ground arith in
    sym (any-level_items (l ∷ ls)) ∙ b

no_problems :
    (d : DefinitionInput) (ts : List ThresholdInput)
    → problems_of d (some ts) ≡ []
    → (threshold_problems (some ts) ≡ []) × (blocking_problems d.blocking_levels ≡ [])
unfolding problems_of
no_problems d ts h =
    let (_, h1) = append-nil-both (when (is_other d.algorithm) unsupported_algorithm) _ h in
    let (_, h2) = append-nil-both (when (has_none d.allowed_severity) severity_required) _ h1 in
    let (_, h3) = append-nil-both (when (has_none d.allowed_likelihood) likelihood_required) _ h2 in
    let (t, h4) = append-nil-both (threshold_problems (some ts)) _ h3 in
    (t, (append-nil-both (blocking_problems d.blocking_levels) _ h4).0)

validate_parsed :
    (d : MatrixDefinition)
    → validate_definition (some (parsed_definition d))
      ≡ some (problems_of (parsed_definition d) (some (inputs_of d.thresholds)))
unfolding validate_definition parsed_definition
validate_parsed d = rw (read_items-threshold_items d.thresholds) refl

accepted :
    (d : MatrixDefinition) → validate_definition (some (parsed_definition d)) ≡ some [] → Accepted d
unfolding parsed_definition
accepted d valid =
    let (t, b) =
      no_problems (parsed_definition d) (inputs_of d.thresholds)
        (some-eq _ _ _ (validate_parsed d) valid) in
    record {
      catch_all = catch_all_of d.thresholds t;
      blocking = critical_blocks d.blocking_levels b;
    }

-- The threshold that decides a classification: the first one in the list whose minimum the score
-- reaches.
pub record Decides (d : MatrixDefinition) (source : Source) (r : Assessed) : Type 0 where
  pub before : List Threshold
  pub threshold : Threshold
  pub after : List Threshold
  pub listed : d.thresholds ≡ before ++ threshold ∷ after
  pub missed : All (λ t. num_le (to_number t.min) (whole r.score) ≡ false) before
  pub reached : num_le (to_number threshold.min) (whole r.score) ≡ true
  pub plain :
      d.source_overrides source ≡ none → d.severity4_min_level ≡ none → r.level ≡ threshold.level
  pub raised : d.source_overrides source ≡ none → level_order threshold.level ≤ level_order r.level
  pub forced : (o : Level) → d.source_overrides source ≡ some o → r.level ≡ o
  pub in_bounds : (1 ≤ r.score) × (r.score ≤ 16)
  pub blocks : r.level ≡ critical → r.blocking ≡ true

-- The first threshold that a score reaches, where there is one.
record Earliest (score : Num) (ts : List Threshold) : Type 0 where
  before : List Threshold
  threshold : Threshold
  after : List Threshold
  listed : ts ≡ before ++ threshold ∷ after
  missed : All (λ t. num_le (to_number t.min) score ≡ false) before
  reached : num_le (to_number threshold.min) score ≡ true
  level : first_level score ts ≡ threshold.level

first_level-Earliest :
    (score : Num) (ts : List Threshold)
    → any (λ t. num_le (to_number t.min) score) ts ≡ true
    → Earliest score ts
unfolding first_level any
first_level-Earliest score [] h = absurd (ground arith)
first_level-Earliest score (t ∷ ts) h = elim (Bool-cases (num_le (to_number t.min) score)) [
  | inl hit ↦ record {
    before = [];
    threshold = t;
    after = ts;
    listed = refl;
    missed = tt;
    reached = hit;
    level = rw hit refl;
  }
  | inr miss ↦
      let f = first_level-Earliest score ts (rw miss at h) in
      record {
        before = t ∷ f.before;
        threshold = f.threshold;
        after = f.after;
        listed = ap (λ us. t ∷ us) f.listed;
        missed = (miss, f.missed);
        reached = f.reached;
        level = rw miss f.level;
      }
]

-- What the overrides make of the level of a threshold.
level_plain :
    (o floor : Option Level) (s : ℕ) (x y : Level)
    → x ≡ y
    → o ≡ none
    → floor ≡ none
    → overridden o floor s x ≡ y
level_plain none none s x y h e k = h
level_plain (some v) floor s x y h e k = absurd (ground arith)
level_plain none (some v) s x y h e k = absurd (ground arith)

level_raised :
    (o floor : Option Level) (s : ℕ) (x y : Level)
    → x ≡ y
    → o ≡ none
    → level_order y ≤ level_order (overridden o floor s x)
level_raised (some v) floor s x y h e = absurd (ground arith)
level_raised none none s x y h e = rw h (omega arith)
level_raised none (some v) s x y h e = rw h (ground arith)

level_forced :
    (o floor : Option Level) (s : ℕ) (x v : Level) → o ≡ some v → overridden o floor s x ≡ v
level_forced o floor s x v e = rw e refl

product_le : (m u score : ℕ) → m ≤ u → 1 ≤ score → m ≤ score * u
product_le m u score h pos = grind arith

-- A minimum of at most 1 is reached by every positive score.
num_le-positive :
    (n : Num) (score : ℕ) → 1 ≤ score → num_le n (whole 1) ≡ true → num_le n (whole score) ≡ true
unfolding num_le
num_le-positive nan score pos h = absurd (ground arith)
num_le-positive (infinite negative) score pos h = h
num_le-positive (finite d) score pos h =
    ground (arith, product_le d.mantissa (2 ^ d.exponent) score)

any-positive :
    (ts : List Threshold) (score : ℕ)
    → 1 ≤ score
    → any (λ t. num_le (to_number t.min) (whole 1)) ts ≡ true
    → any (λ t. num_le (to_number t.min) (whole score)) ts ≡ true
unfolding any
any-positive [] score pos h = absurd (ground arith)
any-positive (t ∷ ts) score pos h = elim (Bool-cases (num_le (to_number t.min) (whole 1))) [
  | inl hit ↦ rw (num_le-positive (to_number t.min) score pos hit) refl
  | inr miss ↦ ground (arith, any-positive ts score pos (rw miss at h))
]

pub validate_definition-Decides :
    (d : MatrixDefinition) (severity likelihood : Num) (source : Source)
    → validate_definition (some (parsed_definition d)) ≡ some []
    → Decides d source (classify d severity likelihood source)
unfolding classify level_of
validate_definition-Decides d severity likelihood source valid =
    let a = accepted d valid in
    let s = clamp_int severity in
    let l = clamp_int likelihood in
    let bounds = classify_score_bounds d severity likelihood source in
    let f =
      first_level-Earliest (whole (s * l)) d.thresholds
        (any-positive d.thresholds (s * l) bounds.0 a.catch_all) in
    record {
      before = f.before;
      threshold = f.threshold;
      after = f.after;
      listed = f.listed;
      missed = f.missed;
      reached = f.reached;
      plain = level_plain (d.source_overrides source) d.severity4_min_level s _ _ f.level;
      raised = level_raised (d.source_overrides source) d.severity4_min_level s _ _ f.level;
      forced = λ o e. level_forced (d.source_overrides source) d.severity4_min_level s _ o e;
      in_bounds = bounds;
      blocks = λ e. rw e a.blocking;
    }

-- Under a definition without problems every CRITICAL classification blocks completion.
pub classify_critical_blocks :
    (d : MatrixDefinition) (severity likelihood : Num) (source : Source)
    → validate_definition (some (parsed_definition d)) ≡ some []
    → (classify d severity likelihood source).level ≡ critical
    → (classify d severity likelihood source).blocking ≡ true
classify_critical_blocks d severity likelihood source valid h =
    (validate_definition-Decides d severity likelihood source valid).blocks h
