-- ===== src/System/Tests/Templates.antt =====
-- The theorems of checklist templates at work.
use easygas_guide_server.Common.{
  ℕ, ◌≤◌, ◌<◌, Bool, true, false, Option, none, some, List, [], ◌∷◌, ◌≡◌, refl, arith, Text, text,
  All, count, ◌==◌,
}
use easygas_guide_server.Api.{Result, ok, err}
use easygas_guide_server.Templates.{
  Version, VersionStatus, Step, StepBody, StepInput, TemplateDb, add_step,
}
use easygas_guide_server.Templates.Versions.{draft_of, published_of}
use easygas_guide_server.Templates.Runs.{Request, Run, serve, IsSound, Run-IsSound}
use easygas_guide_server.Templates.Frozen.{IsFrozen, IsKeyed, version_steps, serve-frozen}

abbrev body : StepBody
body = record {
  name = text "Hose";
  description = none;
  requirements = none;
  is_stop = false;
  risk_weight = 1;
  required_photos = 0;
}

abbrev version : ℕ → ℕ → VersionStatus → Version
version id number status = record {
  id = id;
  template_id = 1;
  version = number;
  status = status;
  published_at = none;
  created_by = 9;
}

abbrev step : ℕ → ℕ → Step
step id version_id = record { id = id; version_id = version_id; sort_order = 1; body = body }

-- A template with a published version and a draft, each with a step.
abbrev store : TemplateDb
store = record {
  templates = record { id = 1; name = text "LPG"; description = none; created_by = 9 } ∷ [];
  versions = version 2 1 VersionStatus.published ∷ version 4 2 VersionStatus.draft ∷ [];
  steps = step 3 2 ∷ step 5 4 ∷ [];
  defs = [];
  used_versions = [];
  used_steps = [];
  audit = [];
  next_id = 6;
}

abbrev same : Text → Text
same s = s

abbrev after : Result TemplateDb → TemplateDb
after (ok db) = db
after (err e) = store

drafts : (t : ℕ) → count (draft_of t) store.versions ≤ 1
unfolding count draft_of
drafts t = ground arith

published : (t : ℕ) → count (published_of t) store.versions ≤ 1
unfolding count published_of
published t = ground arith

version_keys : (id : ℕ) → count (λ (v : Version). v.id == id) store.versions ≤ 1
unfolding count
version_keys id = ground arith

store-IsSound : IsSound store
unfolding IsSound
store-IsSound = record {
  drafts = drafts;
  published = published;
  keyed = version_keys;
  old_ids = (ground arith, (ground arith, tt));
  old_templates = (ground arith, (ground arith, tt));
  known = (ground arith, tt);
}

abbrev publishes : Request
publishes = Request.publishes 1 4

Run-IsSound_example : IsSound (after (serve same 9 7 publishes store))
unfolding serve easygas_guide_server.Templates.publish_version easygas_guide_server.Common.find
    count
Run-IsSound_example =
    Run-IsSound same store (after (serve same 9 7 publishes store)) store-IsSound (
      Run.serves {db = store} 9 7 publishes (after (serve same 9 7 publishes store)) refl
        Run.begins)

-- The published version's step is not a step of the draft that is edited.
frozen : IsFrozen 2 store
unfolding IsFrozen
frozen = ((λ e. refl), ((λ e. absurd (ground arith)), tt))

keyed : IsKeyed store.steps
unfolding IsKeyed count
keyed id = ground arith

abbrev deletes : Request
deletes = Request.deletes_step 1 4 5

serve-frozen_example :
    version_steps 2 (after (serve same 9 7 deletes store)) ≡ version_steps 2 store
unfolding serve easygas_guide_server.Templates.delete_step easygas_guide_server.Common.find
serve-frozen_example =
    serve-frozen same 9 7 deletes 2 store (after (serve same 9 7 deletes store)) refl refl frozen
      keyed
