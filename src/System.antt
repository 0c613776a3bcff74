-- ===== src/System.antt =====
-- The operations of the modules as requests to one store, and sequences of them. A request that
-- fails leaves the store as it was, but for uploads, which record their failure.
pub mod Life
pub mod Tests
pub mod Visibility
pub mod Audit
pub mod Fixtures
use easygas_guide_server.Common.{ℕ, Bool, true, false, Option, none, some, List, [], ◌∷◌, Text}
use easygas_guide_server.Api.{Result, ok, err}
use easygas_guide_server.Rbac.{Actor}
use easygas_guide_server.Store.{Db}
use easygas_guide_server.Jobs.{
  create_job, start_job, cancel_job, update_installation, InstallationInput, reassign, unassign,
}
use easygas_guide_server.RiskEvents.{
  RiskInput, create_risk, resolve_risk, ReviseInput, revise_risk, override_risk,
}
use easygas_guide_server.Checklist.{Submitted, assign_checklist, complete_step, redo_step}
use easygas_guide_server.Checklist.Stop.{approve_stop, rework_stop, reject_stop}
use easygas_guide_server.Completion.{Stat}
use easygas_guide_server.Completion.Summary.{Digests}
use easygas_guide_server.Completion.Close.{close_job, reopen_job, confirm_quality}

-- `before` is the store that an unlocked check reads, before the locks are taken.
pub data Request : Type 0 where
  create : (customer vehicle : ℕ) → Request
  start : (job : ℕ) → Request
  cancel : (job : ℕ) (reason : Text) → Request
  install : (job : ℕ) (input : InstallationInput) → Request
  reassign_to : (job technician : ℕ) (reason : Option Text) → Request
  unassign_from : (job : ℕ) (reason : Option Text) → Request
  assign_template : (job template : ℕ) (before : Db) → Request
  complete : (job step : ℕ) (remark : Option Text) (ms : List Submitted) (before : Db) → Request
  redo : (job step : ℕ) (before : Db) → Request
  approve : (job : ℕ) → Request
  reject : (job : ℕ) (reason : Text) → Request
  rework : (job : ℕ) → Request
  close : (job : ℕ) (stat : ℕ → Stat) (before : Db) → Request
  reopen : (job : ℕ) (reason : Text) → Request
  confirm : (job : ℕ) (stat : ℕ → Stat) (before : Db) → Request

abbrev second {ℓ} : {A : Type ℓ} → Result (ℕ × A) → Result A
second (ok (n, a)) = ok a
second (err e) = err e

unfoldable pub serve : Digests → Actor → ℕ → Request → Db → Result Db
serve d actor now (create customer vehicle) db = second (create_job actor customer vehicle db)
serve d actor now (start job) db = start_job actor job now db
serve d actor now (cancel job reason) db = cancel_job actor job reason now db
serve d actor now (install job input) db = update_installation actor job input db
serve d actor now (reassign_to job technician reason) db = reassign actor job technician reason db
serve d actor now (unassign_from job reason) db = unassign actor job reason db
serve d actor now (assign_template job template before) db =
    assign_checklist actor job template before db
serve d actor now (complete job step remark ms before) db =
    complete_step actor job step remark ms now before db
serve d actor now (redo job step before) db = redo_step actor job step before db
serve d actor now (approve job) db = approve_stop actor job now db
serve d actor now (reject job reason) db = reject_stop actor job reason now db
serve d actor now (rework job) db = rework_stop actor job db
serve d actor now (close job stat before) db = close_job d stat actor job now before db
serve d actor now (reopen job reason) db = reopen_job actor job reason now db
serve d actor now (confirm job stat before) db = confirm_quality d stat actor job now before db
