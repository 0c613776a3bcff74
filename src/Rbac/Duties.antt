-- ===== src/Rbac/Duties.antt =====
-- Separation of duties and branch confinement, over the permission registry.
use easygas_guide_server.Common.{true, false, some, ◌≡◌, refl, ◌⊎◌, arith, ◌&&◌, ℕ}
use easygas_guide_server.Rbac.{
  Role, usta, jobs_close, jobs_reopen, stops_approve, services_view_all, risk_matrix_approve, can,
  Actor, jobs_branch_scope, in_scope,
}

-- No role may both close a job and reopen or quality-confirm one, and no role that approves STOP
-- checkpoints may activate a risk matrix.
pub duties_separated :
    (r : Role)
    → (can r jobs_close && can r jobs_reopen ≡ false)
      × (can r stops_approve && can r risk_matrix_approve ≡ false)
unfolding can
duties_separated usta = (refl, refl)
duties_separated _ = (refl, refl)

-- An actor that is in scope of a branch's jobs has a role that sees all branches, or is of that
-- branch.
pub in_scope_own :
    (a : Actor) (branch : ℕ)
    → in_scope (jobs_branch_scope a) branch ≡ true
    → (can a.role services_view_all ≡ true) ⊎ (a.branch_id ≡ some branch)
unfolding jobs_branch_scope in_scope
in_scope_own a branch h = ground arith
