-- ===== src/Rbac.antt =====
-- src/rbac/permissions.ts (and the roles of src/types/auth.ts): the permission registry, the
-- assignable roles and the branch scope of job operations.
pub mod Duties
use easygas_guide_server.Common.{ℕ, Bool, true, false, Option, none, some, List, [], ◌∷◌, ◌==◌, any}

pub data Role : Type 0 where
  usta master rahbar sifat admin : Role

pub data Permission : Type 0 where
  users_view users_create users_update users_block users_assign_role users_reset_password
        branches_manage registration_review :
      Permission
  customers_view customers_manage vehicles_view vehicles_manage : Permission
  jobs_view jobs_create checklist_execute : Permission
  jobs_close jobs_reopen stops_approve services_view_all five_why_create templates_manage :
      Permission
  risks_create risks_resolve risks_override risk_matrix_approve jobs_assign gps_override :
      Permission
  catalog_view catalog_manage : Permission

abbrev role_code : Role → ℕ
role_code usta = 0
role_code master = 1
role_code rahbar = 2
role_code sifat = 3
role_code admin = 4

abbrev pub role_eq : Role → Role → Bool
role_eq a b = role_code a == role_code b

abbrev permission_code : Permission → ℕ
permission_code users_view = 0
permission_code users_create = 1
permission_code users_update = 2
permission_code users_block = 3
permission_code users_assign_role = 4
permission_code users_reset_password = 5
permission_code branches_manage = 6
permission_code registration_review = 7
permission_code customers_view = 8
permission_code customers_manage = 9
permission_code vehicles_view = 10
permission_code vehicles_manage = 11
permission_code jobs_view = 12
permission_code jobs_create = 13
permission_code checklist_execute = 14
permission_code jobs_close = 15
permission_code jobs_reopen = 16
permission_code stops_approve = 17
permission_code services_view_all = 18
permission_code five_why_create = 19
permission_code templates_manage = 20
permission_code risks_create = 21
permission_code risks_resolve = 22
permission_code risks_override = 23
permission_code risk_matrix_approve = 24
permission_code jobs_assign = 25
permission_code gps_override = 26
permission_code catalog_view = 27
permission_code catalog_manage = 28

abbrev pub permission_eq : Permission → Permission → Bool
permission_eq a b = permission_code a == permission_code b

abbrev pub role_codes : List Role
role_codes = usta ∷ master ∷ rahbar ∷ sifat ∷ admin ∷ []

pub role_permissions : Role → List Permission
role_permissions usta =
    jobs_view ∷ jobs_create ∷ checklist_execute ∷ customers_view ∷ customers_manage ∷ vehicles_view
    ∷ vehicles_manage ∷ risks_create ∷ []
role_permissions master =
    jobs_view ∷ jobs_create ∷ checklist_execute ∷ stops_approve ∷ jobs_close ∷ five_why_create
    ∷ customers_view ∷ customers_manage ∷ vehicles_view ∷ vehicles_manage ∷ risks_create
    ∷ risks_resolve ∷ jobs_assign ∷ gps_override ∷ []
role_permissions rahbar =
    jobs_view ∷ five_why_create ∷ users_view ∷ users_create ∷ customers_view ∷ vehicles_view
    ∷ catalog_view ∷ []
role_permissions sifat =
    jobs_view ∷ jobs_reopen ∷ services_view_all ∷ five_why_create ∷ customers_view ∷ vehicles_view
    ∷ risks_resolve ∷ risks_override ∷ risk_matrix_approve ∷ gps_override ∷ catalog_view ∷ []
role_permissions admin =
    users_view ∷ users_create ∷ users_update ∷ users_block ∷ users_assign_role
    ∷ users_reset_password ∷ branches_manage ∷ registration_review ∷ customers_view
    ∷ customers_manage ∷ vehicles_view ∷ vehicles_manage ∷ jobs_view ∷ jobs_reopen
    ∷ services_view_all ∷ five_why_create ∷ templates_manage ∷ risks_resolve ∷ risks_override
    ∷ risk_matrix_approve ∷ jobs_assign ∷ gps_override ∷ catalog_view ∷ catalog_manage ∷ []

unfoldable pub can : Role → Permission → Bool
unfolding role_permissions any
can role permission = any (permission_eq permission) (role_permissions role)

pub get_assignable_roles : Role → List Role
get_assignable_roles admin = role_codes
get_assignable_roles rahbar = usta ∷ master ∷ []
get_assignable_roles _ = []

abbrev pub branch_required_roles : List Role
branch_required_roles = usta ∷ master ∷ rahbar ∷ []

pub is_branch_scoped : Role → Bool
is_branch_scoped admin = false
is_branch_scoped _ = true

-- The signed-in user, as far as the handlers read it.
pub record Actor : Type 0 where
  pub id : ℕ
  pub role : Role
  pub branch_id : Option ℕ

-- `null` (every branch), the actor's branch, or -1, which is the id of no branch.
pub data Scope : Type 0 where
  every_branch : Scope
  one_branch : ℕ → Scope
  no_branch : Scope

own_branch : Option ℕ → Scope
own_branch (some b) = one_branch b
own_branch none = no_branch

unfoldable pub jobs_branch_scope : Actor → Scope
unfolding can own_branch
jobs_branch_scope actor = elim (can actor.role services_view_all) [
  | true ↦ every_branch
  | false ↦ own_branch actor.branch_id
]

-- `!(scope !== null && job.branch_id !== scope)`
unfoldable pub in_scope : Scope → ℕ → Bool
in_scope every_branch branch = true
in_scope (one_branch b) branch = branch == b
in_scope no_branch branch = false
