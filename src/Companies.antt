-- ===== src/Companies.antt =====
-- The plan limits of a company: app/modules/companies/application/limits_service.py and the queries
-- of `CompanyPlanRepository` (app/modules/companies/infrastructure/repositories.py). The unit of work
-- always has `company_plans`, so the services' test for its absence is left out.
pub mod Alerts
mod Tests
use dimax_ops_backend.Base.{
  ℕ, ◌+◌, Bool, true, false, ◌&&◌, not, Option, none, some, String, ◌==◌, leb, ltb, is_some,
}
use dimax_ops_backend.Store.{find, count}
use dimax_ops_backend.Domain.{
  UserRole, User, Installer, Project, Door, CompanyPlan, plan_limit_exceeded,
}
use dimax_ops_backend.Doors.{in_project}
use dimax_ops_backend.Uow.{Uow, Action, pure, raise, query, ◌>>=◌, ◌>>◌, raise_if, branch}

abbrev pub of_company : (company_id : ℕ) → CompanyPlan → Bool
of_company company_id p = p.company_id == company_id

abbrev pub is_admin : UserRole → Bool
is_admin UserRole.admin = true
is_admin UserRole.installer = false

abbrev pub active_user : (company_id : ℕ) → User → Bool
active_user company_id x = x.company_id == company_id && x.is_active

abbrev pub active_installer : (company_id : ℕ) → Installer → Bool
active_installer company_id i =
    i.company_id == company_id && not (is_some i.deleted_at) && i.is_active

abbrev pub active_project : (company_id : ℕ) → Project → Bool
active_project company_id p = p.company_id == company_id && not (is_some p.deleted_at)

pub record Usage : Type 0 where
  pub active_users : ℕ
  pub active_admin_users : ℕ
  pub active_installer_users : ℕ
  pub active_installers : ℕ
  pub active_projects : ℕ
  pub total_doors : ℕ

-- `CompanyPlanRepository.usage_summary`
unfoldable pub usage_summary : (company_id : ℕ) → Uow → Usage
usage_summary company_id u = record {
  active_users = count (active_user company_id) u.users;
  active_admin_users = count (λ x. active_user company_id x && is_admin x.role) u.users;
  active_installer_users = count (λ x. active_user company_id x && not (is_admin x.role)) u.users;
  active_installers = count (active_installer company_id) u.installers;
  active_projects = count (active_project company_id) u.projects;
  total_doors = count (λ d. d.company_id == company_id) u.doors;
}

-- `_get_enforced_plan_or_none`
unfoldable pub get_enforced_plan_or_none : (company_id : ℕ) → Action (Option CompanyPlan)
get_enforced_plan_or_none company_id = do
  plan ← query (λ u. find (of_company company_id) u.company_plans)
  elim plan [
    | none ↦ pure none
    | some p ↦ do
      raise_if (not p.is_active) (plan_limit_exceeded "Company plan is inactive")
      pure (some p)
  ]

-- `if limit is not None and current >= limit: raise`
unfoldable pub raise_at_limit : (current : ℕ) → (limit : Option ℕ) → String → Action (Unit {0})
raise_at_limit current none text = pure tt
raise_at_limit current (some limit) text = raise_if (leb limit current) (plan_limit_exceeded text)

unfoldable pub assert_can_create_user : (company_id : ℕ) → UserRole → Action (Unit {0})
unfolding get_enforced_plan_or_none usage_summary raise_at_limit
assert_can_create_user company_id role = do
  plan ← get_enforced_plan_or_none company_id
  usage ← query (usage_summary company_id)
  elim plan [
    | none ↦ pure tt
    | some p ↦ do
      raise_at_limit usage.active_users p.max_users "User limit reached for current plan"
      elim role [
        | UserRole.admin ↦
            raise_at_limit usage.active_admin_users p.max_admin_users
              "Admin user limit reached for current plan"
        | UserRole.installer ↦
            raise_at_limit usage.active_installer_users p.max_installer_users
              "Installer user limit reached for current plan"
      ]
  ]

unfoldable pub assert_can_create_project : (company_id : ℕ) → Action (Unit {0})
unfolding get_enforced_plan_or_none usage_summary raise_at_limit
assert_can_create_project company_id = do
  plan ← get_enforced_plan_or_none company_id
  elim plan [
    | none ↦ pure tt
    | some p ↦ elim p.max_projects [
      | none ↦ pure tt
      | some limit ↦ do
        usage ← query (usage_summary company_id)
        raise_at_limit usage.active_projects (some limit) "Project limit reached for current plan"
    ]
  ]

unfoldable pub assert_can_create_installer : (company_id : ℕ) → Action (Unit {0})
unfolding get_enforced_plan_or_none usage_summary raise_at_limit
assert_can_create_installer company_id = do
  plan ← get_enforced_plan_or_none company_id
  elim plan [
    | none ↦ pure tt
    | some p ↦ elim p.max_installers [
      | none ↦ pure tt
      | some limit ↦ do
        usage ← query (usage_summary company_id)
        raise_at_limit usage.active_installers (some limit)
            "Installer limit reached for current plan"
    ]
  ]

unfoldable pub assert_can_add_doors_to_project :
    (company_id project_id adding_count : ℕ) → Action (Unit {0})
unfolding get_enforced_plan_or_none
assert_can_add_doors_to_project company_id project_id adding_count =
    branch (leb adding_count 0) (pure tt) (do
      plan ← get_enforced_plan_or_none company_id
      elim plan [
        | none ↦ pure tt
        | some p ↦ elim p.max_doors_per_project [
          | none ↦ pure tt
          | some limit ↦ do
            current ← query (λ u. count (in_project company_id project_id) u.doors)
            raise_if (ltb limit (current + adding_count))
                (plan_limit_exceeded "Door limit per project reached for current plan")
        ]
      ])
