-- ===== src/Doors.antt =====
-- The doors of a project: app/modules/doors (application/use_cases.py, application/commands.py and
-- infrastructure/repositories.py), with the project status that follows from them
-- (app/modules/projects/application/status_service.py).
pub mod UseCases
pub mod Atomic
mod Tests
pub mod Rates
pub mod Status
pub mod Effects
pub mod Lifecycle
use dimax_ops_backend.Base.{
  ℕ, ◌+◌, ◌<◌, ◌≡◌, Bool, true, false, ◌&&◌, not, Option, none, some, List, [], ◌∷◌, ◌++◌, String,
  ◌==◌, leb, ltb, if◌then◌else◌, is_value, is_some, same_text,
}
use dimax_ops_backend.Store.{Table, find, select, count, exists, add, assign}
use dimax_ops_backend.Domain.{
  DoorStatus, Door, ProjectStatus, Project, IssueStatus, IssuePriority, IssueWorkflowState, Issue,
  Reason, InstallerRate, SyncChangeType, Change, door_state, AuditLog, is_not_installed, is_opened,
  str_door_status, not_found, forbidden, conflict, validation_error,
}
use dimax_ops_backend.Uow.{
  Uow, Result, ok, err, Action, pure, raise, or_raise, query, ◌>>=◌, ◌>>◌, raise_if, modify, new_id,
}

pub record MarkDoorInstalled : Type 0 where
  pub company_id : ℕ
  pub actor_user_id : ℕ
  pub door_id : ℕ

pub record MarkDoorNotInstalled : Type 0 where
  pub company_id : ℕ
  pub actor_user_id : ℕ
  pub door_id : ℕ
  pub reason_id : Option ℕ
  pub comment : Option String

pub record AdminOverrideDoor : Type 0 where
  pub company_id : ℕ
  pub actor_user_id : ℕ
  pub door_id : ℕ
  pub new_status : String
  pub reason_id : Option ℕ
  pub comment : Option String
  pub override_reason : Option String

-- The WHERE clauses of the repositories.
abbrev pub has_door_key : (company_id door_id : ℕ) → Door → Bool
has_door_key company_id door_id d = d.company_id == company_id && d.id == door_id

abbrev pub in_project : (company_id project_id : ℕ) → Door → Bool
in_project company_id project_id d = d.company_id == company_id && d.project_id == project_id

abbrev pub not_installed_in : (company_id project_id : ℕ) → Door → Bool
not_installed_in company_id project_id d =
    in_project company_id project_id d && is_not_installed d.status

abbrev pub of_installer : (company_id project_id installer_id : ℕ) → Door → Bool
of_installer company_id project_id installer_id d =
    in_project company_id project_id d && is_value d.installer_id installer_id

abbrev pub has_project_key : (company_id project_id : ℕ) → Project → Bool
has_project_key company_id project_id p =
    p.company_id == company_id && p.id == project_id && not (is_some p.deleted_at)

abbrev pub has_issue_door : (company_id door_id : ℕ) → Issue → Bool
has_issue_door company_id door_id i = i.company_id == company_id && i.door_id == door_id

abbrev pub has_reason_key : (company_id reason_id : ℕ) → Reason → Bool
has_reason_key company_id reason_id r =
    r.company_id == company_id && r.id == reason_id && not (is_some r.deleted_at)

abbrev pub rate_applies : (company_id installer_id door_type_id at : ℕ) → InstallerRate → Bool
rate_applies company_id installer_id door_type_id at r =
    r.company_id == company_id
    && r.installer_id == installer_id
    && r.door_type_id == door_type_id
    && leb r.effective_from at

-- `ORDER BY effective_from DESC`, first row.
unfoldable pub latest_rate : List InstallerRate → Option InstallerRate
latest_rate [] = none
latest_rate (r ∷ rs) = elim (latest_rate rs) [
  | none ↦ some r
  | some s ↦ if ltb r.effective_from s.effective_from then some s else some r
]

-- `InstallerRatesRepository.get_by_keys`
unfoldable pub get_by_keys :
    (company_id installer_id door_type_id at : ℕ) → Uow → Option InstallerRate
get_by_keys company_id installer_id door_type_id at u =
    latest_rate (select (rate_applies company_id installer_id door_type_id at) u.installer_rates)

-- `_resolve_installer_rate_snapshot`
unfoldable pub resolve_installer_rate_snapshot :
    (company_id : ℕ) (installer_id : Option ℕ) (door_type_id at : ℕ) → Action (Option ℕ)
resolve_installer_rate_snapshot company_id none door_type_id at = pure none
resolve_installer_rate_snapshot company_id (some installer_id) door_type_id at = do
  rate ← query (get_by_keys company_id installer_id door_type_id at)
  pure (elim rate [ none ↦ none | some r ↦ some r.price ])

-- `_ensure_reason_exists`
unfoldable pub ensure_reason_exists : (company_id reason_id : ℕ) → Action (Unit {0})
ensure_reason_exists company_id reason_id = do
  found ← query (λ u. find (has_reason_key company_id reason_id) u.reasons)
  reason ← or_raise found (validation_error "reason_id not found")
  raise_if (not reason.is_active) (validation_error "reason is inactive")

-- Assignments to the attributes of a door, an issue or a project object; the object is the one
-- with that primary key.
unfoldable pub set_door : Door → Uow → Uow
set_door d u = record u { doors = assign (λ x. x.id == d.id) (λ _. d) u.doors }

unfoldable pub set_issue : Issue → Uow → Uow
set_issue i u = record u { issues = assign (λ x. x.id == i.id) (λ _. i) u.issues }

unfoldable pub set_project : Project → Uow → Uow
set_project p u = record u { projects = assign (λ x. x.id == p.id) (λ _. p) u.projects }

-- `ProjectStatusService.recalc_and_set`
unfoldable pub recalc_and_set : (company_id project_id : ℕ) → Action (Unit {0})
unfolding set_project
recalc_and_set company_id project_id = do
  project ← query (λ u. find (has_project_key company_id project_id) u.projects)
  elim project [
    | none ↦ pure tt
    | some p ↦ do
      open_doors ← query (λ u. count (not_installed_in company_id project_id) u.doors)
      modify (
          set_project (record p {
            status = if ltb 0 open_doors then ProjectStatus.problem else ProjectStatus.ok;
          }))
  ]
