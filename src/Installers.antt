-- ===== src/Installers.antt =====
-- The administration of installers: `InstallersAdminApiService`
-- (app/modules/installers/application/admin_api_service.py) over `InstallersAdminService` and
-- `InstallerRepository`. What the inner service raises is written as the `HTTPException` that the outer
-- one makes of it. The change of single fields is left out, as is what `AuditService.add_independent`
-- commits in a session of its own.
mod Tests
use dimax_ops_backend.Base.{
  ℕ, Bool, true, false, ◌&&◌, not, Option, none, some, List, [], ◌∷◌, ◌++◌, String, ◌==◌,
  if◌then◌else◌, is_some, is_value,
}
use dimax_ops_backend.Store.{find, exists, add, assign}
use dimax_ops_backend.Domain.{
  Error, http_error, Installer, User, UserRole, AuditLog, AuditSnapshot, installer_snapshot,
  plan_limit_exceeded,
}
use dimax_ops_backend.Uow.{
  Uow, Result, ok, err, Action, pure, raise, or_raise, query, ◌>>=◌, ◌>>◌, raise_if, branch, modify,
  new_id, flush_session,
}
use dimax_ops_backend.Companies.{assert_can_create_installer, is_admin}
use dimax_ops_backend.Companies.Alerts.{AlertSettings, evaluate_and_alert}
use dimax_ops_backend.Rates.{has_installer_id, catch_integrity}
use dimax_ops_backend.Sync.{get_or_create}

-- `_installer_snapshot`
abbrev pub snapshot_of : Installer → AuditSnapshot
snapshot_of i = installer_snapshot i.full_name i.phone i.status i.is_active i.user_id i.deleted_at

-- `AuditService.add` of an entry about an installer.
abbrev pub add_installer_entry :
    (now company_id actor_user_id entity_id : ℕ) (action : String)
    (before after : Option AuditSnapshot)
    → Uow
    → Uow
add_installer_entry now company_id actor_user_id entity_id action before after u = record u {
  audit =
      u.audit
      ++ record {
        company_id = company_id;
        actor_user_id = actor_user_id;
        entity_type = "installer";
        entity_id = entity_id;
        action = action;
        reason = none;
        before = before;
        after = after;
        created_at = now;
      }
        ∷ [];
}

-- `InstallerCreateDTO`
pub record NewInstaller : Type 0 where
  pub full_name : String
  pub phone : Option String
  pub email : Option String
  pub address : Option String
  pub passport_id : Option String
  pub notes : Option String
  pub status : String
  pub is_active : Bool
  pub user_id : Option ℕ

abbrev pub is_user_of : (company_id user_id : ℕ) → User → Bool
is_user_of company_id user_id x = x.id == user_id && x.company_id == company_id

-- `_ensure_user_same_company`
unfoldable pub ensure_user_same_company : (company_id : ℕ) (user_id : Option ℕ) → Action (Unit {0})
ensure_user_same_company company_id none = pure tt
ensure_user_same_company company_id (some user_id) = do
  known ← query (λ u. exists (is_user_of company_id user_id) u.users)
  raise_if (not known) (http_error 400 "user_id not found in this company")

unfoldable pub installer_of : (id company_id : ℕ) → NewInstaller → Installer
installer_of id company_id input = record {
  id = id;
  company_id = company_id;
  full_name = input.full_name;
  phone = input.phone;
  email = input.email;
  address = input.address;
  passport_id = input.passport_id;
  notes = input.notes;
  status = input.status;
  is_active = input.is_active;
  user_id = input.user_id;
  deleted_at = none;
}

-- `InstallersAdminService.create`
unfoldable pub create_row : (company_id : ℕ) → NewInstaller → Action Installer
unfolding ensure_user_same_company installer_of get_or_create
create_row company_id input = do
  ensure_user_same_company company_id input.user_id
  id ← new_id
  modify (λ u. record u { installers = add (installer_of id company_id input) u.installers })
  flush_session
  get_or_create company_id id
  pure (installer_of id company_id input)

-- `except CompanyPlanLimitExceeded`
abbrev plan_limit_as_conflict : Error → Error
plan_limit_as_conflict (Error.plan_limit_exceeded m) = http_error 409 m
plan_limit_as_conflict (Error.not_found m) = Error.not_found m
plan_limit_as_conflict (Error.forbidden m) = Error.forbidden m
plan_limit_as_conflict (Error.conflict m) = Error.conflict m
plan_limit_as_conflict (Error.validation_error m) = Error.validation_error m
plan_limit_as_conflict (Error.value_error m) = Error.value_error m
plan_limit_as_conflict (Error.other_error m) = Error.other_error m
plan_limit_as_conflict (Error.http_error n m) = Error.http_error n m
plan_limit_as_conflict Error.integrity_error = Error.integrity_error
plan_limit_as_conflict Error.pending_rollback = Error.pending_rollback

abbrev catch_plan_limit : {A : Type 0} → Action A → Action A
catch_plan_limit m u =
    let (r, v) = m u in (elim r [ ok a ↦ ok a | err e ↦ err (plan_limit_as_conflict e) ], v)

unfoldable pub create_installer :
    AlertSettings → (now company_id actor_user_id : ℕ) → NewInstaller → Action Installer
unfolding create_row assert_can_create_installer evaluate_and_alert
create_installer settings now company_id actor_user_id input = do
  row ←
      catch_integrity (http_error 409 "installer violates unique constraints (e.g. phone)")
        (catch_plan_limit (assert_can_create_installer company_id >> create_row company_id input))
  modify (
      add_installer_entry now company_id actor_user_id row.id "INSTALLER_CREATE" none
        (some (snapshot_of row)))
  evaluate_and_alert settings now company_id actor_user_id ("installers" ∷ [])
  pure row

abbrev pub set_installer : Installer → Uow → Uow
set_installer i u = record u { installers = assign (λ x. x.id == i.id) (λ _. i) u.installers }

-- `uow.installers.get`, of one that is not deleted.
abbrev pub get_installer : (company_id installer_id : ℕ) → Action Installer
get_installer company_id installer_id = do
  found ← query (λ u. find (has_installer_id company_id installer_id) u.installers)
  row ← or_raise found (http_error 404 "installer not found")
  raise_if (is_some row.deleted_at) (http_error 404 "installer not found")
  pure row

-- `soft_delete`
unfoldable pub soft_deleted : (now : ℕ) → Installer → Installer
soft_deleted now i = record i {
  deleted_at = some now;
  is_active = false;
  status = "INACTIVE";
  user_id = none;
}

unfoldable pub delete_installer :
    (now company_id actor_user_id installer_id : ℕ) → Action (Unit {0})
unfolding soft_deleted
delete_installer now company_id actor_user_id installer_id = do
  row ← get_installer company_id installer_id
  let row' = soft_deleted now row
  modify (set_installer row')
  modify (
      add_installer_entry now company_id actor_user_id row.id "INSTALLER_DELETE"
        (some (snapshot_of row)) (some (snapshot_of row')))

-- `get_installer_by_user_id_any`
abbrev pub is_linked_to : (company_id user_id : ℕ) → Installer → Bool
is_linked_to company_id user_id i = i.company_id == company_id && is_value i.user_id user_id

-- `_get_user_for_link`
unfoldable pub get_user_for_link : (company_id user_id : ℕ) → Action User
get_user_for_link company_id user_id = do
  found ← query (λ u. find (is_user_of company_id user_id) u.users)
  row ← or_raise found (http_error 400 "user not found or wrong company")
  raise_if (is_admin row.role) (http_error 400 "user role must be INSTALLER")
  raise_if (not row.is_active) (http_error 400 "user is inactive")
  pure row

abbrev pub is_other : (other : Option Installer) → (installer : Installer) → Bool
is_other none installer = false
is_other (some i) installer = not (i.id == installer.id)

-- From `svc.link_user` on.
unfoldable pub link_row : (now company_id actor_user_id user_id : ℕ) → Installer → Action Installer
unfolding get_user_for_link
link_row now company_id actor_user_id user_id row = do
  get_user_for_link company_id user_id
  other ← query (λ u. find (is_linked_to company_id user_id) u.installers)
  raise_if (is_other other row) (http_error 409 "user is already linked to another installer")
  let row' : Installer = record row { user_id = some user_id }
  modify (set_installer row')
  modify (
      add_installer_entry now company_id actor_user_id row.id "INSTALLER_LINK_USER"
        (some (snapshot_of row)) (some (snapshot_of row')))
  flush_session
  pure row'

unfoldable pub link_user :
    (now company_id actor_user_id installer_id user_id : ℕ) → Action Installer
unfolding link_row
link_user now company_id actor_user_id installer_id user_id =
    catch_integrity (http_error 409 "user already linked to another installer") (do
      row ← get_installer company_id installer_id
      branch (is_value row.user_id user_id) (pure row)
          (link_row now company_id actor_user_id user_id row))

unfoldable pub unlink_user : (now company_id actor_user_id installer_id : ℕ) → Action Installer
unlink_user now company_id actor_user_id installer_id = do
  row ← get_installer company_id installer_id
  let row' : Installer = record row { user_id = none }
  modify (set_installer row')
  modify (
      add_installer_entry now company_id actor_user_id row.id "INSTALLER_UNLINK_USER"
        (some (snapshot_of row)) (some (snapshot_of row')))
  flush_session
  pure row'
