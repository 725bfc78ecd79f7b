-- ===== src/Projects.antt =====
-- The projects and the import of their doors: app/modules/projects/application/use_cases.py over the
-- repositories of projects, doors, door types and installers.
mod Tests
pub mod Loop
pub mod Outcome
pub mod Bounds
pub mod Again
pub mod Import
pub mod Retry
use dimax_ops_backend.Base.{
  ℕ, suc, Bool, false, ◌&&◌, ◌||◌, not, Option, none, some, List, [], ◌∷◌, ◌++◌, String, ◌==◌,
  is_some, get_or, length, strip, same_text,
}
use dimax_ops_backend.Store.{Table, find, exists, add}
use dimax_ops_backend.Domain.{
  DoorStatus, Door, ProjectStatus, Project, DoorType, Installer, PreparedRow, SyncChangeType,
  Change, assignment, not_found, conflict,
}
use dimax_ops_backend.Uow.{
  Uow, Action, pure, or_raise, query, ◌>>=◌, ◌>>◌, raise_if, branch, modify, new_id, flush_session,
}
use dimax_ops_backend.ChangeLog.{add_change}
use dimax_ops_backend.Companies.{assert_can_create_project, assert_can_add_doors_to_project}
use dimax_ops_backend.Doors.{has_project_key, has_door_key, set_door, set_project, recalc_and_set}

-- The keyword arguments of `create_project` and `update_project`; `none` stands for an absent key
-- and for `None`.
pub record ProjectFields : Type 0 where
  pub name : Option String
  pub address : Option String
  pub developer_company : Option String
  pub contact_name : Option String
  pub contact_phone : Option String
  pub contact_email : Option String

abbrev pub has_door_type_key : (company_id door_type_id : ℕ) → DoorType → Bool
has_door_type_key company_id door_type_id t =
    t.company_id == company_id && t.id == door_type_id && not (is_some t.deleted_at)

abbrev pub has_installer_key : (company_id installer_id : ℕ) → Installer → Bool
has_installer_key company_id installer_id i = i.company_id == company_id && i.id == installer_id

abbrev pub new_project : (id company_id : ℕ) (name address : String) → ProjectFields → Project
new_project id company_id name address kwargs = record {
  id = id;
  company_id = company_id;
  name = name;
  address = address;
  developer_company = kwargs.developer_company;
  contact_name = kwargs.contact_name;
  contact_phone = kwargs.contact_phone;
  contact_email = kwargs.contact_email;
  status = ProjectStatus.ok;
  deleted_at = none;
}

unfoldable pub create_project :
    (company_id : ℕ) (name address : String) → ProjectFields → Action Project
create_project company_id name address kwargs = do
  assert_can_create_project company_id
  id ← new_id
  let project = new_project id company_id name address kwargs
  modify (λ u. record u { projects = add project u.projects })
  flush_session
  pure project

-- `if field in kwargs and kwargs[field] is not None: setattr(project, field, kwargs[field])`
abbrev pub with_fields : ProjectFields → Project → Project
with_fields kwargs p = record p {
  name = get_or kwargs.name p.name;
  address = get_or kwargs.address p.address;
  developer_company = elim kwargs.developer_company [
    | none ↦ p.developer_company
    | some v ↦ some v
  ];
  contact_name = elim kwargs.contact_name [ none ↦ p.contact_name | some v ↦ some v ];
  contact_phone = elim kwargs.contact_phone [ none ↦ p.contact_phone | some v ↦ some v ];
  contact_email = elim kwargs.contact_email [ none ↦ p.contact_email | some v ↦ some v ];
}

-- `uow.projects.get`, or `NotFound`
unfoldable pub get_project : (company_id project_id : ℕ) → Action Project
get_project company_id project_id = do
  found ← query (λ u. find (has_project_key company_id project_id) u.projects)
  or_raise found (not_found "Project not found")

unfoldable pub update_project : (company_id project_id : ℕ) → ProjectFields → Action Project
unfolding get_project
update_project company_id project_id kwargs = do
  project ← get_project company_id project_id
  modify (set_project (with_fields kwargs project))
  pure (with_fields kwargs project)

unfoldable pub delete_project : (now company_id project_id : ℕ) → Action (Unit {0})
unfolding get_project
delete_project now company_id project_id = do
  project ← get_project company_id project_id
  modify (set_project (record project { deleted_at = some now }))

-- `exists_by_project_unit_and_type`
abbrev pub at_position :
    (company_id project_id : ℕ) (unit_label : String) (door_type_id : ℕ) → Door → Bool
at_position company_id project_id unit_label door_type_id d =
    d.company_id == company_id
    && d.project_id == project_id
    && same_text d.labels.unit_label unit_label
    && d.door_type_id == door_type_id

abbrev pub new_door : (id company_id project_id : ℕ) → PreparedRow → Door
new_door id company_id project_id r = record {
  id = id;
  company_id = company_id;
  project_id = project_id;
  door_type_id = r.door_type_id;
  labels = r.labels;
  our_price = r.our_price;
  installer_rate_snapshot = none;
  status = DoorStatus.not_installed;
  installer_id = none;
  reason_id = none;
  comment = none;
  installed_at = none;
  is_locked = false;
}

-- The checks on the door type of a row.
unfoldable pub check_type : (company_id door_type_id : ℕ) → Action (Unit {0})
check_type company_id door_type_id = do
  found ← query (λ u. find (has_door_type_key company_id door_type_id) u.door_types)
  door_type ← or_raise found (not_found "Door type not found")
  raise_if (not door_type.is_active) (conflict "Door type is inactive")

-- `skip_existing and uow.doors.exists_by_project_unit_and_type(...)`
abbrev pub is_skipped :
    (company_id project_id : ℕ) (skip_existing : Bool) → PreparedRow → Uow → Bool
is_skipped company_id project_id skip_existing r u =
    skip_existing
    && exists (at_position company_id project_id (strip r.labels.unit_label) r.door_type_id) u.doors

-- The two ends of the loop's body: `skipped += 1; continue`, and `doors.append(DoorORM(...))`.
abbrev pub count_skipped : Action (List Door × ℕ) → Action (List Door × ℕ)
count_skipped rest = rest >>= λ found. pure (found.0, suc found.1)

abbrev pub append_door :
    (company_id project_id : ℕ) → PreparedRow → Action (List Door × ℕ) → Action (List Door × ℕ)
append_door company_id project_id r rest =
    new_id >>= λ id. rest >>= λ found. pure (new_door id company_id project_id r ∷ found.0, found.1)

-- The body of the loop of `import_doors` for one row, with the rest of the loop.
unfoldable pub import_row :
    (company_id project_id : ℕ) (skip_existing : Bool)
    → PreparedRow
    → Action (List Door × ℕ)
    → Action (List Door × ℕ)
unfolding check_type
import_row company_id project_id skip_existing r rest =
    check_type company_id r.door_type_id
    >> query (is_skipped company_id project_id skip_existing r)
    >>= λ skips. branch skips (count_skipped rest) (append_door company_id project_id r rest)

-- The loop: the doors to add, and how many rows it skips.
unfoldable pub new_doors :
    (company_id project_id : ℕ) (skip_existing : Bool) → List PreparedRow → Action (List Door × ℕ)
unfolding import_row
new_doors company_id project_id skip_existing [] = pure ([], 0)
new_doors company_id project_id skip_existing (r ∷ rows) =
    import_row company_id project_id skip_existing r
      (new_doors company_id project_id skip_existing rows)

-- `session.add_all`
unfoldable pub add_many : List Door → Table Door → Table Door
add_many [] t = t
add_many (d ∷ ds) t = add_many ds (add d t)

-- The end of `import_doors`, from the check of the plan on.
unfoldable pub add_doors : (company_id project_id : ℕ) → List Door × ℕ → Action (ℕ × ℕ)
add_doors company_id project_id found = do
  assert_can_add_doors_to_project company_id project_id (length found.0)
  modify (λ u. record u { doors = add_many found.0 u.doors })
  flush_session
  recalc_and_set company_id project_id
  pure (length found.0, found.1)

unfoldable pub import_doors :
    (company_id project_id : ℕ) → List PreparedRow → (skip_existing : Bool) → Action (ℕ × ℕ)
unfolding get_project add_doors
import_doors company_id project_id rows skip_existing =
    get_project company_id project_id
    >> new_doors company_id project_id skip_existing rows
    >>= add_doors company_id project_id

unfoldable pub assignment_change :
    (now company_id : ℕ) (kind : String) (project_id : ℕ) (installer_id : Option ℕ) (door_id : ℕ)
    → Change
assignment_change now company_id kind project_id installer_id door_id = record {
  company_id = company_id;
  created_at = now;
  change_type = SyncChangeType.project_assignments;
  entity_id = project_id;
  project_id = project_id;
  installer_id = installer_id;
  payload = assignment kind project_id (door_id ∷ []);
}

unfoldable pub assign_installer_to_door :
    (now company_id door_id installer_id : ℕ) → Action (Unit {0})
unfolding assignment_change
assign_installer_to_door now company_id door_id installer_id = do
  found ← query (λ u. find (has_door_key company_id door_id) u.doors)
  door ← or_raise found (not_found "Door not found")
  raise_if door.is_locked (conflict "Door is locked. Cannot reassign installer.")
  found_installer ← query (λ u. find (has_installer_key company_id installer_id) u.installers)
  installer ← or_raise found_installer (not_found "Installer not found")
  raise_if (is_some installer.deleted_at || not installer.is_active)
      (not_found "Installer not found")
  modify (set_door (record door { installer_id = some installer_id }))
  modify (add_change (assignment_change now company_id "assign_doors" door.project_id none door_id))
  modify (
      add_change (
        assignment_change now company_id "assigned_to_you" door.project_id (some installer_id)
          door_id))
  elim door.installer_id [
    | none ↦ pure tt
    | some old ↦ modify (
        add_change
          (assignment_change now company_id "removed_from_you" door.project_id (some old) door_id))
  ]
