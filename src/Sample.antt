-- ===== src/Sample.antt =====
-- Rows of a small company that the tests of the modules share: company 1 with project 10, its
-- doors 100 and 101 of installer 7, a reason, two rates and an add-on type.
use dimax_ops_backend.Base.{ℕ, false, true, none, some, [], ◌∷◌, String, ◌==◌, if◌then◌else◌}
use dimax_ops_backend.Store.{Entry}
use dimax_ops_backend.Domain.{
  DoorStatus, DoorLabels, Door, ProjectStatus, Project, Reason, InstallerRate, AddonType,
}
use dimax_ops_backend.Uow.{Uow, empty_uow}

-- A row that the database has.
abbrev pub row : {A : Type 0} → A → Entry A
row a = record { stored = some a; live = a }

abbrev unit_label_of : ℕ → String
unit_label_of id = if id == 100 then "12" else "14"

abbrev pub labels : ℕ → DoorLabels
labels id = record {
  unit_label = unit_label_of id;
  order_number = none;
  house_number = none;
  floor_label = none;
  apartment_number = none;
  location_code = none;
  door_marking = none;
}

abbrev pub door : ℕ → Door
door id = record {
  id = id;
  company_id = 1;
  project_id = 10;
  door_type_id = 3;
  labels = labels id;
  our_price = 90000;
  installer_rate_snapshot = none;
  status = DoorStatus.not_installed;
  installer_id = some 7;
  reason_id = none;
  comment = none;
  installed_at = none;
  is_locked = false;
}

abbrev pub project : Project
project = record {
  id = 10;
  company_id = 1;
  name = "Tower";
  address = "1 Main St";
  developer_company = none;
  contact_name = none;
  contact_phone = none;
  contact_email = none;
  status = ProjectStatus.problem;
  deleted_at = none;
}

abbrev pub reason : Reason
reason = record { id = 5; company_id = 1; is_active = true; deleted_at = none }

abbrev pub rate : ℕ → ℕ → ℕ → InstallerRate
rate id effective_from price = record {
  id = id;
  company_id = 1;
  installer_id = 7;
  door_type_id = 3;
  effective_from = effective_from;
  price = price;
}

abbrev pub addon_type : AddonType
addon_type = record {
  id = 40;
  company_id = 1;
  name = "Peephole";
  unit = "pcs";
  default_client_price = 5000;
  default_installer_price = 2000;
  is_active = true;
  deleted_at = none;
}

abbrev pub uow : Uow
uow = record empty_uow {
  doors = row (door 100) ∷ row (door 101) ∷ [];
  projects = row project ∷ [];
  reasons = row reason ∷ [];
  installer_rates = row (rate 1 0 15000) ∷ row (rate 2 50 17000) ∷ row (rate 3 900 20000) ∷ [];
  addon_types = row addon_type ∷ [];
}
