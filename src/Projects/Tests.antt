-- ===== src/Projects/Tests.antt =====
-- Runs of the imports of doors in the company of Sample, whose plan allows three doors in a project.
use dimax_ops_backend.Projects.{add_many, new_doors}
use dimax_ops_backend.Store.{add, exists, flush, objects, violates}
use dimax_ops_backend.Base.{strip}
use dimax_ops_backend.Companies.{assert_can_add_doors_to_project}
use dimax_ops_backend.Uow.{flushed, violates_unique}
use dimax_ops_backend.Base.{
  ℕ, ◌+◌, ◌≤◌, ◌≡◌, refl, ◌⊎◌, true, none, some, List, [], ◌∷◌, String, length,
}
use dimax_ops_backend.Store.{count, find}
use dimax_ops_backend.Domain.{DoorType, CompanyPlan, DoorLabels, PreparedRow, plan_limit_exceeded}
use dimax_ops_backend.Uow.{Uow, ok, err, ◌>>◌, pure, flush_session}
use dimax_ops_backend.Doors.{in_project, recalc_and_set}
use dimax_ops_backend.Sample
use dimax_ops_backend.Sample.{row}
use dimax_ops_backend.Projects.{import_doors}
use dimax_ops_backend.Projects.Bounds.{import_doors-le}
use dimax_ops_backend.Projects.Again.{import_doors_again}

abbrev door_type : DoorType
door_type = record {
  id = 3;
  company_id = 1;
  code = "steel";
  name = "Steel";
  is_active = true;
  deleted_at = none;
}

abbrev plan : CompanyPlan
plan = record {
  id = 60;
  company_id = 1;
  plan_code = "trial";
  is_active = true;
  max_users = none;
  max_admin_users = none;
  max_installer_users = none;
  max_installers = none;
  max_projects = none;
  max_doors_per_project = some 3;
}

abbrev uow : Uow
uow = record Sample.uow { door_types = row door_type ∷ []; company_plans = row plan ∷ [] }

abbrev labels : String → DoorLabels
labels unit_label = record {
  unit_label = unit_label;
  order_number = none;
  house_number = some "5";
  floor_label = none;
  apartment_number = none;
  location_code = none;
  door_marking = none;
}

abbrev prepared : String → PreparedRow
prepared unit_label = record { door_type_id = 3; our_price = 90000; labels = labels unit_label }

-- The first row has the place of a door of the project, the second has not.
abbrev rows : List PreparedRow
rows = prepared "12" ∷ prepared "16" ∷ []

imports_one : (import_doors 1 10 rows true uow).0 ≡ ok (1, 1)
unfolding import_doors find new_doors exists strip assert_can_add_doors_to_project count
    flush_session violates_unique violates objects add_many add recalc_and_set flushed flush
imports_one = refl

-- Two new doors are more than the plan allows.
refuses_two :
    (import_doors 1 10 (prepared "16" ∷ prepared "18" ∷ []) true uow).0
    ≡ err (plan_limit_exceeded "Door limit per project reached for current plan")
unfolding import_doors find new_doors exists strip assert_can_add_doors_to_project count
refuses_two = refl

import_doors-le_example :
    (1 + 1 ≡ length rows)
    × (count (in_project 1 10) (import_doors 1 10 rows true uow).1.doors
        ≡ count (in_project 1 10) uow.doors + 1)
    × ((◌≡◌ {A = ℕ} 1 0) ⊎ (count (in_project 1 10) (import_doors 1 10 rows true uow).1.doors ≤ 3))
unfolding find
import_doors-le_example =
    import_doors-le 1 10 rows uow 1 1 plan 3 (refl, (refl, tt)) refl refl imports_one

import_doors_again_example :
    import_doors 1 10 rows true (import_doors 1 10 rows true uow).1
    ≡ (flush_session >> (recalc_and_set 1 10 >> pure (0, length rows)))
        (import_doors 1 10 rows true uow).1
unfolding strip
import_doors_again_example =
    import_doors_again 1 10 rows uow (1, 1) (refl, (refl, tt)) (refl, tt) (refl, tt)
      (refl, (refl, tt)) imports_one
