-- ===== src/Domain/Planning.antt =====
-- The rows of door types, installers, company plans and import runs
-- (app/modules/{door_types,installers,companies,projects}/infrastructure/models.py), and the
-- dictionaries that an import run keeps. Columns that no modelled operation reads or writes are left
-- out.
use dimax_ops_backend.Base.{Bool, ℕ, Option, List, String}
use dimax_ops_backend.Domain.Rows.{DoorLabels}

pub record DoorType : Type 0 where
  pub id : ℕ
  pub company_id : ℕ
  pub code : String
  pub name : String
  pub is_active : Bool
  pub deleted_at : Option ℕ

pub record Installer : Type 0 where
  pub id : ℕ
  pub company_id : ℕ
  pub full_name : String
  pub phone : Option String
  pub email : Option String
  pub address : Option String
  pub passport_id : Option String
  pub notes : Option String
  pub status : String
  pub is_active : Bool
  pub user_id : Option ℕ
  pub deleted_at : Option ℕ

pub record CompanyPlan : Type 0 where
  pub id : ℕ
  pub company_id : ℕ
  pub plan_code : String
  pub is_active : Bool
  pub max_users : Option ℕ
  pub max_admin_users : Option ℕ
  pub max_installer_users : Option ℕ
  pub max_installers : Option ℕ
  pub max_projects : Option ℕ
  pub max_doors_per_project : Option ℕ

-- A row that an import is about to write.
pub record PreparedRow : Type 0 where
  pub door_type_id : ℕ
  pub our_price : ℕ
  pub labels : DoorLabels

-- A row as the payload of a run keeps it, its id and its price written as texts.
pub record SerializedRow : Type 0 where
  pub door_type_id : String
  pub our_price : String
  pub labels : DoorLabels

pub record RowError : Type 0 where
  pub row : ℕ
  pub message : String

pub record DataSummary : Type 0 where
  pub source_rows : ℕ
  pub prepared_rows : ℕ
  pub rows_with_errors : ℕ
  pub duplicate_rows_skipped : ℕ
  pub unique_order_numbers : ℕ
  pub unique_houses : ℕ
  pub unique_floors : ℕ
  pub unique_apartments : ℕ
  pub unique_locations : ℕ
  pub unique_markings : ℕ

pub record RequiredField : Type 0 where
  pub field_key : String
  pub display_name : String
  pub found : Bool
  pub matched_columns : List String

pub record PreviewGroup : Type 0 where
  pub order_number : Option String
  pub house_number : Option String
  pub floor_label : Option String
  pub apartment_number : Option String
  pub door_marking : Option String
  pub door_count : ℕ
  pub location_codes : List String

pub record Diagnostics : Type 0 where
  pub required_fields : List RequiredField
  pub recognized_columns : List String
  pub unmapped_columns : List String
  pub mapping_profile : String
  pub strict_required_fields : Bool
  pub missing_required_fields : List String
  pub data_summary : Option DataSummary
  pub preview_groups : List PreviewGroup

-- The keys of a result that a caller sees.
pub record ImportResult : Type 0 where
  pub parsed_rows : ℕ
  pub prepared_rows : ℕ
  pub imported : ℕ
  pub skipped : ℕ
  pub errors : List RowError
  pub diagnostics : Option Diagnostics
  pub mode : String
  pub would_import : ℕ
  pub would_skip : ℕ
  pub idempotency_hit : Bool

-- The key `_retry` of a payload.
pub record RetrySection : Type 0 where
  pub filename : Option String
  pub mapping_profile : String
  pub prepared_rows : List SerializedRow

pub record ImportPayload : Type 0 where
  pub result : ImportResult
  pub retry : Option RetrySection

pub record ImportRun : Type 0 where
  pub id : ℕ
  pub company_id : ℕ
  pub project_id : ℕ
  pub created_at : ℕ
  pub fingerprint : String
  pub import_mode : String
  pub source_filename : Option String
  pub mapping_profile : String
  pub result_payload : Option ImportPayload
