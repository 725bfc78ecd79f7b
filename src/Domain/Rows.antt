-- ===== src/Domain/Rows.antt =====
-- The enumerations and the rows of doors, projects, issues, reasons, rates, add-ons and sync
-- (app/modules/*/domain/enums.py and infrastructure/models.py). Ids are numbers, instants are
-- numbers of seconds, and prices are hundredths. Columns that no modelled operation reads or
-- writes are left out.
use dimax_ops_backend.Base.{ℕ, Bool, true, false, Option, List, String, ℤ}

pub data DoorStatus : Type 0 where
  installed not_installed : DoorStatus

pub data ProjectStatus : Type 0 where
  ok problem : ProjectStatus

pub data IssueStatus : Type 0 where
  opened closed : IssueStatus

pub data IssuePriority : Type 0 where
  p1 p2 p3 p4 : IssuePriority

pub data IssueWorkflowState : Type 0 where
  new triaged in_progress blocked resolved closed : IssueWorkflowState

pub data SyncEventType : Type 0 where
  door_set_status addon_fact_create : SyncEventType

pub data SyncChangeType : Type 0 where
  door addon_fact project_addon_plan project_assignments project_base catalog_addon_types :
      SyncChangeType

pub data AddonFactSource : Type 0 where
  online offline : AddonFactSource

-- `str(door.status)`: the class mixes in `str` and keeps `Enum.__str__`, which writes the class.
unfoldable pub str_door_status : DoorStatus → String
str_door_status DoorStatus.installed = "DoorStatus.INSTALLED"
str_door_status DoorStatus.not_installed = "DoorStatus.NOT_INSTALLED"

abbrev pub is_not_installed : DoorStatus → Bool
is_not_installed DoorStatus.installed = false
is_not_installed DoorStatus.not_installed = true

abbrev pub is_opened : IssueStatus → Bool
is_opened IssueStatus.opened = true
is_opened IssueStatus.closed = false

-- The columns that describe where a door stands.
pub record DoorLabels : Type 0 where
  pub unit_label : String
  pub order_number : Option String
  pub house_number : Option String
  pub floor_label : Option String
  pub apartment_number : Option String
  pub location_code : Option String
  pub door_marking : Option String

pub record Door : Type 0 where
  pub id : ℕ
  pub company_id : ℕ
  pub project_id : ℕ
  pub door_type_id : ℕ
  pub labels : DoorLabels
  pub our_price : ℕ
  pub installer_rate_snapshot : Option ℕ
  pub status : DoorStatus
  pub installer_id : Option ℕ
  pub reason_id : Option ℕ
  pub comment : Option String
  pub installed_at : Option ℕ
  pub is_locked : Bool

pub record Project : Type 0 where
  pub id : ℕ
  pub company_id : ℕ
  pub name : String
  pub address : String
  pub developer_company : Option String
  pub contact_name : Option String
  pub contact_phone : Option String
  pub contact_email : Option String
  pub status : ProjectStatus
  pub deleted_at : Option ℕ

pub record Issue : Type 0 where
  pub id : ℕ
  pub company_id : ℕ
  pub door_id : ℕ
  pub status : IssueStatus
  pub title : Option String
  pub details : Option String
  pub owner_user_id : Option ℕ
  pub due_at : Option ℕ
  pub priority : IssuePriority
  pub workflow_state : IssueWorkflowState

pub record Reason : Type 0 where
  pub id : ℕ
  pub company_id : ℕ
  pub is_active : Bool
  pub deleted_at : Option ℕ

pub record InstallerRate : Type 0 where
  pub id : ℕ
  pub company_id : ℕ
  pub installer_id : ℕ
  pub door_type_id : ℕ
  pub effective_from : ℕ
  pub price : ℕ

pub record AddonType : Type 0 where
  pub id : ℕ
  pub company_id : ℕ
  pub name : String
  pub unit : String
  pub default_client_price : ℕ
  pub default_installer_price : ℕ
  pub is_active : Bool
  pub deleted_at : Option ℕ

pub record AddonPlan : Type 0 where
  pub id : ℕ
  pub company_id : ℕ
  pub project_id : ℕ
  pub addon_type_id : ℕ
  pub qty_planned : ℕ
  pub client_price : ℕ
  pub installer_price : ℕ

pub record AddonFact : Type 0 where
  pub id : ℕ
  pub company_id : ℕ
  pub project_id : ℕ
  pub addon_type_id : ℕ
  pub installer_id : ℕ
  pub qty_done : ℤ
  pub done_at : ℕ
  pub comment : Option String
  pub source : AddonFactSource
  pub client_event_id : Option String

-- A value that a device sends where the service wants a UUID or a decimal: nothing (`None`, or a
-- text that is empty), a value that does not parse, or one that does.
pub data RawId : Type 0 where
  absent malformed : RawId
  uuid : ℕ → RawId

pub data RawQty : Type 0 where
  absent malformed : RawQty
  number : ℤ → RawQty

-- The keys of an event's payload that the service reads.
pub record EventPayload : Type 0 where
  pub door_id : RawId
  pub status : Option String
  pub reason_id : RawId
  pub addon_type_id : RawId
  pub qty_done : RawQty
  pub comment : Option String

pub record SyncEvent : Type 0 where
  pub id : ℕ
  pub company_id : ℕ
  pub installer_id : ℕ
  pub project_id : ℕ
  pub event_type : SyncEventType
  pub client_event_id : String
  pub client_happened_at : Option ℕ
  pub payload : EventPayload
  pub applied_at : Option ℕ
  pub apply_error : Option String

pub data HealthStatus : Type 0 where
  ok warn danger unknown : HealthStatus

pub record SyncState : Type 0 where
  pub id : ℕ
  pub company_id : ℕ
  pub installer_id : ℕ
  pub last_cursor_ack : ℕ
  pub last_seen_at : Option ℕ
  pub app_version : Option String
  pub device_id : Option String
  pub health_status : HealthStatus
  pub health_lag : Option ℕ
  pub health_days_offline : Option ℕ
  pub last_alert_at : Option ℕ
  pub last_alert_lag : Option ℕ

-- What a change tells the device, by the kind of the change.
pub record PlanItem : Type 0 where
  pub addon_type_id : ℕ
  pub qty_planned : ℕ
  pub client_price : ℕ
  pub installer_price : ℕ

pub data ChangePayload : Type 0 where
  door_state :
      (id project_id door_type_id : ℕ)
      → DoorLabels
      → (status : String) → (comment : Option String) → (updated_at : ℕ) → ChangePayload
  addon_fact_state : AddonFact → ChangePayload
  plan_upsert : (project_id : ℕ) → List PlanItem → ChangePayload
  plan_delete : (project_id deleted_addon_type_id : ℕ) → ChangePayload
  assignment : (kind : String) → (project_id : ℕ) → (affected_door_ids : List ℕ) → ChangePayload

pub record Change : Type 0 where
  pub company_id : ℕ
  pub created_at : ℕ
  pub change_type : SyncChangeType
  pub entity_id : ℕ
  pub project_id : ℕ
  pub installer_id : Option ℕ
  pub payload : ChangePayload

-- A flushed row of `sync_change_log`, which has its `cursor_id` from the sequence.
pub record LoggedChange : Type 0 where
  pub cursor_id : ℕ
  pub change : Change
