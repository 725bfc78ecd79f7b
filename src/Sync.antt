-- ===== src/Sync.antt =====
-- The devices' synchronisation: `SyncEventRepository` and `InstallerSyncStateRepository`
-- (app/modules/sync/infrastructure/repositories.py). What a device does not send is `none`.
pub mod Service
pub mod Acks
pub mod Doors
pub mod Written
pub mod Retry
pub mod Gc
pub mod Collected
pub mod Health
mod Tests
use dimax_ops_backend.Base.{
  ℕ, ◌-◌, ◌*◌, Bool, true, false, ◌&&◌, Option, none, some, List, [], ◌∷◌, String, ◌==◌, ltb, leb,
  if◌then◌else◌, is_value, get_or, clip, same_text,
}
use dimax_ops_backend.Store.{Table, find, count, exists, add, assign}
use dimax_ops_backend.Domain.{SyncEvent, SyncEventType, EventPayload, SyncState, HealthStatus}
use dimax_ops_backend.Uow.{Uow, Action, pure, query, ◌>>=◌, ◌>>◌, modify, new_id, flush_session}
use dimax_ops_backend.ChangeLog.{column}

-- An event as the device sends it.
pub record Event : Type 0 where
  pub client_event_id : String
  pub type : String
  pub project_id : ℕ
  pub happened_at : Option ℕ
  pub payload : EventPayload

abbrev pub is_client_event : (company_id : ℕ) → (client_event_id : String) → SyncEvent → Bool
is_client_event company_id client_event_id e =
    e.company_id == company_id && same_text e.client_event_id client_event_id

unfoldable pub exists_client_event : (company_id : ℕ) → (client_event_id : String) → Action Bool
exists_client_event company_id client_event_id =
    query (λ u. exists (is_client_event company_id client_event_id) u.sync_events)

unfoldable pub pending_row : (id company_id installer_id : ℕ) → SyncEventType → Event → SyncEvent
pending_row id company_id installer_id event_type ev = record {
  id = id;
  company_id = company_id;
  installer_id = installer_id;
  project_id = ev.project_id;
  event_type = event_type;
  client_event_id = ev.client_event_id;
  client_happened_at = ev.happened_at;
  payload = ev.payload;
  applied_at = none;
  apply_error = none;
}

unfoldable pub create_pending :
    (company_id installer_id : ℕ) → SyncEventType → Event → Action SyncEvent
create_pending company_id installer_id event_type ev = do
  id ← new_id
  let row : SyncEvent = pending_row id company_id installer_id event_type ev
  modify (λ u. record u { sync_events = add row u.sync_events })
  pure row

-- `mark_applied` and `mark_failed`, which set the two columns of the event's object.
unfoldable pub mark : (now : ℕ) → (apply_error : Option String) → SyncEvent → Uow → Uow
mark now apply_error row u = record u {
  sync_events =
      assign (λ x. x.id == row.id)
        (λ x. record x { applied_at = some now; apply_error = apply_error }) u.sync_events;
}

unfoldable pub mark_applied : (now : ℕ) → SyncEvent → Uow → Uow
mark_applied now row u = mark now none row u

unfoldable pub mark_failed : (now : ℕ) → SyncEvent → (error : String) → Uow → Uow
mark_failed now row error u = mark now (some (clip 5000 error)) row u

abbrev pub has_state_key : (company_id installer_id : ℕ) → SyncState → Bool
has_state_key company_id installer_id s =
    s.company_id == company_id && s.installer_id == installer_id

abbrev pub initial_state : (id company_id installer_id : ℕ) → SyncState
initial_state id company_id installer_id = record {
  id = id;
  company_id = company_id;
  installer_id = installer_id;
  last_cursor_ack = 0;
  last_seen_at = none;
  app_version = none;
  device_id = none;
  health_status = HealthStatus.ok;
  health_lag = none;
  health_days_offline = none;
  last_alert_at = none;
  last_alert_lag = none;
}

unfoldable pub get_or_create : (company_id installer_id : ℕ) → Action SyncState
get_or_create company_id installer_id = do
  found ← query (λ u. find (has_state_key company_id installer_id) u.sync_state)
  elim found [
    | some s ↦ pure s
    | none ↦ do
      id ← new_id
      let row : SyncState = initial_state id company_id installer_id
      modify (λ u. record u { sync_state = add row u.sync_state })
      pure row
  ]

abbrev pub set_state : SyncState → Uow → Uow
set_state s u = record u { sync_state = assign (λ x. x.id == s.id) (λ _. s) u.sync_state }

-- The state after an acknowledgement: the cursor never goes back.
unfoldable pub acked :
    (now cursor : ℕ) (app_version device_id : Option String) → SyncState → SyncState
acked now cursor app_version device_id s = record s {
  last_cursor_ack = if ltb s.last_cursor_ack cursor then cursor else s.last_cursor_ack;
  last_seen_at = some now;
  app_version = elim app_version [ none ↦ s.app_version | some v ↦ some v ];
  device_id = elim device_id [ none ↦ s.device_id | some v ↦ some v ];
}

unfoldable pub ack_cursor :
    (now company_id installer_id cursor : ℕ) (app_version device_id : Option String)
    → Action (Unit {0})
ack_cursor now company_id installer_id cursor app_version device_id = do
  s ← get_or_create company_id installer_id
  modify (set_state (acked now cursor app_version device_id s))

abbrev pub is_active : (now company_id active_days : ℕ) → SyncState → Bool
is_active now company_id active_days s =
    s.company_id == company_id
    && elim s.last_seen_at [ none ↦ false | some t ↦ leb (now - active_days * 86400) t ]

unfoldable pub minimum : List ℕ → Option ℕ
minimum [] = none
minimum (n ∷ ns) = elim (minimum ns) [ none ↦ some n | some m ↦ some (if leb n m then n else m) ]

unfoldable pub min_ack_for_company : (now company_id active_days : ℕ) → Uow → ℕ
min_ack_for_company now company_id active_days u =
    get_or
      (minimum
        (column (is_active now company_id active_days) (λ s. s.last_cursor_ack) u.sync_state))
      0

unfoldable pub active_installers_count : (company_id : ℕ) → Uow → ℕ
active_installers_count company_id u = count (λ s. s.company_id == company_id) u.sync_state

unfoldable pub reset_installer : (company_id installer_id : ℕ) → Action Bool
reset_installer company_id installer_id = do
  found ← query (λ u. find (has_state_key company_id installer_id) u.sync_state)
  elim found [
    | none ↦ pure false
    | some s ↦
        modify (set_state (record s { last_cursor_ack = 0; last_seen_at = none })) >> pure true
  ]

unfoldable pub reset_installer_to_initial : (company_id installer_id : ℕ) → Action SyncState
reset_installer_to_initial company_id installer_id = do
  s ← get_or_create company_id installer_id
  let row : SyncState = record s {
    last_cursor_ack = 0;
    last_seen_at = none;
    health_status = HealthStatus.unknown;
    health_days_offline = some 0;
    health_lag = none;
    last_alert_at = none;
    last_alert_lag = none;
    app_version = none;
    device_id = none;
  }
  modify (set_state row)
  flush_session
  pure row
